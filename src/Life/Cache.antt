-- ===== src/Life/Cache.antt =====
-- How cache writers are made and destroyed: `cache_handle_create` and `cache_handle_destroy` of
-- mm_media/cache/mm_cache.c, with `create_cache_simple` and `destroy_cache_simple` of mm_cache_simple.c.
pub mod Kept
use pluto_project.Base.{
  ℕ, Bool, true, false, Option, none, some, List, [], ◌∷◌, ◌==◌, if◌then◌else◌,
}
use pluto_project.Driver.{cachemode_thread, cachemode_simple}
use pluto_project.Life.{World, Outcome, returned, Prog, pure, bound, ◌>>=◌, ◌>>◌, acquire, release}

-- `CacheSimpleContext`: its own block, and the one for the cache.
pub record CacheContext : Type 0 where
  pub self : ℕ
  pub mp_cache : Option ℕ

-- `FsCacheWriter`: its own block, the mode and the context.
pub record CacheHandle : Type 0 where
  pub self : ℕ
  pub mode : ℕ
  pub priv : Option CacheContext

-- The last allocation, for the cache; `_ERROR_1` where it fails.
abbrev pub with_cache : ℕ → ℕ → Option ℕ → Prog (Option CacheHandle)
with_cache writer context none = do release (some context); release (some writer); pure none
with_cache writer context (some cache) = pure (
    some (record {
      self = writer;
      mode = cachemode_simple;
      priv = some (record { self = context; mp_cache = some cache });
    }))

-- The context, and `_ERROR_0` where it cannot be had.
abbrev pub with_context : ℕ → Option ℕ → Prog (Option CacheHandle)
with_context writer none = do release (some writer); pure none
with_context writer (some context) = do cache ← acquire; with_cache writer context cache

abbrev pub with_writer : Option ℕ → Prog (Option CacheHandle)
with_writer none = pure none
with_writer (some writer) = do context ← acquire; with_context writer context

-- `create_cache_simple`; a size of 0 stands for all that are not positive.
unfoldable pub make_cache_simple : ℕ → Prog (Option CacheHandle)
make_cache_simple cache_size =
    if cache_size == 0 then pure none else (do writer ← acquire; with_writer writer)

unfoldable pub cache_handle_create : ℕ → ℕ → Prog (Option CacheHandle)
cache_handle_create mode cache_size =
    if mode == cachemode_thread
    then pure none
    else if mode == cachemode_simple
    then make_cache_simple cache_size
    else pure none

-- `destroy_cache_simple`: whether it returns 0. A writer without a context stays.
abbrev pub destroy_context : ℕ → Option CacheContext → Prog Bool
destroy_context writer none = pure false
destroy_context writer (some c) = do
  release c.mp_cache
  release (some c.self)
  release (some writer)
  pure true

unfoldable pub destroy_cache_simple : CacheHandle → Prog Bool
destroy_cache_simple h = destroy_context h.self h.priv

unfoldable pub cache_handle_destroy : Option CacheHandle → Prog Bool
cache_handle_destroy none = pure false
cache_handle_destroy (some h) =
    if h.mode == cachemode_thread
    then pure true
    else if h.mode == cachemode_simple
    then destroy_cache_simple h
    else pure false
