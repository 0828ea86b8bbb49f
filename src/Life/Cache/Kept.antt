-- ===== src/Life/Cache/Kept.antt =====
-- What a cache writer of mm_cache.c and mm_cache_simple.c holds, from its making to its end.
use pluto_project.Base.{
  ℕ, ◌≡◌, refl, subst, true, Option, none, some, List, [], ◌∷◌, ◌++◌, ◌==◌, Bool-cases, inl, inr,
}
use pluto_project.Driver.{cachemode_thread, cachemode_simple}
use pluto_project.Life.{World, pure, bound}
use pluto_project.Life.Holds.{Holds, Ok, Ok-bind, releases-Ok, acquire-Ok}
use pluto_project.Life.Cache.{
  CacheContext, CacheHandle, with_cache, with_context, with_writer, make_cache_simple,
  cache_handle_create, destroy_cache_simple, cache_handle_destroy,
}

-- The blocks of a context, and of a writer.
abbrev pub context_blocks : Option CacheContext → List (Option ℕ)
context_blocks none = []
context_blocks (some c) = c.mp_cache ∷ some c.self ∷ []

abbrev pub cache_blocks : Option CacheHandle → List (Option ℕ)
cache_blocks none = []
cache_blocks (some h) = context_blocks h.priv ++ (some h.self ∷ [])

-- A writer that was made: simple, and with a context.
abbrev pub IsWriter : Option CacheHandle → Type 0
IsWriter none = Unit
IsWriter (some h) = (h.mode ≡ cachemode_simple) × (c : CacheContext) × (h.priv ≡ some c)

module _ (ps : List (Option ℕ)) (rest : ℕ → ℕ) where
  abbrev pub Written : Option CacheHandle → World → Type 0
  Written r w = IsWriter r × Holds (cache_blocks r ++ ps) rest w

  with_cache-Written :
      (writer context : ℕ) (cache : Option ℕ) (w : World)
      → Holds (cache ∷ some context ∷ some writer ∷ ps) rest w
      → Ok Written (with_cache writer context cache w)
  with_cache-Written writer context (some cache) w h = ((refl, _, refl), h)
  with_cache-Written writer context none w h =
      releases-Ok Written (some context ∷ some writer ∷ []) ps rest (pure none) w h
        λ w' h'. (tt, h')

  with_context-Written :
      (writer : ℕ) (context : Option ℕ) (w : World)
      → Holds (context ∷ some writer ∷ ps) rest w
      → Ok Written (with_context writer context w)
  with_context-Written writer none w h =
      releases-Ok Written (some writer ∷ []) ps rest (pure none) w h λ w' h'. (tt, h')
  with_context-Written writer (some context) w h =
      acquire-Ok Written (some context ∷ some writer ∷ ps) rest _ w h
        (with_cache-Written writer context)

  with_writer-Written :
      (writer : Option ℕ) (w : World)
      → Holds (writer ∷ ps) rest w
      → Ok Written (with_writer writer w)
  with_writer-Written none w h = (tt, h)
  with_writer-Written (some writer) w h =
      acquire-Ok Written (some writer ∷ ps) rest _ w h (with_context-Written writer)

  pub cache_handle_create-Written :
      (mode size : ℕ) (w : World) → Holds ps rest w → Ok Written (cache_handle_create mode size w)
  unfolding cache_handle_create make_cache_simple
  cache_handle_create-Written mode size w h = elim (Bool-cases (mode == cachemode_thread)) [
    | inl thread ↦ rw thread (tt, h)
    | inr other ↦ elim (Bool-cases (mode == cachemode_simple)) [
      | inr unknown ↦ rw (other, unknown) (tt, h)
      | inl simple ↦ elim (Bool-cases (size == 0)) [
        | inl empty ↦ rw (other, simple, empty) (tt, h)
        | inr more ↦ rw (other, simple, more) (acquire-Ok Written ps rest _ w h with_writer-Written)
      ]
    ]
  ]

  pub cache_handle_destroy-Ok :
      (h : Option CacheHandle) (w : World)
      → Written h w
      → Ok (λ _ w'. Holds ps rest w') (cache_handle_destroy h w)
  unfolding cache_handle_destroy destroy_cache_simple
  cache_handle_destroy-Ok none w (made, keeps) = keeps
  cache_handle_destroy-Ok (some c) w ((simple, context, e), keeps) =
      rw (simple, e)
        (releases-Ok (λ _ w'. Holds ps rest w')
          (context.mp_cache ∷ some context.self ∷ some c.self ∷ []) ps rest (pure true) w
          (subst (λ l. Holds (context_blocks l ++ (some c.self ∷ []) ++ ps) rest w) e keeps)
          λ w' h'. h')

-- A cache writer that is destroyed after it was made, whichever allocation fails and whatever its mode
-- and size, leaves live what was live before it and nothing else, and gives back nothing that is not
-- live.
pub cache_handle_destroy-create :
    (mode size : ℕ) (rest : ℕ → ℕ) (w : World)
    → Holds [] rest w
    → Ok (λ _ w'. Holds [] rest w') (bound (cache_handle_create mode size w) cache_handle_destroy)
cache_handle_destroy-create mode size rest w h =
    Ok-bind (Written [] rest) _ (cache_handle_create mode size w) cache_handle_destroy
      (cache_handle_create-Written [] rest mode size w h) (cache_handle_destroy-Ok [] rest)
