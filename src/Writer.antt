-- ===== src/Writer.antt =====
-- `FsCacheWriter` of mm_media/cache/mm_cache.h: the interface through which both muxers write, a
-- struct of function pointers. The muxers are modelled over any value of it.
use pluto_project.Base.{ℕ, ◌+◌, ◌≡◌, Bool, Option, some, List, length}
use pluto_project.Stream.{Whence, seek_set}

pub record FsCacheWriter : Type 1 where
  pub State : Type 0
  pub cache_write : List ℕ → State → Option ℕ × State
  pub cache_seek : ℕ → Whence → State → Bool × State
  pub cache_tell : State → Option ℕ × State
  pub cache_flush : State → State

-- Bytes go to consecutive places of one file, and a seek from the start goes where it says.
pub record Positioned (pb : FsCacheWriter) : Type 0 where
  pub position : pb.State → ℕ
  pub position-write :
      (bs : List ℕ) (s : pb.State) → position (pb.cache_write bs s).1 ≡ position s + length bs
  pub position-seek : (o : ℕ) (s : pb.State) → position (pb.cache_seek o seek_set s).1 ≡ o
  pub position-flush : (s : pb.State) → position (pb.cache_flush s) ≡ position s
  pub tell-position : (s : pb.State) → (pb.cache_tell s).0 ≡ some (position s)
