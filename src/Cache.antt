-- ===== src/Cache.antt =====
-- mm_media/cache: `file_cache_write` of mm_cache.c and the write-back cache of mm_cache_simple.c.
pub mod Errors
pub mod Valid
pub mod Transparent
pub mod Blocks
pub mod Writer
mod Tests
use pluto_project.Base.{
  ℕ, ◌+◌, ◌-◌, ◌*◌, ◌/◌, Bool, true, false, Option, none, some, List, [], ◌++◌, ltb, leb, ◌==◌, not,
  ◌&&◌, if◌then◌else◌, length, take, drop, replicate,
}
use pluto_project.Stream.{
  Device, Whence, Stream, mm_write_stream_file, mm_seek_stream_file, mm_tell_stream_file,
  mm_truncate_stream_file,
}

-- EIO of errno.h.
abbrev pub eio : ℕ
eio = 5

-- The result of `file_cache_write`: a count, or -EIO.
pub data Written : Type 0 where
  count : ℕ → Written
  stopped : Written

-- `CacheSimpleContext`: `cache` is the buffer `mpCache` of `cache_size` bytes.
pub record CacheSimple (F : Type 0) : Type 0 where
  pub stream : Stream F
  pub cache : List ℕ
  pub cache_size : ℕ
  pub valid_len : ℕ

-- `memcpy(buffer + at, bytes, size of bytes)`.
abbrev pub copy_at : ℕ → List ℕ → List ℕ → List ℕ
copy_at i bytes buffer = take i buffer ++ (bytes ++ drop (i + length bytes) buffer)

module _ (d : Device) where
  -- What follows a short write: the error is kept, and from the twelfth in a row on the owner is
  -- told.
  unfoldable pub note_error : ℕ → Stream d.File → Stream d.File
  note_error errno s = record s {
    write_err_no = errno;
    write_err_cnt = s.write_err_cnt + 1;
    notified = if ltb 10 s.write_err_cnt && s.has_callback then s.notified + 1 else s.notified;
  }

  unfoldable pub file_cache_write : List ℕ → Stream d.File → Written × Stream d.File
  file_cache_write buf s =
      if s.write_err_no == eio
      then (stopped, s)
      else let (n, errno, s') = mm_write_stream_file d buf s in
        if n == length buf
        then (count n, record s' { write_err_cnt = 0 })
        else (count n, note_error errno s')

  -- `file_cache_write` on the first `n` bytes of the cache, its result ignored as the callers do.
  unfoldable pub write_out : List ℕ → CacheSimple d.File → CacheSimple d.File
  write_out buf c = record c { stream = (file_cache_write buf c.stream).1 }

  unfoldable pub fill : List ℕ → CacheSimple d.File → CacheSimple d.File
  fill buf c =
      let c' = record c {
        cache = copy_at c.valid_len buf c.cache;
        valid_len = c.valid_len + length buf;
      } in
      if c'.valid_len == c'.cache_size
      then record (write_out (take c'.cache_size c'.cache) c') { valid_len = 0 }
      else c'

  -- The cache is filled up with the first bytes and written out.
  unfoldable pub spill : List ℕ → CacheSimple d.File → CacheSimple d.File
  spill buf c =
      let c' = record c { cache = copy_at c.valid_len buf c.cache } in
      record (write_out (take c'.cache_size c'.cache) c') { valid_len = 0 }

  -- `if (left_size > 0)`: the tail goes to the start of the cache.
  unfoldable pub keep_tail : List ℕ → CacheSimple d.File → CacheSimple d.File
  keep_tail left c =
      if ltb 0 (length left)
      then record c { cache = copy_at 0 left c.cache; valid_len = length left }
      else c

  -- Whole blocks of the rest pass by the cache, and the tail stays in it.
  unfoldable pub store_rest : List ℕ → CacheSimple d.File → CacheSimple d.File
  store_rest left c =
      if leb c.cache_size (length left)
      then (let size2 = length left / c.cache_size * c.cache_size in
          keep_tail (drop size2 left) (write_out (take size2 left) c))
      else keep_tail left c

  -- `FsCacheSimpleWrite`; `none` is its -1.
  unfoldable pub cache_write : List ℕ → CacheSimple d.File → Option ℕ × CacheSimple d.File
  cache_write buf c =
      let size = length buf in
      if size == 0
      then (none, c)
      else if leb c.cache_size c.valid_len
      then (none, c)
      else if ltb 0 c.valid_len
      then (if leb (c.valid_len + size) c.cache_size
          then (some size, fill buf c)
          else (let size0 = c.cache_size - c.valid_len in
              (some size, store_rest (drop size0 buf) (spill (take size0 buf) c))))
      else (some size, store_rest buf c)

  -- `FsCacheSimpleFlush`, which always returns 0.
  unfoldable pub cache_flush : CacheSimple d.File → CacheSimple d.File
  cache_flush c =
      if ltb 0 c.valid_len
      then record (write_out (take c.valid_len c.cache) c) { valid_len = 0 }
      else c

  unfoldable pub cache_seek : ℕ → Whence → CacheSimple d.File → Bool × CacheSimple d.File
  cache_seek o w c =
      let c' = cache_flush c in
      let (done, s) = mm_seek_stream_file d o w c'.stream in (done, record c' { stream = s })

  unfoldable pub cache_tell : CacheSimple d.File → Option ℕ × CacheSimple d.File
  cache_tell c = let c' = cache_flush c in (mm_tell_stream_file d c'.stream, c')

  unfoldable pub cache_truncate : ℕ → CacheSimple d.File → Bool × CacheSimple d.File
  cache_truncate n c =
      let c' = cache_flush c in
      let (done, s) = mm_truncate_stream_file d n c'.stream in (done, record c' { stream = s })

  -- `create_cache_simple`: `allocated` says that each of its three allocations succeeded, and
  -- `memory` is what the cache's memory holds before it is written.
  unfoldable pub create_cache_simple :
      Bool → Bool → Bool → (ℕ → List ℕ) → Stream d.File → ℕ → Option (CacheSimple d.File)
  create_cache_simple writer_ok context_ok cache_ok memory s cache_size =
      if leb cache_size 0
      then none
      else if not writer_ok
      then none
      else if not context_ok
      then none
      else if not cache_ok
      then none
      else some
          (record { stream = s; cache = memory cache_size; cache_size = cache_size; valid_len = 0 })
