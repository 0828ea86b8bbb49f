-- ===== src/Cache/Valid.antt =====
-- The representation invariant of the cache: the buffer has its size, and between two operations
-- it is never full.
use pluto_project.Base.{
  ℕ, ◌+◌, ◌-◌, ◌*◌, ◌/◌, ◌≤◌, ◌<◌, ◌≡◌, List, ◌++◌, arith, length, take, drop, length-append,
  length-take, length-drop, take-take_append, leb, Bool-cases, inl, inr,
}
use pluto_project.Stream.{Device}
use pluto_project.Cache.{
  CacheSimple, copy_at, write_out, fill, spill, keep_tail, store_rest, cache_write, cache_flush,
}

pub record IsValid {F : Type 0} (c : CacheSimple F) : Type 0 where
  pub sized : length c.cache ≡ c.cache_size
  pub room : c.valid_len < c.cache_size

pub length-copy_at :
    (i : ℕ) (bs buffer : List ℕ)
    → i + length bs ≤ length buffer
    → length (copy_at i bs buffer) ≡ length buffer
length-copy_at i bs buffer h = omega (
  arith,
  length-append (take i buffer) (bs ++ drop (i + length bs) buffer),
  length-append bs (drop (i + length bs) buffer),
  length-take i buffer,
  length-drop (i + length bs) buffer,
)

pub take-copy_at :
    (i : ℕ) (bs buffer : List ℕ)
    → i ≤ length buffer
    → take (i + length bs) (copy_at i bs buffer) ≡ take i buffer ++ bs
take-copy_at i bs buffer h = take-take_append i buffer bs (drop (i + length bs) buffer) h

module _ (d : Device) where
  pub fill-IsValid :
      (buf : List ℕ) {c : CacheSimple d.File}
      → IsValid c
      → c.valid_len + length buf ≤ c.cache_size
      → IsValid (fill d buf c)
  unfolding fill write_out
  fill-IsValid buf {c} v h = ground (arith, length-copy_at c.valid_len buf c.cache)

  pub spill-IsValid :
      (buf : List ℕ) {c : CacheSimple d.File}
      → IsValid c
      → c.valid_len + length buf ≡ c.cache_size
      → IsValid (spill d buf c) × ((spill d buf c).cache_size ≡ c.cache_size)
  unfolding spill write_out
  spill-IsValid buf {c} v h = ground (arith, length-copy_at c.valid_len buf c.cache)

  pub keep_tail-IsValid :
      (left : List ℕ) {c : CacheSimple d.File}
      → IsValid c
      → length left < c.cache_size
      → IsValid (keep_tail d left c)
  unfolding keep_tail
  keep_tail-IsValid left {c} v h = ground (arith, length-copy_at 0 left c.cache)

  pub tail_fits : (left : List ℕ) (n : ℕ) → 0 < n → length (drop (length left / n * n) left) < n
  tail_fits left n h = grind (arith, length-drop (length left / n * n) left)

  pub write_out-IsValid :
      (buf : List ℕ) {c : CacheSimple d.File} → IsValid c → IsValid (write_out d buf c)
  unfolding write_out
  write_out-IsValid buf v = record { sized = v.sized; room = v.room }

  pub store_rest-IsValid :
      (left : List ℕ) {c : CacheSimple d.File} → IsValid c → IsValid (store_rest d left c)
  unfolding store_rest write_out
  store_rest-IsValid left {c} v = elim (Bool-cases (leb c.cache_size (length left))) [
    | inl big ↦
        rw big
          (keep_tail-IsValid _ (write_out-IsValid _ v) (tail_fits left c.cache_size (omega arith)))
    | inr small ↦ rw small (keep_tail-IsValid left v (ground arith))
  ]

  -- A write of any bytes keeps a valid cache valid, whatever the file does: the buffer has its size
  -- and is not full.
  pub cache_write-IsValid :
      (buf : List ℕ) {c : CacheSimple d.File} → IsValid c → IsValid (cache_write d buf c).1
  unfolding cache_write
  cache_write-IsValid buf {c} v = ground (
    arith,
    fill-IsValid buf v,
    length-take (c.cache_size - c.valid_len) buf,
    spill-IsValid (take (c.cache_size - c.valid_len) buf) v,
    store_rest-IsValid (drop (c.cache_size - c.valid_len) buf)
        {c = spill d (take (c.cache_size - c.valid_len) buf) c},
    store_rest-IsValid buf v,
  )

  pub cache_flush-IsValid : {c : CacheSimple d.File} → IsValid c → IsValid (cache_flush d c)
  unfolding cache_flush write_out
  cache_flush-IsValid v = ground arith
