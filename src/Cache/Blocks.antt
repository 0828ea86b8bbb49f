-- ===== src/Cache/Blocks.antt =====
-- Between flushes the cache writes the file in whole blocks of its size.
use pluto_project.Base.{
  ℕ, ◌+◌, ◌-◌, ◌*◌, ◌/◌, ◌%◌, ◌≤◌, ◌≡◌, refl, false, List, [], ◌∷◌, arith, length, take,
  length-take, leb, ltb, ◌==◌, Bool-cases, inl, inr,
}
use pluto_project.Stream.{Device, Stream}
use pluto_project.Cache.{
  CacheSimple, copy_at, file_cache_write, cache_write, write_out, fill, spill, keep_tail,
  store_rest,
}
use pluto_project.Cache.Valid.{IsValid, length-copy_at}
use pluto_project.Cache.Errors.{file_writes}

abbrev AllBlocks : ℕ → List (List ℕ) → Type 0
AllBlocks size [] = Unit
AllBlocks size (b ∷ bs) = (length b % size ≡ 0) × AllBlocks size bs

module _ (d : Device) where
  -- From stream `s` to stream `t` only whole blocks were written.
  abbrev pub BlocksTo : ℕ → Stream d.File → Stream d.File → Type 0
  BlocksTo size s t =
      (blocks : List (List ℕ)) × AllBlocks size blocks × (t ≡ file_writes d blocks s)

  none_written : (size : ℕ) (s : Stream d.File) → BlocksTo size s s
  unfolding file_writes
  none_written size s = ([], tt, refl)

  one_written :
      (size : ℕ) (b : List ℕ) (s : Stream d.File)
      → length b % size ≡ 0
      → BlocksTo size s (file_cache_write d b s).1
  unfolding file_writes
  one_written size b s h = (b ∷ [], (h, tt), refl)

  file_writes-cons :
      (size : ℕ) (b : List ℕ) (s t : Stream d.File)
      → length b % size ≡ 0
      → BlocksTo size (file_cache_write d b s).1 t
      → BlocksTo size s t
  unfolding file_writes
  file_writes-cons size b s t h (bs, all, e) = (b ∷ bs, (h, all), e)

  whole : (left : List ℕ) (n : ℕ) → length (take (length left / n * n) left) % n ≡ 0
  whole left n = grind (arith, length-take (length left / n * n) left)

  stream-keep_tail :
      (left : List ℕ) (c : CacheSimple d.File) → (keep_tail d left c).stream ≡ c.stream
  unfolding keep_tail
  stream-keep_tail left c = ground arith

  store_rest-BlocksTo :
      (left : List ℕ) (c : CacheSimple d.File)
      → BlocksTo c.cache_size c.stream (store_rest d left c).stream
  unfolding store_rest write_out
  store_rest-BlocksTo left c = elim (Bool-cases (leb c.cache_size (length left))) [
    | inl big ↦
        rw (big, stream-keep_tail) (one_written c.cache_size _ c.stream (whole left c.cache_size))
    | inr small ↦ rw (small, stream-keep_tail) (none_written c.cache_size c.stream)
  ]

  filled :
      (buf : List ℕ) {c : CacheSimple d.File}
      → IsValid c
      → c.valid_len + length buf ≤ c.cache_size
      → length (take c.cache_size (copy_at c.valid_len buf c.cache)) % c.cache_size ≡ 0
  filled buf {c} v h = grind (
    arith,
    length-take c.cache_size (copy_at c.valid_len buf c.cache),
    length-copy_at c.valid_len buf c.cache,
  )

  fill-BlocksTo :
      (buf : List ℕ) {c : CacheSimple d.File}
      → IsValid c
      → c.valid_len + length buf ≤ c.cache_size
      → BlocksTo c.cache_size c.stream (fill d buf c).stream
  unfolding fill write_out
  fill-BlocksTo buf {c} v h = elim (Bool-cases (c.valid_len + length buf == c.cache_size)) [
    | inl full ↦ rw full (one_written c.cache_size _ c.stream (filled buf v h))
    | inr room ↦ rw room (none_written c.cache_size c.stream)
  ]

  spill_then_store :
      (buf rest : List ℕ) {c : CacheSimple d.File}
      → IsValid c
      → c.valid_len + length buf ≤ c.cache_size
      → BlocksTo c.cache_size c.stream (store_rest d rest (spill d buf c)).stream
  unfolding spill write_out
  spill_then_store buf rest {c} v h =
      file_writes-cons c.cache_size _ c.stream _ (filled buf v h)
        (store_rest-BlocksTo rest (spill d buf c))

  written :
      (buf : List ℕ) (c : CacheSimple d.File)
      → IsValid c
      → (length buf == 0) ≡ false
      → BlocksTo c.cache_size c.stream (cache_write d buf c).1.stream
  unfolding cache_write
  written buf c v some_bytes =
      let not_full : leb c.cache_size c.valid_len ≡ false = ground arith in
      rw (some_bytes, not_full)
        (elim (Bool-cases (ltb 0 c.valid_len)) [
          | inr empty ↦ rw empty (store_rest-BlocksTo buf c)
          | inl held ↦ rw held (elim (Bool-cases (leb (c.valid_len + length buf) c.cache_size)) [
            | inl fits ↦ rw fits (fill-BlocksTo buf v (ground arith))
            | inr over ↦ rw over (
                spill_then_store (take (c.cache_size - c.valid_len) buf) _ v
                  (omega (arith, length-take (c.cache_size - c.valid_len) buf)))
          ])
        ])

  -- Whatever a write is given, and whatever the file answers, a valid cache passes on only buffers
  -- whose length is a multiple of the cache's size.
  pub cache_write-BlocksTo :
      (buf : List ℕ) (c : CacheSimple d.File)
      → IsValid c
      → BlocksTo c.cache_size c.stream (cache_write d buf c).1.stream
  unfolding cache_write
  cache_write-BlocksTo buf c v = elim (Bool-cases (length buf == 0)) [
    | inl nothing ↦ rw nothing (none_written c.cache_size c.stream)
    | inr some_bytes ↦ written buf c v some_bytes
  ]
