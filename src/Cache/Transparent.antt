-- ===== src/Cache/Transparent.antt =====
-- The cache is transparent: on a file that takes every byte, the file with what the cache still
-- holds behind it is what direct writes would have left.
pub use pluto_project.Base.Calls.{flatten}
use pluto_project.Base.{
  ℕ, ◌+◌, ◌-◌, ◌*◌, ◌/◌, ◌≤◌, ◌<◌, ◌≡◌, ◌≢◌, refl, false, ap, subst, ◌∙◌, sym, some, List, [], ◌∷◌,
  ◌++◌, arith, length, take, drop, length-take, take-append-drop, leb, ltb, take-append, ==_iff,
  ◌==◌, Bool-cases, inl, inr, eq_nil,
}
use pluto_project.Stream.{
  Device, Whence, Stream, Reliable, mm_write_stream_file, mm_seek_stream_file, mm_tell_stream_file,
  mm_truncate_stream_file,
}
use pluto_project.Cache.{
  CacheSimple, copy_at, write_out, fill, spill, keep_tail, store_rest, cache_write, cache_flush,
  cache_seek, cache_tell, cache_truncate, file_cache_write, count, eio,
}
use pluto_project.Cache.Valid.{IsValid, take-copy_at, cache_write-IsValid}

-- No write error of the card is on record.
abbrev pub IsClean : {F : Type 0} → CacheSimple F → Type 0
IsClean c = c.stream.write_err_no ≢ eio

module _ (d : Device) where
  -- The file as a flush would leave it.
  abbrev pub contents : CacheSimple d.File → d.File
  contents c = (d.fwrite (take c.valid_len c.cache) c.stream.fp).2

  -- From `c` to `c'` the bytes `buf` were taken, and nothing else changed to the eye.
  pub record Takes (buf : List ℕ) (c c' : CacheSimple d.File) : Type 0 where
    pub clean : IsClean c'
    pub same_size : c'.cache_size ≡ c.cache_size
    pub taken : contents c' ≡ (d.fwrite buf (contents c)).2

  -- `FsCacheSimpleWrite` called on one buffer after another.
  unfoldable pub write_all : List (List ℕ) → CacheSimple d.File → CacheSimple d.File
  write_all [] c = c
  write_all (b ∷ bufs) c = write_all bufs (cache_write d b c).1

module _ (d : Device) (rel : Reliable d) where
  open rel use {fwrite_all, fwrite-nil, fwrite-append}

  -- On such a file `file_cache_write` writes all, and resets the count of errors.
  pub file_cache_write-all :
      (buf : List ℕ) (s : Stream d.File)
      → s.write_err_no ≢ eio
      → file_cache_write d buf s
        ≡ (count (length buf), record s { fp = (d.fwrite buf s.fp).2; write_err_cnt = 0 })
  unfolding file_cache_write mm_write_stream_file
  file_cache_write-all buf s h = ground (arith, fwrite_all buf s.fp)

  fp-write_out :
      (buf : List ℕ) (c : CacheSimple d.File)
      → IsClean c
      → ((write_out d buf c).stream.fp ≡ (d.fwrite buf c.stream.fp).2)
        × ((write_out d buf c).stream.write_err_no ≡ c.stream.write_err_no)
  unfolding write_out
  fp-write_out buf c h = ground (arith, file_cache_write-all buf c.stream h)

  pub contents-empty : (c : CacheSimple d.File) → c.valid_len ≡ 0 → contents d c ≡ c.stream.fp
  contents-empty c h = rw h (fwrite-nil c.stream.fp)

  -- Bytes kept behind those that the cache holds.
  fwrite-copy_at :
      (buf : List ℕ) (c : CacheSimple d.File)
      → c.valid_len ≤ length c.cache
      → (d.fwrite (take (c.valid_len + length buf) (copy_at c.valid_len buf c.cache)) c.stream.fp).2
        ≡ (d.fwrite buf (contents d c)).2
  fwrite-copy_at buf c h =
      rw (take-copy_at c.valid_len buf c.cache h)
        (fwrite-append (take c.valid_len c.cache) buf c.stream.fp)

  keep_tail-Takes :
      (left : List ℕ) {c : CacheSimple d.File}
      → IsClean c
      → c.valid_len ≡ 0
      → Takes d left c (keep_tail d left c)
  unfolding keep_tail
  keep_tail-Takes left {c} h e = elim (Bool-cases (ltb 0 (length left))) [
    | inl more ↦ rw more (record {
      clean = h;
      same_size = refl;
      taken =
          ap (λ bs. (d.fwrite bs c.stream.fp).2) (take-append left (drop (0 + length left) c.cache))
          ∙ ap (λ f. (d.fwrite left f).2) (sym (contents-empty c e));
    })
    | inr none_left ↦
        rw (none_left, eq_nil left (ground arith))
          (record { clean = h; same_size = refl; taken = sym (fwrite-nil (contents d c)) })
  ]

  spill-Takes :
      (buf : List ℕ) {c : CacheSimple d.File}
      → IsValid c
      → IsClean c
      → c.valid_len + length buf ≡ c.cache_size
      → Takes d buf c (spill d buf c) × ((spill d buf c).valid_len ≡ 0)
  unfolding spill write_out
  spill-Takes buf {c} v h e =
      rw (← e, file_cache_write-all _ c.stream h)
        (
          record {
            clean = h;
            same_size = refl;
            taken = fwrite-nil _ ∙ fwrite-copy_at buf c (omega arith);
          },
          refl,
        )

  fill-Takes :
      (buf : List ℕ) {c : CacheSimple d.File}
      → IsValid c
      → IsClean c
      → c.valid_len + length buf ≤ c.cache_size
      → Takes d buf c (fill d buf c)
  unfolding fill write_out
  fill-Takes buf {c} v h e = elim (Bool-cases (c.valid_len + length buf == c.cache_size)) [
    | inl full ↦
        rw (full, ← (==_iff _ _).0 full, file_cache_write-all _ c.stream h)
          (record {
            clean = h;
            same_size = refl;
            taken = fwrite-nil _ ∙ fwrite-copy_at buf c (omega arith);
          })
    | inr room ↦
        rw room (record { clean = h; same_size = refl; taken = fwrite-copy_at buf c (omega arith) })
  ]

  write_out-Takes :
      (buf : List ℕ) {c : CacheSimple d.File}
      → IsClean c
      → c.valid_len ≡ 0
      → Takes d buf c (write_out d buf c) × ((write_out d buf c).valid_len ≡ 0)
  unfolding write_out
  write_out-Takes buf {c} h e = rw (file_cache_write-all buf c.stream h) (
    record {
      clean = h;
      same_size = refl;
      taken =
          ap (λ n. (d.fwrite (take n c.cache) (d.fwrite buf c.stream.fp).2).2) e
          ∙ fwrite-nil _
          ∙ ap (λ f. (d.fwrite buf f).2) (sym (contents-empty c e));
    },
    e,
  )

  -- Two runs of bytes taken one after the other.
  Takes-append :
      (xs ys : List ℕ) {c c' c'' : CacheSimple d.File}
      → Takes d xs c c'
      → Takes d ys c' c''
      → Takes d (xs ++ ys) c c''
  Takes-append xs ys {c} s t = record {
    clean = t.clean;
    same_size = t.same_size ∙ s.same_size;
    taken =
        t.taken ∙ ap (λ f. (d.fwrite ys f).2) s.taken ∙ sym (fwrite-append xs ys (contents d c));
  }

  halves-Takes :
      (n : ℕ) (buf : List ℕ) {c c' c'' : CacheSimple d.File}
      → Takes d (take n buf) c c'
      → Takes d (drop n buf) c' c''
      → Takes d buf c c''
  halves-Takes n buf {c} {c''} s t =
      subst (λ bs. Takes d bs c c'') (take-append-drop n buf)
        (Takes-append (take n buf) (drop n buf) s t)

  store_rest-Takes :
      (left : List ℕ) {c : CacheSimple d.File}
      → IsClean c
      → c.valid_len ≡ 0
      → Takes d left c (store_rest d left c)
  unfolding store_rest
  store_rest-Takes left {c} h e = elim (Bool-cases (leb c.cache_size (length left))) [
    | inl big ↦
        let size2 = length left / c.cache_size * c.cache_size in
        let (s, empty) = write_out-Takes (take size2 left) h e in
        rw big (halves-Takes size2 left s (keep_tail-Takes (drop size2 left) s.clean empty))
    | inr small ↦ rw small (keep_tail-Takes left h e)
  ]

  pub cache_write-Takes :
      (buf : List ℕ) {c : CacheSimple d.File}
      → IsValid c
      → IsClean c
      → 0 < length buf
      → Takes d buf c (cache_write d buf c).1 × ((cache_write d buf c).0 ≡ some (length buf))
  unfolding cache_write
  cache_write-Takes buf {c} v h pos =
      let some_bytes : (length buf == 0) ≡ false = ground arith in
      let not_full : leb c.cache_size c.valid_len ≡ false = ground arith in
      rw (some_bytes, not_full)
        (elim (Bool-cases (ltb 0 c.valid_len)) [
          | inr empty ↦ rw empty (store_rest-Takes buf h (ground arith), refl)
          | inl held ↦ rw held (elim (Bool-cases (leb (c.valid_len + length buf) c.cache_size)) [
            | inl fits ↦ rw fits (fill-Takes buf v h (ground arith), refl)
            | inr over ↦ rw over (spilled over, refl)
          ])
        ])
    where
      size0 : ℕ
      size0 = c.cache_size - c.valid_len

      spilled :
          leb (c.valid_len + length buf) c.cache_size ≡ false
          → Takes d buf c (store_rest d (drop size0 buf) (spill d (take size0 buf) c))
      spilled over =
          let fits : c.valid_len + length (take size0 buf) ≡ c.cache_size =
            ground (arith, length-take size0 buf) in
          let (s, empty) = spill-Takes (take size0 buf) v h fits in
          halves-Takes size0 buf s (store_rest-Takes (drop size0 buf) s.clean empty)

  pub cache_flush-contents :
      (c : CacheSimple d.File)
      → IsClean c
      → ((cache_flush d c).stream.fp ≡ contents d c)
        × ((cache_flush d c).valid_len ≡ 0)
        × ((cache_flush d c).stream.write_err_no ≡ c.stream.write_err_no)
        × ((cache_flush d c).cache_size ≡ c.cache_size)
        × ((cache_flush d c).cache ≡ c.cache)
  unfolding cache_flush write_out
  cache_flush-contents c h = elim (Bool-cases (ltb 0 c.valid_len)) [
    | inl held ↦
        rw (held, file_cache_write-all (take c.valid_len c.cache) c.stream h)
          (refl, refl, refl, refl, refl)
    | inr empty ↦
        let e : c.valid_len ≡ 0 = ground arith in
        rw empty (sym (contents-empty c e), e, refl, refl, refl)
  ]

  -- On a file that takes every byte, any run of writes and a flush leave the file as one direct
  -- write of all those bytes, behind what the cache held, would have left it; the cache stays valid
  -- and no error is recorded.
  pub write_all-flush :
      (bufs : List (List ℕ)) (c : CacheSimple d.File)
      → IsValid c
      → IsClean c
      → ((cache_flush d (write_all d bufs c)).stream.fp
          ≡ (d.fwrite (flatten bufs) (contents d c)).2)
        × IsValid (write_all d bufs c)
        × IsClean (write_all d bufs c)
  unfolding write_all cache_write
  write_all-flush [] c v h = ((cache_flush-contents c h).0 ∙ sym (fwrite-nil _), v, h)
  write_all-flush ([] ∷ bufs) c v h = write_all-flush bufs c v h
  write_all-flush ((x ∷ xs) ∷ bufs) c v h =
      let b = x ∷ xs in
      let t = (cache_write-Takes b v h (omega arith)).0 in
      let (fp, v', h') =
        write_all-flush bufs (cache_write d b c).1 (cache_write-IsValid d b v) t.clean in
      (
        fp
            ∙ ap (λ f. (d.fwrite (flatten bufs) f).2) t.taken
            ∙ sym (fwrite-append b (flatten bufs) (contents d c)),
        v',
        h',
      )

  -- A seek, a position query and a truncation through the cache do to the file, and answer, what
  -- the stream's own would after the cached bytes had been written; the cache is then empty.
  pub file_ops-flush :
      (o n : ℕ) (w : Whence) (c : CacheSimple d.File)
      → IsClean c
      → ((cache_seek d o w c).0 ≡ (d.fseeko o w (contents d c)).0)
        × ((cache_seek d o w c).1.stream.fp ≡ (d.fseeko o w (contents d c)).1)
        × ((cache_seek d o w c).1.valid_len ≡ 0)
        × ((cache_tell d c).0 ≡ d.ftello (contents d c))
        × ((cache_tell d c).1.stream.fp ≡ contents d c)
        × ((cache_truncate d n c).0 ≡ (d.ftruncate n (contents d c)).0)
        × ((cache_truncate d n c).1.stream.fp ≡ (d.ftruncate n (contents d c)).1)
  unfolding cache_seek cache_tell cache_truncate mm_seek_stream_file mm_tell_stream_file
      mm_truncate_stream_file
  file_ops-flush o n w c h = ground (arith, cache_flush-contents c h)
