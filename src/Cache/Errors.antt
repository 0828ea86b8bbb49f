-- ===== src/Cache/Errors.antt =====
-- What `file_cache_write` and the cache do on a file that fails.
use pluto_project.Base.{
  ℕ, ◌+◌, ◌-◌, ◌<◌, ◌≡◌, ◌≢◌, refl, false, ≢→==, ◌==◌, true, some, List, [], ◌∷◌, arith, length,
}
use pluto_project.Stream.{Device, Stream, mm_write_stream_file}
use pluto_project.Cache.{
  count, stopped, CacheSimple, eio, file_cache_write, note_error, cache_write,
}
use pluto_project.Cache.Valid.{IsValid}

module _ (d : Device) where
  -- `file_cache_write` on each buffer in turn.
  unfoldable pub file_writes : List (List ℕ) → Stream d.File → Stream d.File
  file_writes [] s = s
  file_writes (b ∷ bs) s = file_writes bs (file_cache_write d b s).1

  -- Every write of the list falls short, without an I/O error.
  abbrev pub AllShort : List (List ℕ) → d.File → Type 0
  AllShort [] f = Unit
  AllShort (b ∷ bs) f =
      ((d.fwrite b f).0 ≢ length b) × ((d.fwrite b f).1 ≢ eio) × AllShort bs (d.fwrite b f).2

  stopped_writes :
      (bs : List (List ℕ)) (buf : List ℕ) (s : Stream d.File)
      → s.write_err_no ≡ eio
      → (file_writes bs s ≡ s) × (file_cache_write d buf (file_writes bs s) ≡ (stopped, s))
  unfolding file_writes file_cache_write
  stopped_writes [] buf s h = ground arith
  stopped_writes (b ∷ bs) buf s h = ground (arith, stopped_writes bs buf s h)

  -- A write that falls short with an I/O error, on a stream without one so far, answers its short
  -- count and is counted; from then on nothing is written and the owner is not told: each later call
  -- leaves the stream as it is and returns -EIO.
  pub eio_stops :
      (first : List ℕ) (bs : List (List ℕ)) (buf : List ℕ) (s : Stream d.File)
      → s.write_err_no ≢ eio
      → (d.fwrite first s.fp).0 ≢ length first
      → (d.fwrite first s.fp).1 ≡ eio
      → let (n, t) = file_cache_write d first s in
        (n ≡ count (d.fwrite first s.fp).0)
        × (t.write_err_cnt ≡ s.write_err_cnt + 1)
        × (file_writes bs t ≡ t)
        × (file_cache_write d buf (file_writes bs t) ≡ (stopped, t))
  unfolding file_cache_write note_error mm_write_stream_file
  eio_stops first bs buf s clean short failed =
      let t = (file_cache_write d first s).1 in
      let ok : (s.write_err_no == eio) ≡ false = ≢→== _ _ clean in
      let less : ((d.fwrite first s.fp).0 == length first) ≡ false = ≢→== _ _ short in
      let noted : t.write_err_no ≡ eio = rw (file_cache_write, ok, less) failed in
      let (same, stops) = stopped_writes bs buf t noted in
      (rw (ok, less) refl, rw (ok, less) refl, same, stops)

  -- A run of short writes without an I/O error counts them all, and calls the owner's callback
  -- once for each after the eleventh in a row.
  pub short_writes-notify :
      (bs : List (List ℕ)) (s : Stream d.File)
      → s.write_err_no ≢ eio
      → s.has_callback ≡ true
      → AllShort bs s.fp
      → ((file_writes bs s).write_err_cnt ≡ s.write_err_cnt + length bs)
        × ((file_writes bs s).notified
            ≡ s.notified + ((s.write_err_cnt + length bs - 11) - (s.write_err_cnt - 11)))
  unfolding file_writes file_cache_write note_error mm_write_stream_file
  short_writes-notify [] s h cb all = ground arith
  short_writes-notify (b ∷ bs) s h cb all =
      ground (arith, short_writes-notify bs (file_cache_write d b s).1)

  -- The result of a cached write says nothing of the file: on any file, failing or not, a valid
  -- cache answers the whole size of a non-empty buffer.
  pub cache_write-size :
      (buf : List ℕ) (c : CacheSimple d.File)
      → IsValid c
      → 0 < length buf
      → (cache_write d buf c).0 ≡ some (length buf)
  unfolding cache_write
  cache_write-size buf c v pos = ground arith
