-- ===== src/Cache/Writer.antt =====
-- The cache as a value of the muxers' interface: over a file on which no write fails, it puts
-- bytes at consecutive positions.
use pluto_project.Base.{ℕ, ◌+◌, ◌≡◌, ap, ◌∙◌, sym, some, List, [], ◌∷◌, arith, length}
use pluto_project.Stream.{
  Device, Whence, seek_set, Reliable, mm_seek_stream_file, mm_tell_stream_file,
}
use pluto_project.Writer.{FsCacheWriter, Positioned}
use pluto_project.Cache.{CacheSimple, cache_write, cache_flush, cache_seek, cache_tell}
use pluto_project.Cache.Valid.{IsValid, cache_write-IsValid, cache_flush-IsValid}
use pluto_project.Cache.Transparent.{IsClean, contents, cache_write-Takes, cache_flush-contents}

module _ (d : Device) (rel : Reliable d) where
  -- A cache in use: valid, and with no write error on record.
  abbrev pub Live : Type 0
  Live = (c : CacheSimple d.File) × IsValid c × IsClean c

  pub cache_write-IsClean :
      (buf : List ℕ) (c : CacheSimple d.File)
      → IsValid c
      → IsClean c
      → IsClean (cache_write d buf c).1
  unfolding cache_write
  cache_write-IsClean [] c v h = h
  cache_write-IsClean (b ∷ bs) c v h = (cache_write-Takes d rel (b ∷ bs) v h (omega arith)).0.clean

  -- The position that the next byte will have in the file.
  abbrev pub place : CacheSimple d.File → ℕ
  place c = rel.position (contents d c)

  place-write :
      (buf : List ℕ) (c : CacheSimple d.File)
      → IsValid c
      → IsClean c
      → place (cache_write d buf c).1 ≡ place c + length buf
  unfolding cache_write
  place-write [] c v h = omega arith
  place-write (b ∷ bs) c v h =
      ap rel.position (cache_write-Takes d rel (b ∷ bs) v h (omega arith)).0.taken
      ∙ rel.position-fwrite (b ∷ bs) (contents d c)

  pub flush_live :
      (c : CacheSimple d.File)
      → IsValid c
      → IsClean c
      → IsValid (cache_flush d c) × IsClean (cache_flush d c)
  flush_live c v h = (cache_flush-IsValid d v, λ e. h (sym (cache_flush-contents d rel c h).2 ∙ e))

  place-empty : (c : CacheSimple d.File) → c.valid_len ≡ 0 → place c ≡ rel.position c.stream.fp
  place-empty c e = ap rel.position (rw e (rel.fwrite-nil c.stream.fp))

  place-flush : (c : CacheSimple d.File) → IsClean c → place (cache_flush d c) ≡ place c
  place-flush c h =
      let (fp, empty, _, _, _) = cache_flush-contents d rel c h in
      place-empty (cache_flush d c) empty ∙ ap rel.position fp

  pub seek_live :
      (o : ℕ) (w : Whence) (c : CacheSimple d.File)
      → IsValid c
      → IsClean c
      → IsValid (cache_seek d o w c).1 × IsClean (cache_seek d o w c).1
  unfolding cache_seek mm_seek_stream_file
  seek_live o w c v h =
      let (v', h') = flush_live c v h in (record { sized = v'.sized; room = v'.room }, h')

  place-seek :
      (o : ℕ) (c : CacheSimple d.File) → IsClean c → place (cache_seek d o seek_set c).1 ≡ o
  unfolding cache_seek mm_seek_stream_file
  place-seek o c h =
      let (_, empty, _, _, _) = cache_flush-contents d rel c h in
      place-empty (cache_seek d o seek_set c).1 empty ∙ rel.position-fseeko o _

  tell-place : (c : CacheSimple d.File) → IsClean c → (cache_tell d c).0 ≡ some (place c)
  unfolding cache_tell mm_tell_stream_file
  tell-place c h =
      let (fp, _, _, _, _) = cache_flush-contents d rel c h in
      rel.ftello-position _ ∙ ap (λ f. some (rel.position f)) fp

  pub tell_live :
      (c : CacheSimple d.File)
      → IsValid c
      → IsClean c
      → IsValid (cache_tell d c).1 × IsClean (cache_tell d c).1
  unfolding cache_tell
  tell_live c v h = flush_live c v h

  -- `create_cache_simple` fills the struct with these functions.
  abbrev pub simple_writer : FsCacheWriter
  simple_writer = record {
    State = Live;
    cache_write = λ bs s. (
      (cache_write d bs s.0).0,
      ((cache_write d bs s.0).1, cache_write-IsValid d bs s.1, cache_write-IsClean bs s.0 s.1 s.2),
    );
    cache_seek = λ o w s.
        let (v, h) = seek_live o w s.0 s.1 s.2 in
        ((cache_seek d o w s.0).0, ((cache_seek d o w s.0).1, v, h));
    cache_tell = λ s.
        let (v, h) = tell_live s.0 s.1 s.2 in ((cache_tell d s.0).0, ((cache_tell d s.0).1, v, h));
    cache_flush = λ s. let (v, h) = flush_live s.0 s.1 s.2 in (cache_flush d s.0, v, h);
  }

  -- On a file on which no write fails, the functions of the cache are a positioned writer: bytes go
  -- to consecutive places, a seek from the start goes where it says, a flush moves nothing, and a
  -- position query answers the place of the next byte.
  pub simple_writer-Positioned : Positioned simple_writer
  simple_writer-Positioned = record {
    position = λ s. place s.0;
    position-write = λ bs s. place-write bs s.0 s.1 s.2;
    position-seek = λ o s. place-seek o s.0 s.2;
    position-flush = λ s. place-flush s.0 s.2;
    tell-position = λ s. tell-place s.0 s.2;
  }
