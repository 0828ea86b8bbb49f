-- ===== src/Mp4/Layout.antt =====
-- How mm_media/muxer/mp4_muxer/Mp4Muxer.c lays the file out: the room at its start, and `moov` in it.
use pluto_project.Base.{
  ℕ, zero, suc, ltb, Bool-cases, inl, inr, ◌+◌, ◌≤◌, ◌<◌, ◌≡◌, refl, true, List, [], ◌∷◌, arith,
  leb, le→leb,
}
use pluto_project.Stream.{seek_set}
use pluto_project.Mp4.{MovContext, header_reserve_size}
use pluto_project.Mp4.Put.{Calls, size_of, length-be32, codes, word_sizes}
use pluto_project.Mp4.Movie.{
  write, seek, FormatContext, mov_write_header, mov_write_ftyp_tag, add_trak_sizes,
  mov_write_free_tag, mov_write_moov_tag, mov_get_moov_tag_size,
}
use pluto_project.Mp4.Track.{mov_get_trak_tag_size, mov_get_mdia_tag_size, mov_get_hdlr_tag_size}
use pluto_project.Mp4.Size.{IsBox, size-IsBox, HasTables, HasShortTitle, moov-IsBox}

size-ftyp : size_of mov_write_ftyp_tag ≡ 28
unfolding mov_write_ftyp_tag
size-ftyp = omega word_sizes

-- The counting of the sizes leaves the place alone.
free_pos-sizes :
    (date : List ℕ) (n i size : ℕ) (m : MovContext)
    → (add_trak_sizes date n i size m).1.free_pos ≡ m.free_pos
unfolding add_trak_sizes mov_get_trak_tag_size mov_get_mdia_tag_size mov_get_hdlr_tag_size
free_pos-sizes date zero i size m = refl
free_pos-sizes date (suc n) i size m = elim (Bool-cases (ltb 0 (m.tracks i).stsz_size)) [
  | inl used ↦ rw (used, add_trak_sizes) (free_pos-sizes date n (i + 1) _ _)
  | inr empty ↦ rw (empty, add_trak_sizes) (free_pos-sizes date n (i + 1) _ _)
]

free_pos-moov :
    (date : List ℕ) (m : MovContext) → (mov_get_moov_tag_size date m).1.free_pos ≡ m.free_pos
unfolding mov_get_moov_tag_size
free_pos-moov date m = free_pos-sizes date m.nb_streams 0 _ m

module _ (date : List ℕ) (m : MovContext) (two : m.nb_streams ≤ 2)
    (has : (i : ℕ) → i < m.nb_streams → 0 < (m.tracks i).stsz_size → HasTables (m.tracks i))
    (short : HasShortTitle date m) where
  -- With at most two tracks, writable where they have samples, and a short title, a movie that has the
  -- place that `mov_write_header` set and fits the reserved room is written there: a seek to
  -- that place, which is the end of the `ftyp` box, the `moov` box of the counted size, and the head of
  -- a `free` box that ends where the room does.
  pub moov_fits :
      (s : FormatContext)
      → m.free_pos ≡ (mov_write_header s).1.free_pos
      → (mov_get_moov_tag_size date m).0 + 36 ≤ header_reserve_size
      → (moov : Calls) × (free : ℕ) × ((mov_write_moov_tag date m).1
          ≡ seek m.free_pos seek_set ∷ write moov ∷ write (mov_write_free_tag free) ∷ [])
        × (m.free_pos ≡ size_of mov_write_ftyp_tag)
        × IsBox (mov_write_moov_tag date m).0 (codes "moov") moov
        × (m.free_pos + size_of moov + free ≡ header_reserve_size)
        × (size_of (mov_write_free_tag free) ≤ free)
  unfolding mov_write_moov_tag mov_write_free_tag mov_write_header
  moov_fits s place fits =
      let box = moov-IsBox date m two has short in
      let size = size-IsBox _ (codes "moov") _ refl box in
      let n = (mov_get_moov_tag_size date m).0 in
      let h : leb (n + 28 + 8) header_reserve_size ≡ true = le→leb _ _ (omega arith) in
      let kept = free_pos-moov date m in
      let at : m.free_pos ≡ 28 = place in
      rw (h, mov_write_moov_tag, kept)
        (
          _,
          _,
          refl,
          omega (arith, at, size-ftyp),
          box,
          omega (arith, at, size),
          omega (arith, length-be32),
        )
