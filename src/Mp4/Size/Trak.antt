-- ===== src/Mp4/Size/Trak.antt =====
-- The boxes of a track whose sizes may fill in the title: `hdlr`, `mdia` and `trak`.
use pluto_project.Base.{
  ℕ, ◌+◌, ◌*◌, ◌^◌, ◌≤◌, ◌<◌, ◌≡◌, refl, ap, ◌∙◌, List, [], ◌∷◌, arith, length, inl, inr, u32,
}
use pluto_project.Mp4.{MovTrack, MovContext}
use pluto_project.Mp4.Put.{size_of, size_of-append, codes, word_sizes}
use pluto_project.Mp4.Track.{
  mov_get_minf_tag_size, mov_write_mdhd_tag, mov_write_tkhd_tag, title_of, default_title,
  mov_get_hdlr_tag_size, mov_write_hdlr_tag, mov_get_mdia_tag_size, mov_write_mdia_tag,
  mov_get_trak_tag_size, mov_write_trak_tag,
}
use pluto_project.Mp4.Size.Box.{IsBox, Kept, size-IsBox}
use pluto_project.Mp4.Size.Track.{HasTables, minf-IsBox, minf_size}

size-mdhd : (t : MovTrack) → size_of (mov_write_mdhd_tag t) ≡ 32
unfolding mov_write_mdhd_tag
size-mdhd t = omega word_sizes

size-tkhd : (t : MovTrack) → size_of (mov_write_tkhd_tag t) ≡ 92
unfolding mov_write_tkhd_tag
size-tkhd t = omega word_sizes

module _ (date : List ℕ) where
  -- A title that was filled in stays as it is.
  pub title_of_twice : (s : List ℕ) → title_of date (title_of date s) ≡ title_of date s
  unfolding title_of default_title
  title_of_twice [] = refl
  title_of_twice (c ∷ s) = refl

  -- What a writer does that may fill in the title.
  pub record Titled (m m' : MovContext) : Type 0 where
    pub tracks : m'.tracks ≡ m.tracks
    pub nb_streams : m'.nb_streams ≡ m.nb_streams
    pub title : m'.title_info ≡ title_of date m.title_info

  pub Titled-trans : (a b c : MovContext) → Titled a b → Titled b c → Titled a c
  Titled-trans a b c p q = record {
    tracks = q.tracks ∙ p.tracks;
    nb_streams = q.nb_streams ∙ p.nb_streams;
    title = q.title ∙ (ap (title_of date) p.title ∙ title_of_twice a.title_info);
  }

  Titled-Kept : (a b c : MovContext) → Titled a b → Kept b c → Titled a c
  Titled-Kept a b c p q = record {
    tracks = q.tracks ∙ p.tracks;
    nb_streams = q.nb_streams ∙ p.nb_streams;
    title = q.title ∙ p.title;
  }

  pub Titled-title_of :
      (a b : MovContext) → Titled a b → title_of date b.title_info ≡ title_of date a.title_info
  Titled-title_of a b p = ap (title_of date) p.title ∙ title_of_twice a.title_info

  abbrev pub HasShortTitle : MovContext → Type 0
  HasShortTitle m = length (title_of date m.title_info) < 2 ^ 20

  -- The title that is in the box is the one that was counted.
  pub Titled-HasShortTitle : (a b : MovContext) → Titled a b → HasShortTitle a → HasShortTitle b
  Titled-HasShortTitle a b p short = let e = ap length (Titled-title_of a b p) in omega arith

  module _ (t : MovTrack) (h : HasTables t) where
    size-hdlr :
        (m : MovContext)
        → HasShortTitle m
        → (size_of (mov_write_hdlr_tag date t m).0 ≡ (mov_get_hdlr_tag_size date m).0)
          × ((mov_get_hdlr_tag_size date m).0 ≤ 2 ^ 21)
          × Titled m (mov_write_hdlr_tag date t m).1
    unfolding mov_write_hdlr_tag mov_get_hdlr_tag_size
    size-hdlr m short = elim h.kind [
      | inl (is_video, _) ↦
          rw is_video (
            omega word_sizes,
            omega arith,
            record { tracks = refl; nb_streams = refl; title = refl },
          )
      | inr is_audio ↦
          rw is_audio (
            omega word_sizes,
            omega arith,
            record { tracks = refl; nb_streams = refl; title = refl },
          )
    ]

    mdia_size :
        (m : MovContext)
        → HasShortTitle m
        → ((mov_get_mdia_tag_size date t m).0
            ≡ 40 + (mov_get_hdlr_tag_size date m).0 + mov_get_minf_tag_size t)
          × ((mov_get_mdia_tag_size date t m).0 ≤ 11 * 2 ^ 26 + 2 ^ 22)
          × Titled m (mov_get_mdia_tag_size date t m).1
    unfolding mov_get_mdia_tag_size mov_get_hdlr_tag_size
    mdia_size m short =
        let minf = minf_size t h in
        (
          omega (arith, minf.1),
          omega (arith, minf.1),
          record { tracks = refl; nb_streams = refl; title = refl },
        )

    -- Asked for again, the size is the same.
    mdia_again :
        (m m' : MovContext)
        → title_of date m'.title_info ≡ title_of date m.title_info
        → (mov_get_mdia_tag_size date t m').0 ≡ (mov_get_mdia_tag_size date t m).0
    unfolding mov_get_mdia_tag_size mov_get_hdlr_tag_size
    mdia_again m m' same = rw same refl

    hdlr_again :
        (m m' : MovContext)
        → title_of date m'.title_info ≡ title_of date m.title_info
        → (mov_get_hdlr_tag_size date m').0 ≡ (mov_get_hdlr_tag_size date m).0
    unfolding mov_get_hdlr_tag_size
    hdlr_again m m' same = rw same refl

    pub mdia-IsBox :
        (m : MovContext)
        → HasShortTitle m
        → IsBox (mov_get_mdia_tag_size date t m).0 (codes "mdia") (mov_write_mdia_tag date t m).0
          × Titled m (mov_write_mdia_tag date t m).1
    unfolding mov_write_mdia_tag mov_write_mdhd_tag mov_get_mdia_tag_size
    mdia-IsBox m short =
        let m1 = (mov_get_mdia_tag_size date t m).1 in
        let (count, _, titled) = mdia_size m short in
        let (hdlr, _, titled') = size-hdlr m1 (Titled-HasShortTitle m m1 titled short) in
        let m2 = (mov_write_hdlr_tag date t m1).1 in
        let again = hdlr_again m m1 (Titled-title_of m m1 titled) in
        let (box, same) = minf-IsBox t h m2 in
        let size = size-IsBox _ (codes "minf") _ refl box in
        (
          (_, refl, omega (arith, size_of-append, size-mdhd t)),
          Titled-Kept m m2 _ (Titled-trans m m1 m2 titled titled') same,
        )

    pub trak_size :
        (m : MovContext)
        → HasShortTitle m
        → ((mov_get_trak_tag_size date t m).0 ≡ 100 + (mov_get_mdia_tag_size date t m).0)
          × ((mov_get_trak_tag_size date t m).0 ≤ 12 * 2 ^ 26)
          × Titled m (mov_get_trak_tag_size date t m).1
    unfolding mov_get_trak_tag_size
    trak_size m short = let (_, bound, same) = mdia_size m short in (omega arith, omega arith, same)

    pub trak_again :
        (m m' : MovContext)
        → title_of date m'.title_info ≡ title_of date m.title_info
        → (mov_get_trak_tag_size date t m').0 ≡ (mov_get_trak_tag_size date t m).0
    unfolding mov_get_trak_tag_size
    trak_again m m' same = ap (λ (n : ℕ). u32 (100 + n)) (mdia_again m m' same)

    -- The `trak` box of a writable track, the title being short, is as long as its size field, which
    -- is counted before; the writing leaves the tracks and their number, and the title, if it was
    -- not empty.
    pub trak-IsBox :
        (m : MovContext)
        → HasShortTitle m
        → IsBox (mov_get_trak_tag_size date t m).0 (codes "trak") (mov_write_trak_tag date t m).0
          × Titled m (mov_write_trak_tag date t m).1
    unfolding mov_write_trak_tag mov_write_tkhd_tag mov_get_trak_tag_size
    trak-IsBox m short =
        let m1 = (mov_get_trak_tag_size date t m).1 in
        let (count, _, titled) = trak_size m short in
        let (box, titled') = mdia-IsBox m1 (Titled-HasShortTitle m m1 titled short) in
        let size = size-IsBox _ (codes "mdia") _ refl box in
        let again = mdia_again m m1 (Titled-title_of m m1 titled) in
        ((_, refl, omega (arith, size_of-append, size-tkhd t)), Titled-trans m m1 _ titled titled')
