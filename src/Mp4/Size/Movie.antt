-- ===== src/Mp4/Size/Movie.antt =====
-- The boxes of the whole file are boxes, and `moov` is as long as it was counted to be.
use pluto_project.Base.{
  ℕ, zero, suc, ◌+◌, ◌-◌, ◌/◌, ◌%◌, ◌≤◌, ◌<◌, ◌≡◌, ◌≢◌, refl, ap, sym, subst, ◌∙◌, Bool, true,
  false, List, [], ◌∷◌, ◌++◌, arith, length, take, u32, ltb, length-take, u32, ltb, length-append,
  inl, inr, ◌==◌, if◌then◌else◌, Bool-cases, ==_iff,
}
use pluto_project.Mp4.{
  Degrees, MovTrack, MovContext, update, update_hit, update_miss, global_timescale,
}
use pluto_project.Mp4.Put.{size_of, size_of-append, codes, word_sizes}
use pluto_project.Mp4.Track.{
  title_of, mov_get_trak_tag_size, mov_get_mdia_tag_size, mov_get_hdlr_tag_size,
}
use pluto_project.Mp4.Movie.{
  decimal, sign_of, write_latitude, write_longitude, number_tracks, add_trak_sizes, write_traks,
  write_moov, mov_get_moov_tag_size, mov_write_mvhd_tag, mov_write_udta_tag, mov_write_ftyp_tag,
  mov_get_udta_tag_size,
}
use pluto_project.Mp4.Size.Box.{IsBox, size-IsBox}
use pluto_project.Mp4.Size.Track.{HasTables}
use pluto_project.Mp4.Size.Trak.{title_of_twice, HasShortTitle}
use pluto_project.Mp4.Size.Traks.{numbered, counted}

-- At least the digits that are asked for.
length-decimal : (fuel width n : ℕ) → width ≤ fuel → width ≤ length (decimal fuel width n)
unfolding decimal
length-decimal zero width n h = omega arith
length-decimal (suc fuel) width n h =
    grind (arith, length-append {A = ℕ}, length-decimal fuel (width - 1) (n / 10))

-- A sign, whole degrees and a point, and the digits behind it, cut to the room they have.
size-cut :
    (n k sign : ℕ) (a b : List ℕ)
    → n ≤ length a
    → k ≤ length b
    → length (take (n + 2) (sign ∷ (a ++ (b'.' ∷ []))) ++ take k b) ≡ n + 2 + k
size-cut n k sign a b p q = omega (
  arith,
  length-append (take (n + 2) (sign ∷ (a ++ (b'.' ∷ [])))) (take k b),
  length-take (n + 2) (sign ∷ (a ++ (b'.' ∷ []))),
  length-take k b,
  length-append a (b'.' ∷ []),
)

size-latitude : (g : Degrees) → size_of (write_latitude g) ≡ 8
unfolding write_latitude
size-latitude g =
    let whole = length-decimal 10 2 (g.magnitude / 10000) (omega arith) in
    let rest = length-decimal 10 4 (g.magnitude % 10000) (omega arith) in
    omega (arith, size-cut 2 4 (sign_of g) _ _ whole rest)

size-longitude : (g : Degrees) → size_of (write_longitude g) ≡ 9
unfolding write_longitude
size-longitude g =
    let whole = length-decimal 10 3 (g.magnitude / 10000) (omega arith) in
    let rest = length-decimal 10 4 (g.magnitude % 10000) (omega arith) in
    omega (arith, size-cut 3 4 (sign_of g) _ _ whole rest)

-- The place of the recording takes the same room at every place.
pub udta-IsBox :
    (m : MovContext) → IsBox mov_get_udta_tag_size (codes "udta") (mov_write_udta_tag m)
unfolding mov_write_udta_tag
udta-IsBox m = (
  _,
  refl,
  omega (word_sizes, size_of-append, size-latitude m.latitude, size-longitude m.longitude),
)

pub mvhd-IsBox : (m : MovContext) → IsBox 108 (codes "mvhd") (mov_write_mvhd_tag m)
unfolding mov_write_mvhd_tag
mvhd-IsBox m = (_, refl, omega word_sizes)

pub ftyp-IsBox : IsBox 28 (codes "ftyp") mov_write_ftyp_tag
unfolding mov_write_ftyp_tag
ftyp-IsBox = (_, refl, omega word_sizes)

-- Track `k` is numbered in a context.
abbrev number_track : ℕ → MovContext → ℕ → MovTrack
number_track k m = update m.tracks k (numbered (m.tracks k) m.create_time (k + 1) k)

number_here :
    (k : ℕ) (m : MovContext) → number_track k m k ≡ numbered (m.tracks k) m.create_time (k + 1) k
number_here k m = update_hit m.tracks k (numbered (m.tracks k) m.create_time (k + 1) k)

number_there : (k : ℕ) (m : MovContext) (j : ℕ) → k ≢ j → number_track k m j ≡ m.tracks j
number_there k m j h = update_miss m.tracks k (numbered (m.tracks k) m.create_time (k + 1) k) j h

number_tracks_title :
    (n : ℕ) (m : MovContext)
    → ((number_tracks n m).title_info ≡ m.title_info)
      × ((number_tracks n m).create_time ≡ m.create_time)
unfolding number_tracks
number_tracks_title zero m = (refl, refl)
number_tracks_title (suc n) m = number_tracks_title n m

number_tracks_above :
    (n : ℕ) (m : MovContext) (j : ℕ) → n ≤ j → (number_tracks n m).tracks j ≡ m.tracks j
unfolding number_tracks
number_tracks_above zero m j h = refl
number_tracks_above (suc n) m j h =
    number_there n (number_tracks n m) j (λ e. omega arith)
    ∙ number_tracks_above n m j (omega arith)

-- The tracks are numbered from 1, and nothing else changes.
number_tracks_lem :
    (n : ℕ) (m : MovContext) (j : ℕ)
    → j < n
    → (number_tracks n m).tracks j ≡ numbered (m.tracks j) m.create_time (j + 1) j
unfolding number_tracks
number_tracks_lem zero m j h = absurd (omega arith)
number_tracks_lem (suc n) m j h = elim (Bool-cases (n == j)) [
  | inl here ↦
      let is = (==_iff n j).0 here in
      subst
        (λ (i : ℕ).
          number_track n (number_tracks n m) i ≡ numbered (m.tracks i) m.create_time (i + 1) i)
        is
        (number_here n (number_tracks n m)
          ∙ (ap (λ (t : MovTrack). numbered t (number_tracks n m).create_time (n + 1) n)
                (number_tracks_above n m n (omega arith))
              ∙ ap (λ (c : ℕ). numbered (m.tracks n) c (n + 1) n) (number_tracks_title n m).1))
  | inr other ↦
      number_there n (number_tracks n m) j (λ e. ground arith)
      ∙ number_tracks_lem n m j (ground arith)
]

module _ (date : List ℕ) where
  -- What counting the sizes may change: it may fill in the title.
  counting_keeps :
      (n i acc : ℕ) (m : MovContext)
      → ((add_trak_sizes date n i acc m).1.tracks ≡ m.tracks)
        × ((add_trak_sizes date n i acc m).1.nb_streams ≡ m.nb_streams)
        × ((add_trak_sizes date n i acc m).1.geo_available ≡ m.geo_available)
        × (title_of date (add_trak_sizes date n i acc m).1.title_info ≡ title_of date m.title_info)
  unfolding add_trak_sizes mov_get_trak_tag_size mov_get_mdia_tag_size mov_get_hdlr_tag_size
  counting_keeps zero i acc m = (refl, refl, refl, refl)
  counting_keeps (suc n) i acc m = elim (Bool-cases (ltb 0 (m.tracks i).stsz_size)) [
    | inr empty ↦ rw (empty, add_trak_sizes) (counting_keeps n (i + 1) (u32 (acc + 0)) m)
    | inl used ↦
        let (k, m') = mov_get_trak_tag_size date (m.tracks i) m in
        let (t, nb, geo, title) = counting_keeps n (i + 1) (u32 (acc + k)) m' in
        rw (used, add_trak_sizes) (t, nb, geo, title ∙ title_of_twice date m.title_info)
  ]

  module _ (m : MovContext) (two : m.nb_streams ≤ 2)
      (has : (i : ℕ) → i < m.nb_streams → 0 < (m.tracks i).stsz_size → HasTables (m.tracks i))
      (short : HasShortTitle date m) where
    -- The context in which the movie is written, after the size is counted.
    abbrev counted_mov : MovContext
    counted_mov = record (mov_get_moov_tag_size date m).1 { timescale = global_timescale }

    abbrev numbered_mov : MovContext
    numbered_mov = number_tracks counted_mov.nb_streams counted_mov

    size-place :
        (g : Bool) (w : MovContext)
        → size_of (if g then mov_write_udta_tag w else [])
          ≡ (if g then mov_get_udta_tag_size else 0)
    size-place true w = size-IsBox _ (codes "udta") _ refl (udta-IsBox w)
    size-place false w = refl

    place_bound : (g : Bool) → (if g then mov_get_udta_tag_size else 0) ≤ 38
    place_bound true = omega arith
    place_bound false = omega arith

    size-traks :
        (mov_get_moov_tag_size date m).0
        ≡ 8
          + (if counted_mov.geo_available then mov_get_udta_tag_size else 0)
          + 108
          + size_of (write_traks date counted_mov.nb_streams 0 numbered_mov).0
    unfolding mov_get_moov_tag_size
    size-traks =
        let first = 8 + (if m.geo_available then mov_get_udta_tag_size else 0) + 108 in
        let (t, nb, geo, title) = counting_keeps m.nb_streams 0 first m in
        let c = counted_mov in
        let s = title_of date m.title_info in
        let loop =
          counted date m.tracks c.create_time m.nb_streams has s short m.nb_streams 0 first m
            numbered_mov (omega arith) (omega (arith, place_bound m.geo_available)) refl
            (λ j r.
              number_tracks_lem c.nb_streams c j (subst (λ (n : ℕ). j < n) (sym nb) r)
              ∙ ap (λ (f : ℕ → MovTrack). numbered (f j) c.create_time (j + 1) j) t)
            refl (ap (title_of date) (number_tracks_title c.nb_streams c).0 ∙ title) in
        let traks : ℕ → ℕ = λ n. size_of (write_traks date n 0 numbered_mov).0 in
        let e : traks m.nb_streams ≡ traks c.nb_streams = ap traks (sym nb) in
        let place : Bool → ℕ = λ g. if g then mov_get_udta_tag_size else 0 in
        let e' : place c.geo_available ≡ place m.geo_available = ap place geo in omega arith

    -- The `moov` box of at most two tracks, each that has samples being writable and the title
    -- short, is as long as its size field, which was counted before anything of it was written.
    pub moov-IsBox :
        IsBox
          (mov_get_moov_tag_size date m).0
          (codes "moov")
          (write_moov date (mov_get_moov_tag_size date m).0 (mov_get_moov_tag_size date m).1).0
    unfolding write_moov
    moov-IsBox =
        let w = numbered_mov in
        let place = if counted_mov.geo_available then mov_write_udta_tag counted_mov else [] in
        (
          _,
          refl,
          omega (
            arith,
            size_of-append (place ++ mov_write_mvhd_tag w)
                (write_traks date counted_mov.nb_streams 0 w).0,
            size_of-append place (mov_write_mvhd_tag w),
            size-traks,
            size-IsBox _ (codes "mvhd") _ refl (mvhd-IsBox w),
            size-place counted_mov.geo_available counted_mov,
          ),
        )
