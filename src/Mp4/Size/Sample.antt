-- ===== src/Mp4/Size/Sample.antt =====
-- The sample descriptions are boxes.
use pluto_project.Base.{
  ℕ, zero, suc, ◌+◌, ◌-◌, ◌^◌, ◌≤◌, ◌<◌, ◌≡◌, refl, ap, ◌∙◌, some, List, [], ◌∷◌, ◌++◌, arith,
  length, u32, ltb, ◌==◌, Bool-cases, inl, inr, if◌then◌else◌, ==_iff,
}
use pluto_project.Mp4.{CodecType, MovTrack, video, audio, max_type}
use pluto_project.Mp4.Put.{size_of, size_of-append, codes, word_sizes}
use pluto_project.Mp4.Avc.{
  av_rb32, ff_avc_parse_nal_units, parameter_sets, ff_isom_get_avcc_size, ff_isom_write_avcc,
  mov_get_avcc_tag_size, mov_write_avcc_tag,
}
use pluto_project.Mp4.Sample.{
  descr_rounds, descr_length, put_length_bytes, put_descr, decoder_info_size, mov_get_esds_tag_size,
  mov_write_esds_tag, mov_get_audio_tag_size, mov_write_audio_tag, mov_get_video_tag_size,
  mov_write_video_tag, mov_get_stsd_tag_size, mov_write_stsd_tag, tag_avc1, tag_mp4a, tag_mp4v,
}
use pluto_project.Mp4.Size.Box.{IsBox, size-IsBox}

descr_rounds_bounds :
    (fuel len i : ℕ) → (i ≤ descr_rounds fuel len i) × (descr_rounds fuel len i ≤ i + fuel)
unfolding descr_rounds
descr_rounds_bounds zero len i = (omega arith, omega arith)
descr_rounds_bounds (suc fuel) len i = ground (arith, descr_rounds_bounds fuel len (i + 1))

pub descr_length_bounds :
    (len : ℕ) → len < 2 ^ 31 → (len + 2 ≤ descr_length len) × (descr_length len ≤ len + 7)
unfolding descr_length
descr_length_bounds len h = omega (arith, descr_rounds_bounds 5 len 1)

size-put_length_bytes : (size i : ℕ) → size_of (put_length_bytes size i) ≡ i
unfolding put_length_bytes
size-put_length_bytes size zero = refl
size-put_length_bytes size (suc i) = omega (arith, size-put_length_bytes size i)

-- A descriptor's head fills what `descrLength` adds to its length.
size-put_descr :
    (tag size : ℕ) → size < 2 ^ 31 → size_of (put_descr tag size) + size ≡ descr_length size
unfolding put_descr
size-put_descr tag size h = omega (
  arith,
  size_of-append,
  size-put_length_bytes size (descr_length size - size - 2),
  descr_length_bounds size h,
)

-- The codec data of a track is not so long that a size could wrap.
abbrev pub SmallCsd : MovTrack → Type 0
SmallCsd t = length t.csd < 2 ^ 24

decoder_info_bound : (t : MovTrack) → SmallCsd t → decoder_info_size t ≤ length t.csd + 7
unfolding decoder_info_size
decoder_info_bound t h = ground (arith, descr_length_bounds (length t.csd))

size-decoder_info :
    (t : MovTrack)
    → SmallCsd t
    → size_of (if length t.csd == 0 then [] else put_descr 5 (length t.csd) ++ (t.csd ∷ []))
      ≡ decoder_info_size t
unfolding decoder_info_size
size-decoder_info t h = ground (
  arith,
  size_of-append (put_descr 5 (length t.csd)) (t.csd ∷ []),
  size-put_descr 5 (length t.csd),
)

pub esds-IsBox :
    (t : MovTrack)
    → SmallCsd t
    → IsBox (mov_get_esds_tag_size t) (codes "esds") (mov_write_esds_tag t)
unfolding mov_write_esds_tag mov_get_esds_tag_size
esds-IsBox t h = (
  _,
  refl,
  omega (
    word_sizes,
    size_of-append,
    size-decoder_info t h,
    decoder_info_bound t h,
    descr_length_bounds 1 (omega arith),
    descr_length_bounds (13 + decoder_info_size t) (omega (arith, decoder_info_bound t h)),
    size-put_descr 3,
    size-put_descr 4,
    size-put_descr 6,
  ),
)

-- What `ff_isom_write_avcc` needs of codec data that begins with a start code: the split into
-- units succeeds, and there is an SPS among them.
abbrev pub HasSps : MovTrack → Type 0
HasSps t =
    av_rb32 t.csd 0 ≡ 1
    → (buf : List ℕ) × (sps : List ℕ) × (ff_avc_parse_nal_units t.csd_address t.csd ≡ some buf)
      × ((parameter_sets buf).sps ≡ some sps)

size-avcc :
    (t : MovTrack)
    → HasSps t
    → size_of (ff_isom_write_avcc t.csd_address t.csd) ≡ ff_isom_get_avcc_size t.csd_address t.csd
unfolding ff_isom_write_avcc ff_isom_get_avcc_size
size-avcc t has = elim (Bool-cases (ltb 6 (length t.csd))) [
  | inr short ↦ rw short refl
  | inl long ↦ rw long (elim (Bool-cases (av_rb32 t.csd 0 == 1)) [
    | inr record_given ↦ rw record_given (omega arith)
    | inl coded ↦
        let (buf, sps, parsed, is) = has ((==_iff _ _).0 coded) in
        rw (coded, parsed, is) (ground arith)
  ])
]

-- Codec data that can be written: short, and with an SPS if it is a stream of units.
pub record IsWritable (t : MovTrack) : Type 0 where
  pub small_csd : SmallCsd t
  pub small_avcc : ff_isom_get_avcc_size t.csd_address t.csd < 2 ^ 24
  pub has_sps : HasSps t

module _ (t : MovTrack) (w : IsWritable t) where
  -- The `avcC` box is as long as its size field, for codec data that is a finished record and for
  -- codec data that is a stream of units with an SPS.
  pub avcc-IsBox : IsBox (mov_get_avcc_tag_size t) (codes "avcC") (mov_write_avcc_tag t)
  unfolding mov_write_avcc_tag mov_get_avcc_tag_size
  avcc-IsBox = let small = w.small_avcc in (_, refl, omega (word_sizes, size-avcc t w.has_sps))

  esds_bound : mov_get_esds_tag_size t ≤ 2 ^ 25
  unfolding mov_get_esds_tag_size
  esds_bound =
      let small = w.small_csd in
      omega (
        arith,
        decoder_info_bound t small,
        descr_length_bounds 1 (omega arith),
        descr_length_bounds (13 + decoder_info_size t) (omega (arith, decoder_info_bound t small)),
        descr_length_bounds (3 + descr_length (13 + decoder_info_size t) + descr_length 1),
      )

  avcc_bound : mov_get_avcc_tag_size t ≤ 2 ^ 25
  unfolding mov_get_avcc_tag_size
  avcc_bound = let small = w.small_avcc in omega arith

  size-avcc_box : size_of (mov_write_avcc_tag t) ≡ mov_get_avcc_tag_size t
  size-avcc_box = size-IsBox _ (codes "avcC") _ refl avcc-IsBox

  size-esds_box : size_of (mov_write_esds_tag t) ≡ mov_get_esds_tag_size t
  size-esds_box = size-IsBox _ (codes "esds") _ refl (esds-IsBox t w.small_csd)

  -- The audio and video entries are as long as their size fields say.
  size-audio :
      (size_of (mov_write_audio_tag t) ≡ mov_get_audio_tag_size t)
      × (mov_get_audio_tag_size t ≤ 2 ^ 26)
  unfolding mov_write_audio_tag mov_get_audio_tag_size
  size-audio = elim (Bool-cases (t.tag == tag_mp4a)) [
    | inl mp4a ↦ rw mp4a (omega (word_sizes, size-esds_box, esds_bound), omega (arith, esds_bound))
    | inr other ↦ rw other (omega word_sizes, omega arith)
  ]

  size-video :
      (size_of (mov_write_video_tag t) ≡ mov_get_video_tag_size t)
      × (mov_get_video_tag_size t ≤ 2 ^ 26)
  unfolding mov_write_video_tag mov_get_video_tag_size
  size-video = elim (Bool-cases (t.tag == tag_avc1)) [
    | inl avc1 ↦ rw avc1 (omega (word_sizes, size-avcc_box, avcc_bound), omega (arith, avcc_bound))
    | inr no_avc1 ↦ rw no_avc1 (elim (Bool-cases (t.tag == tag_mp4v)) [
      | inl mp4v ↦
          rw mp4v (omega (word_sizes, size-esds_box, esds_bound), omega (arith, esds_bound))
      | inr other ↦ rw other (omega word_sizes, omega arith)
    ])
  ]

  stsd_video : t.enc.codec_type ≡ video → mov_get_stsd_tag_size t ≡ 16 + mov_get_video_tag_size t
  unfolding mov_get_stsd_tag_size
  stsd_video h =
      ap
        (λ (c : CodecType). elim c [
          | video ↦ u32 (16 + mov_get_video_tag_size t)
          | audio ↦ u32 (16 + mov_get_audio_tag_size t)
          | max_type ↦ 16
        ])
        h
      ∙ omega (arith, size-video.1)

  pub stsd-IsBox_video :
      t.enc.codec_type ≡ video
      → IsBox (mov_get_stsd_tag_size t) (codes "stsd") (mov_write_stsd_tag t)
        × (mov_get_stsd_tag_size t ≤ 2 ^ 27)
  unfolding mov_write_stsd_tag
  stsd-IsBox_video h = (
    simp h (_, refl, omega (word_sizes, size-video.0, stsd_video h)),
    omega (arith, size-video.1, stsd_video h),
  )

  stsd_audio : t.enc.codec_type ≡ audio → mov_get_stsd_tag_size t ≡ 16 + mov_get_audio_tag_size t
  unfolding mov_get_stsd_tag_size
  stsd_audio h =
      ap
        (λ (c : CodecType). elim c [
          | video ↦ u32 (16 + mov_get_video_tag_size t)
          | audio ↦ u32 (16 + mov_get_audio_tag_size t)
          | max_type ↦ 16
        ])
        h
      ∙ omega (arith, size-audio.1)

  pub stsd-IsBox_audio :
      t.enc.codec_type ≡ audio
      → IsBox (mov_get_stsd_tag_size t) (codes "stsd") (mov_write_stsd_tag t)
        × (mov_get_stsd_tag_size t ≤ 2 ^ 27)
  unfolding mov_write_stsd_tag
  stsd-IsBox_audio h = (
    simp h (_, refl, omega (word_sizes, size-audio.0, stsd_audio h)),
    omega (arith, size-audio.1, stsd_audio h),
  )
