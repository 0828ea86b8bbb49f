-- ===== src/Mp4/Size/Track.antt =====
-- The boxes of a track are boxes, up to `trak`.
use pluto_project.Base.{ℕ, ◌+◌, ◌*◌, ◌^◌, ◌≤◌, ◌<◌, ◌≡◌, refl, ◌∙◌, [], arith, inl, inr, ◌⊎◌, u32}
use pluto_project.Mp4.{CodecType, MovTrack, MovContext, video, audio, max_type}
use pluto_project.Mp4.Put.{Emit, emit, Calls, size_of, size_of-append, codes, word_sizes}
use pluto_project.Mp4.Tables.{
  mov_get_stco_tag_size, mov_get_stsz_tag_size, mov_write_stsz_tag, mov_get_stsc_tag_size,
  mov_write_stsc_tag, mov_get_stss_tag_size, mov_write_stss_tag, mov_get_stts_tag_size,
  mov_write_stts_tag,
}
use pluto_project.Mp4.Sample.{mov_get_stsd_tag_size, mov_write_stsd_tag}
use pluto_project.Mp4.Track.{
  mov_get_stbl_tag_size, mov_write_stbl_tag, mov_write_dinf_tag, mov_write_dref_tag,
  mov_write_smhd_tag, mov_write_vmhd_tag, mov_get_minf_tag_size, mov_write_minf_tag,
  mov_get_vmhd_tag_size, mov_get_smhd_tag_size,
}
use pluto_project.Mp4.Size.Box.{IsBox, Kept, size-IsBox}
use pluto_project.Mp4.Size.Tables.{
  IsSmall, stco-IsBox, stsz-IsBox, stsc-IsBox, stss-IsBox, stts-IsBox_audio, stts-IsBox_video,
}
use pluto_project.Mp4.Size.Sample.{IsWritable, stsd-IsBox_video, stsd-IsBox_audio}

-- A track that can be written: its tables are small and its codec data is complete; it is a video
-- track with a duration for its first sample, or an audio track.
pub record HasTables (t : MovTrack) : Type 0 where
  pub small : IsSmall t
  pub writable : IsWritable t
  pub kind : ((t.enc.codec_type ≡ video) × (0 < t.stts_size)) ⊎ (t.enc.codec_type ≡ audio)

module _ (t : MovTrack) (h : HasTables t) where
  size-stsd :
      (size_of (mov_write_stsd_tag t) ≡ mov_get_stsd_tag_size t)
      × (mov_get_stsd_tag_size t ≤ 2 ^ 27)
  size-stsd = elim h.kind [
    | inl (is_video, _) ↦
        let (box, bound) = stsd-IsBox_video t h.writable is_video in
        (size-IsBox _ (codes "stsd") _ refl box, bound)
    | inr is_audio ↦
        let (box, bound) = stsd-IsBox_audio t h.writable is_audio in
        (size-IsBox _ (codes "stsd") _ refl box, bound)
  ]

  size-stts :
      (m : MovContext)
      → (size_of (mov_write_stts_tag t m).0 ≡ mov_get_stts_tag_size t)
        × Kept m (mov_write_stts_tag t m).1
  size-stts m = elim h.kind [
    | inl (is_video, pos) ↦
        let (box, same) = stts-IsBox_video t m h.small is_video pos in
        (size-IsBox _ (codes "stts") _ refl box, same)
    | inr is_audio ↦
        let (box, same) = stts-IsBox_audio t m h.small is_audio in
        (size-IsBox _ (codes "stts") _ refl box, same)
  ]

  -- The sync samples, which only video has.
  abbrev sync : CodecType → Emit
  sync c = elim c [ video ↦ mov_write_stss_tag t | _ ↦ emit [] ]

  abbrev sync_size : CodecType → ℕ
  sync_size c = elim c [ video ↦ mov_get_stss_tag_size t | _ ↦ 0 ]

  size-sync :
      (c : CodecType) (m : MovContext) → (size_of (sync c m).0 ≡ sync_size c) × Kept m (sync c m).1
  size-sync video m =
      let (box, same) = stss-IsBox t m h.small in (size-IsBox _ (codes "stss") _ refl box, same)
  size-sync audio m = (refl, record { tracks = refl; nb_streams = refl; title = refl })
  size-sync max_type m = (refl, record { tracks = refl; nb_streams = refl; title = refl })

  sync_bound : (c : CodecType) → sync_size c ≤ 2 ^ 26 + 2 ^ 5
  unfolding mov_get_stss_tag_size
  sync_bound video = let small = h.small.keyframes_small in omega arith
  sync_bound audio = omega arith
  sync_bound max_type = omega arith

  kind_bound :
      (c : CodecType)
      → elim c [ audio ↦ 16 + 1 * 8 | video ↦ u32 (16 + t.stts_size * 8) | max_type ↦ 0 ]
        ≤ 2 ^ 27 + 2 ^ 5
  kind_bound video = let small = h.small.stts_small in omega arith
  kind_bound audio = omega arith
  kind_bound max_type = omega arith

  stts_bound : mov_get_stts_tag_size t ≤ 2 ^ 27 + 2 ^ 5
  unfolding mov_get_stts_tag_size
  stts_bound = kind_bound t.enc.codec_type

  -- The tables are too short for a size to wrap.
  tables_bound :
      mov_get_stco_tag_size t + mov_get_stsz_tag_size t + mov_get_stsc_tag_size t
      ≤ 5 * 2 ^ 26 + 2 ^ 6
  unfolding mov_get_stco_tag_size mov_get_stsz_tag_size mov_get_stsc_tag_size
  tables_bound =
      let stco = h.small.stco_small in
      let stsz = h.small.stsz_small in let stsc = h.small.stsc_small in omega arith

  stbl_size :
      (mov_get_stbl_tag_size t
        ≡ 8
          + mov_get_stsd_tag_size t
          + mov_get_stts_tag_size t
          + sync_size t.enc.codec_type
          + mov_get_stsc_tag_size t
          + mov_get_stsz_tag_size t
          + mov_get_stco_tag_size t)
      × (mov_get_stbl_tag_size t ≤ 11 * 2 ^ 26)
  unfolding mov_get_stbl_tag_size
  stbl_size = (
    omega (arith, tables_bound, stts_bound, sync_bound t.enc.codec_type, size-stsd.1),
    omega (arith, tables_bound, stts_bound, sync_bound t.enc.codec_type, size-stsd.1),
  )

  Kept-trans : (a b c : MovContext) → Kept a b → Kept b c → Kept a c
  Kept-trans a b c p q = record {
    tracks = q.tracks ∙ p.tracks;
    nb_streams = q.nb_streams ∙ p.nb_streams;
    title = q.title ∙ p.title;
  }

  pub stbl-IsBox :
      (m : MovContext)
      → IsBox (mov_get_stbl_tag_size t) (codes "stbl") (mov_write_stbl_tag t m).0
        × Kept m (mov_write_stbl_tag t m).1
  unfolding mov_write_stbl_tag
  stbl-IsBox m =
      let (n1, k1) = size-stts m in
      let m1 = (mov_write_stts_tag t m).1 in
      let (n2, k2) = size-sync t.enc.codec_type m1 in
      let m2 = (sync t.enc.codec_type m1).1 in
      let (b3, k3) = stsc-IsBox t m2 h.small in
      let n3 = size-IsBox _ (codes "stsc") _ refl b3 in
      let m3 = (mov_write_stsc_tag t m2).1 in
      let (b4, k4) = stsz-IsBox t m3 h.small in
      let n4 = size-IsBox _ (codes "stsz") _ refl b4 in
      let m4 = (mov_write_stsz_tag t m3).1 in
      let (b5, k5) = stco-IsBox t m4 h.small in
      let n5 = size-IsBox _ (codes "stco") _ refl b5 in
      (
        (_, refl, omega (arith, size_of-append, size-stsd.0, stbl_size.0)),
        Kept-trans m m1 _ k1
            (Kept-trans m1 m2 _ k2 (Kept-trans m2 m3 _ k3 (Kept-trans m3 m4 _ k4 k5))),
      )

  -- The media header box of the kind.
  abbrev head : CodecType → Calls
  head c = elim c [ video ↦ mov_write_vmhd_tag | audio ↦ mov_write_smhd_tag | max_type ↦ [] ]

  abbrev head_size : CodecType → ℕ
  head_size c = elim c [
    | video ↦ mov_get_vmhd_tag_size
    | audio ↦ mov_get_smhd_tag_size
    | max_type ↦ 0
  ]

  size-head : (c : CodecType) → (size_of (head c) ≡ head_size c) × (head_size c ≤ 20)
  unfolding mov_write_vmhd_tag mov_write_smhd_tag
  size-head video = (omega word_sizes, omega arith)
  size-head audio = (omega word_sizes, omega arith)
  size-head max_type = (refl, omega arith)

  size-dinf : size_of mov_write_dinf_tag ≡ 36
  unfolding mov_write_dinf_tag mov_write_dref_tag
  size-dinf = omega word_sizes

  pub minf_size :
      (mov_get_minf_tag_size t ≡ 8 + head_size t.enc.codec_type + 36 + mov_get_stbl_tag_size t)
      × (mov_get_minf_tag_size t ≤ 11 * 2 ^ 26 + 2 ^ 10)
  unfolding mov_get_minf_tag_size
  minf_size = (
    omega (arith, stbl_size.1, (size-head t.enc.codec_type).1),
    omega (arith, stbl_size.1, (size-head t.enc.codec_type).1),
  )

  pub minf-IsBox :
      (m : MovContext)
      → IsBox (mov_get_minf_tag_size t) (codes "minf") (mov_write_minf_tag t m).0
        × Kept m (mov_write_minf_tag t m).1
  unfolding mov_write_minf_tag
  minf-IsBox m =
      let (box, same) = stbl-IsBox m in
      let size = size-IsBox _ (codes "stbl") _ refl box in
      (
        (
          _,
          refl,
          omega (arith, size_of-append, size-dinf, (size-head t.enc.codec_type).0, minf_size.0),
        ),
        same,
      )
