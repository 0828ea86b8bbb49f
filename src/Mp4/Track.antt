-- ===== src/Mp4/Track.antt =====
-- The boxes of one track in Mp4Muxer.c, from `dref` up to `trak`.
use pluto_project.Base.{
  ℕ, ◌+◌, ◌-◌, ◌*◌, ◌/◌, List, [], ◌∷◌, ◌++◌, u32, ◌==◌, if◌then◌else◌, length, replicate,
}
use pluto_project.Mp4.{video, audio, max_type, MovTrack, MovContext, global_timescale}
use pluto_project.Mp4.Put.{
  Calls, ◌⨾◌, Emit, emit, ◌>>◌, codes, put_buffer, put_byte, put_be16, put_be24, put_be32, put_tag,
}
use pluto_project.Mp4.Tables.{
  mov_get_stco_tag_size, mov_write_stco_tag, mov_get_stsz_tag_size, mov_write_stsz_tag,
  mov_get_stsc_tag_size, mov_write_stsc_tag, mov_get_stss_tag_size, mov_write_stss_tag,
  mov_get_stts_tag_size, mov_write_stts_tag,
}
use pluto_project.Mp4.Sample.{mov_get_stsd_tag_size, mov_write_stsd_tag}

abbrev pub mov_get_dref_tag_size : ℕ
mov_get_dref_tag_size = 28

unfoldable pub mov_write_dref_tag : Calls
mov_write_dref_tag =
    put_be32 mov_get_dref_tag_size
    ⨾ put_tag (codes "dref")
    ⨾ put_be32 0
    ⨾ put_be32 1
    ⨾ put_be32 0xc
    ⨾ put_tag (codes "url ")
    ⨾ put_be32 1

unfoldable pub mov_get_stbl_tag_size : MovTrack → ℕ
mov_get_stbl_tag_size track = u32 (
    8
    + mov_get_stsd_tag_size track
    + mov_get_stts_tag_size track
    + elim track.enc.codec_type [ video ↦ mov_get_stss_tag_size track | _ ↦ 0 ]
    + mov_get_stsc_tag_size track
    + mov_get_stsz_tag_size track
    + mov_get_stco_tag_size track)

unfoldable pub mov_write_stbl_tag : MovTrack → Emit
mov_write_stbl_tag track =
    emit (put_be32 (mov_get_stbl_tag_size track) ⨾ put_tag (codes "stbl"))
    >> emit (mov_write_stsd_tag track)
    >> mov_write_stts_tag track
    >> elim track.enc.codec_type [ video ↦ mov_write_stss_tag track | _ ↦ emit [] ]
    >> mov_write_stsc_tag track
    >> mov_write_stsz_tag track
    >> mov_write_stco_tag track

abbrev pub mov_get_dinf_tag_size : ℕ
mov_get_dinf_tag_size = 8 + mov_get_dref_tag_size

unfoldable pub mov_write_dinf_tag : Calls
mov_write_dinf_tag = put_be32 mov_get_dinf_tag_size ⨾ put_tag (codes "dinf") ⨾ mov_write_dref_tag

abbrev pub mov_get_smhd_tag_size : ℕ
mov_get_smhd_tag_size = 16

unfoldable pub mov_write_smhd_tag : Calls
mov_write_smhd_tag =
    put_be32 mov_get_smhd_tag_size ⨾ put_tag (codes "smhd") ⨾ put_be32 0 ⨾ put_be16 0 ⨾ put_be16 0

abbrev pub mov_get_vmhd_tag_size : ℕ
mov_get_vmhd_tag_size = 0x14

unfoldable pub mov_write_vmhd_tag : Calls
mov_write_vmhd_tag =
    put_be32 mov_get_vmhd_tag_size ⨾ put_tag (codes "vmhd") ⨾ put_be32 1 ⨾ put_be32 0 ⨾ put_be32 0

unfoldable pub mov_get_minf_tag_size : MovTrack → ℕ
mov_get_minf_tag_size track = u32 (
    8
    + elim track.enc.codec_type [
      | video ↦ mov_get_vmhd_tag_size
      | audio ↦ mov_get_smhd_tag_size
      | max_type ↦ 0
    ]
    + mov_get_dinf_tag_size
    + mov_get_stbl_tag_size track)

unfoldable pub mov_write_minf_tag : MovTrack → Emit
mov_write_minf_tag track =
    emit (put_be32 (mov_get_minf_tag_size track) ⨾ put_tag (codes "minf"))
    >> emit (elim track.enc.codec_type [
      | video ↦ mov_write_vmhd_tag
      | audio ↦ mov_write_smhd_tag
      | max_type ↦ []
    ])
    >> emit mov_write_dinf_tag
    >> mov_write_stbl_tag track

abbrev pub mov_get_mdhd_tag_size : ℕ
mov_get_mdhd_tag_size = 0x20

unfoldable pub mov_write_mdhd_tag : MovTrack → Calls
mov_write_mdhd_tag track =
    put_be32 mov_get_mdhd_tag_size
    ⨾ put_tag (codes "mdhd")
    ⨾ put_byte 0
    ⨾ put_be24 0
    ⨾ put_be32 track.time
    ⨾ put_be32 track.time
    ⨾ put_be32 track.timescale
    ⨾ put_be32 track.track_duration
    ⨾ put_be16 0
    ⨾ put_be16 0

-- `av_rescale_rnd`, a division that rounds up. The code is for a timescale above 0: by 0 it traps, where
-- this gives 0.
unfoldable pub av_rescale_rnd : ℕ → ℕ → ℕ → ℕ
av_rescale_rnd a b c = (a * b + c - 1) / c

abbrev pub mov_get_elst_tag_size : ℕ
mov_get_elst_tag_size = 0x1c

unfoldable pub mov_write_elst_tag : MovTrack → Calls
mov_write_elst_tag track =
    put_be32 mov_get_elst_tag_size
    ⨾ put_tag (codes "elst")
    ⨾ put_be32 0
    ⨾ put_be32 1
    ⨾ put_be32 (track.enc.frame_rate * track.stsz_size)
    ⨾ put_be32 0x1_0000
    ⨾ put_be32 0x1_0000

abbrev pub mov_get_edts_tag_size : ℕ
mov_get_edts_tag_size = 8 + mov_get_elst_tag_size

unfoldable pub mov_write_edts_tag : MovTrack → Calls
mov_write_edts_tag track =
    put_be32 mov_get_edts_tag_size ⨾ put_tag (codes "edts") ⨾ mov_write_elst_tag track

abbrev pub mov_get_tkhd_tag_size : ℕ
mov_get_tkhd_tag_size = 0x5c

-- The four numbers of the rotation in the matrix of `tkhd`, as 16.16 words.
pub record Rotation : Type 0 where
  pub a : ℕ
  pub b : ℕ
  pub c : ℕ
  pub d : ℕ

unfoldable pub rotation : ℕ → Rotation
rotation degrees =
    if degrees == 90
    then record { a = 0; b = 0x1_0000; c = 0xFFFF_0000; d = 0 }
    else if degrees == 180
    then record { a = 0xFFFF_0000; b = 0; c = 0; d = 0xFFFF_0000 }
    else if degrees == 270
    then record { a = 0; b = 0xFFFF_0000; c = 0x1_0000; d = 0 }
    else record { a = 0x1_0000; b = 0; c = 0; d = 0x1_0000 }

unfoldable pub mov_write_tkhd_tag : MovTrack → Calls
mov_write_tkhd_tag track =
    let m = rotation track.enc.rotate_degree in
    put_be32 mov_get_tkhd_tag_size
    ⨾ put_tag (codes "tkhd")
    ⨾ put_byte 0
    ⨾ put_be24 0xf
    ⨾ put_be32 track.time
    ⨾ put_be32 track.time
    ⨾ put_be32 track.track_id
    ⨾ put_be32 0
    ⨾ put_be32 (av_rescale_rnd track.track_duration global_timescale track.timescale)
    ⨾ put_be32 0
    ⨾ put_be32 0
    ⨾ put_be32 0
    ⨾ put_be16 (elim track.enc.codec_type [ audio ↦ 0x100 | _ ↦ 0 ])
    ⨾ put_be16 0
    ⨾ put_be32 m.a
    ⨾ put_be32 m.b
    ⨾ put_be32 0
    ⨾ put_be32 m.c
    ⨾ put_be32 m.d
    ⨾ put_be32 0
    ⨾ put_be32 0
    ⨾ put_be32 0
    ⨾ put_be32 0x4000_0000
    ⨾ put_be32 (elim track.enc.codec_type [ video ↦ track.enc.width * 0x1_0000 | _ ↦ 0 ])
    ⨾ put_be32 (elim track.enc.codec_type [ video ↦ track.enc.height * 0x1_0000 | _ ↦ 0 ])

-- `date` is what `sprintf` makes of the month, the day and the year when the title is first asked
-- for; the clock is not code of the repository.
module _ (date : List ℕ) where
  unfoldable pub default_title : List ℕ
  default_title = codes "ISO Media file by ZJZ. Create on: " ++ (date ++ codes ".")

  -- An empty title is filled in.
  unfoldable pub title_of : List ℕ → List ℕ
  title_of [] = default_title
  title_of (c ∷ title) = c ∷ title

  -- `movGetHdlrTagSize` of a track: it may fill in the title.
  unfoldable pub mov_get_hdlr_tag_size : MovContext → ℕ × MovContext
  mov_get_hdlr_tag_size mov =
      let title = title_of mov.title_info in
      (u32 (32 + 1 + length title), record mov { title_info = title })

  -- `mov_write_hdlr_tag` of a track. The pointer to the title is taken before the title may be
  -- filled in, and read after. A track of neither kind has no handler type to put.
  unfoldable pub mov_write_hdlr_tag : MovTrack → Emit
  mov_write_hdlr_tag track mov =
      let (size, mov') = mov_get_hdlr_tag_size mov in
      (
        put_be32 size
            ⨾ put_tag (codes "hdlr")
            ⨾ put_be32 0
            ⨾ put_buffer (replicate 4 0)
            ⨾ elim track.enc.codec_type [
              | video ↦ put_tag (codes "vide")
              | audio ↦ put_tag (codes "soun")
              | max_type ↦ []
            ]
            ⨾ put_be32 0
            ⨾ put_be32 0
            ⨾ put_be32 0
            ⨾ put_buffer mov'.title_info
            ⨾ put_byte 0,
        mov',
      )

  unfoldable pub mov_get_mdia_tag_size : MovTrack → MovContext → ℕ × MovContext
  mov_get_mdia_tag_size track mov =
      let (hdlr, mov') = mov_get_hdlr_tag_size mov in
      (u32 (8 + mov_get_mdhd_tag_size + hdlr + mov_get_minf_tag_size track), mov')

  unfoldable pub mov_write_mdia_tag : MovTrack → Emit
  mov_write_mdia_tag track mov =
      let (size, mov') = mov_get_mdia_tag_size track mov in
      (emit (put_be32 size ⨾ put_tag (codes "mdia") ⨾ mov_write_mdhd_tag track)
          >> mov_write_hdlr_tag track
          >> mov_write_minf_tag track)
        mov'

  unfoldable pub mov_get_trak_tag_size : MovTrack → MovContext → ℕ × MovContext
  mov_get_trak_tag_size track mov =
      let (mdia, mov') = mov_get_mdia_tag_size track mov in
      (u32 (8 + mov_get_tkhd_tag_size + mdia), mov')

  unfoldable pub mov_write_trak_tag : MovTrack → Emit
  mov_write_trak_tag track mov =
      let (size, mov') = mov_get_trak_tag_size track mov in
      (emit (put_be32 size ⨾ put_tag (codes "trak") ⨾ mov_write_tkhd_tag track)
          >> mov_write_mdia_tag track)
        mov'
