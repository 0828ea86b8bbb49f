-- ===== src/Mp4/Sample.antt =====
-- The sample descriptions of Mp4Muxer.c: `esds`, the audio and video entries and `stsd`.
use pluto_project.Base.{
  ℕ, zero, suc, ◌+◌, ◌-◌, ◌*◌, ◌/◌, ◌%◌, ◌^◌, [], bit_or, u32, ◌==◌, if◌then◌else◌, length,
  replicate,
}
use pluto_project.Mp4.{
  video, audio, max_type, MovTrack, mktag, codec_id_h264, codec_id_mpeg4, codec_id_aac,
  codec_id_pcm, codec_id_adpcm, codec_id_mjpeg,
}
use pluto_project.Mp4.Put.{
  Calls, ◌⨾◌, codes, put_buffer, put_byte, put_le32, put_be16, put_be32, put_tag,
}
use pluto_project.Mp4.Avc.{mov_get_avcc_tag_size, mov_write_avcc_tag}

-- `for (i=1; len>>(7*i); i++);` A 32-bit `len` ends it by the fifth round.
unfoldable pub descr_rounds : ℕ → ℕ → ℕ → ℕ
descr_rounds zero len i = i
descr_rounds (suc fuel) len i =
    let rest = descr_rounds fuel len (i + 1) in if len / 2 ^ (7 * i) == 0 then i else rest

unfoldable pub descr_length : ℕ → ℕ
descr_length len = u32 (len + 1 + descr_rounds 5 len 1)

-- The loop of `putDescr_cache`, from `i` down to 1.
unfoldable pub put_length_bytes : ℕ → ℕ → Calls
put_length_bytes size zero = []
put_length_bytes size (suc i) =
    put_byte (bit_or (size / 2 ^ (7 * suc i)) 0x80) ⨾ put_length_bytes size i

unfoldable pub put_descr : ℕ → ℕ → Calls
put_descr tag size =
    put_byte tag ⨾ put_length_bytes size (descr_length size - size - 2) ⨾ put_byte (size % 128)

-- `track->csdLen ? descrLength(track->csdLen) : 0`
unfoldable pub decoder_info_size : MovTrack → ℕ
decoder_info_size track = if length track.csd == 0 then 0 else descr_length (length track.csd)

unfoldable pub mov_get_esds_tag_size : MovTrack → ℕ
mov_get_esds_tag_size track =
    12 + descr_length (3 + descr_length (13 + decoder_info_size track) + descr_length 1)

unfoldable pub mov_write_esds_tag : MovTrack → Calls
mov_write_esds_tag track =
    put_be32 (mov_get_esds_tag_size track)
    ⨾ put_tag (codes "esds")
    ⨾ put_be32 0
    ⨾ put_descr 3 (3 + descr_length (13 + decoder_info_size track) + descr_length 1)
    ⨾ put_be16 track.track_id
    ⨾ put_byte 0
    ⨾ put_descr 4 (13 + decoder_info_size track)
    ⨾ put_byte track.enc.codec_id
    ⨾ put_byte (elim track.enc.codec_type [ audio ↦ 0x15 | _ ↦ 0x11 ])
    ⨾ put_byte 0
    ⨾ put_be16 0
    ⨾ put_be32 0
    ⨾ put_be32 0
    ⨾ (if length track.csd == 0 then [] else put_descr 5 (length track.csd) ⨾ put_buffer track.csd)
    ⨾ put_descr 6 1
    ⨾ put_byte 2

abbrev pub tag_mp4a : ℕ
tag_mp4a = mktag b'm' b'p' b'4' b'a'

abbrev pub tag_avc1 : ℕ
tag_avc1 = mktag b'a' b'v' b'c' b'1'

abbrev pub tag_mp4v : ℕ
tag_mp4v = mktag b'm' b'p' b'4' b'v'

unfoldable pub mov_get_audio_tag_size : MovTrack → ℕ
mov_get_audio_tag_size track =
    if track.tag == tag_mp4a then u32 (16 + 8 + 12 + mov_get_esds_tag_size track) else 16 + 8 + 12

-- `version` is the constant 0, so the extension for version 1 is never written.
unfoldable pub mov_write_audio_tag : MovTrack → Calls
mov_write_audio_tag track =
    put_be32 (mov_get_audio_tag_size track)
    ⨾ put_le32 track.tag
    ⨾ put_be32 0
    ⨾ put_be16 0
    ⨾ put_be16 1
    ⨾ put_be16 0
    ⨾ put_be16 0
    ⨾ put_be32 0
    ⨾ put_be16 track.enc.channels
    ⨾ put_be16 track.enc.bits_per_sample
    ⨾ put_be16 0
    ⨾ put_be16 0
    ⨾ put_be16 track.enc.sample_rate
    ⨾ put_be16 0
    ⨾ (if track.tag == tag_mp4a then mov_write_esds_tag track else [])

unfoldable pub mov_find_codec_tag : MovTrack → ℕ
mov_find_codec_tag track =
    let id = track.enc.codec_id in
    if id == codec_id_h264
    then tag_avc1
    else if id == codec_id_mpeg4
    then tag_mp4v
    else if id == codec_id_aac
    then tag_mp4a
    else if id == codec_id_pcm
    then mktag b's' b'o' b'w' b't'
    else if id == codec_id_adpcm
    then mktag b'm' b's' 0 0x11
    else if id == codec_id_mjpeg
    then mktag b'm' b'j' b'p' b'a'
    else track.enc.codec_tag

unfoldable pub mov_get_video_tag_size : MovTrack → ℕ
mov_get_video_tag_size track =
    if track.tag == tag_avc1
    then u32 (16 + 4 + 12 + 18 + 32 + 4 + mov_get_avcc_tag_size track)
    else if track.tag == tag_mp4v
    then u32 (16 + 4 + 12 + 18 + 32 + 4 + mov_get_esds_tag_size track)
    else 16 + 4 + 12 + 18 + 32 + 4

unfoldable pub mov_write_video_tag : MovTrack → Calls
mov_write_video_tag track =
    put_be32 (mov_get_video_tag_size track)
    ⨾ put_le32 track.tag
    ⨾ put_be32 0
    ⨾ put_be16 0
    ⨾ put_be16 1
    ⨾ put_be16 0
    ⨾ put_be16 0
    ⨾ put_be32 0
    ⨾ put_be32 0
    ⨾ put_be32 0
    ⨾ put_be16 track.enc.width
    ⨾ put_be16 track.enc.height
    ⨾ put_be32 0x0048_0000
    ⨾ put_be32 0x0048_0000
    ⨾ put_be32 0
    ⨾ put_be16 1
    ⨾ put_byte 0
    ⨾ put_buffer (replicate 31 0)
    ⨾ put_be16 0x18
    ⨾ put_be16 0xffff
    ⨾ (if track.tag == tag_avc1
        then mov_write_avcc_tag track
        else if track.tag == tag_mp4v
        then mov_write_esds_tag track
        else [])

unfoldable pub mov_get_stsd_tag_size : MovTrack → ℕ
mov_get_stsd_tag_size track = elim track.enc.codec_type [
  | video ↦ u32 (16 + mov_get_video_tag_size track)
  | audio ↦ u32 (16 + mov_get_audio_tag_size track)
  | max_type ↦ 16
]

unfoldable pub mov_write_stsd_tag : MovTrack → Calls
mov_write_stsd_tag track =
    put_be32 (mov_get_stsd_tag_size track)
    ⨾ put_tag (codes "stsd")
    ⨾ put_be32 0
    ⨾ put_be32 1
    ⨾ elim track.enc.codec_type [
      | video ↦ mov_write_video_tag track
      | audio ↦ mov_write_audio_tag track
      | max_type ↦ []
    ]
