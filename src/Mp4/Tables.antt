-- ===== src/Mp4/Tables.antt =====
-- The sample tables of Mp4Muxer.c: `stco`, `stsz`, `stsc`, `stss` and `stts`.
use pluto_project.Base.{ℕ, zero, suc, ◌+◌, ◌*◌, [], u32, ◌==◌, if◌then◌else◌}
use pluto_project.Mp4.{
  video, audio, max_type, MovTrack, MovContext, stco_id, stsz_id, stsc_id, stts_id, update₂,
}
use pluto_project.Mp4.Put.{Calls, ◌⨾◌, Emit, emit, ◌>>◌, codes, put_be32, put_tag}

-- `mov->cache_read_ptr[id][k]++`
abbrev pub advance : ℕ → ℕ → MovContext → MovContext
advance id k mov = record mov { read_ptr = update₂ mov.read_ptr id k (mov.read_ptr id k + 1) }

-- `put_be32_cache(mov, pb, *mov->cache_read_ptr[id][k]++)`
abbrev pub put_entry : ℕ → ℕ → Emit
put_entry id k mov = (put_be32 (mov.words (mov.read_ptr id k)), advance id k mov)

-- The loop over `n` entries of a table.
unfoldable pub put_entries : ℕ → ℕ → ℕ → Emit
put_entries id k zero = emit []
put_entries id k (suc n) = put_entry id k >> put_entries id k n

unfoldable pub mov_get_stco_tag_size : MovTrack → ℕ
mov_get_stco_tag_size track = u32 ((track.stco_size + 4) * 4)

unfoldable pub mov_write_stco_tag : MovTrack → Emit
mov_write_stco_tag track =
    emit (
      put_be32 (mov_get_stco_tag_size track)
      ⨾ put_tag (codes "stco")
      ⨾ put_be32 0
      ⨾ put_be32 track.stco_size)
    >> (if track.stco_tiny_pages == 0
        then put_entries stco_id track.stream_type track.stco_size
        else emit [])

unfoldable pub mov_get_stsz_tag_size : MovTrack → ℕ
mov_get_stsz_tag_size track = u32 ((track.stsz_size + 5) * 4)

unfoldable pub mov_write_stsz_tag : MovTrack → Emit
mov_write_stsz_tag track =
    emit (
      put_be32 (mov_get_stsz_tag_size track)
      ⨾ put_tag (codes "stsz")
      ⨾ put_be32 0
      ⨾ put_be32 0
      ⨾ put_be32 track.stsz_size)
    >> (if track.stsz_tiny_pages == 0
        then put_entries stsz_id track.stream_type track.stsz_size
        else emit [])

unfoldable pub mov_get_stsc_tag_size : MovTrack → ℕ
mov_get_stsc_tag_size track = u32 ((track.stsc_size * 3 + 4) * 4)

-- The loop of `stsc` at chunk `i`, with `n` left.
unfoldable pub put_chunks : ℕ → ℕ → ℕ → Emit
put_chunks k zero i = emit []
put_chunks k (suc n) i =
    emit (put_be32 (i + 1)) >> put_entry stsc_id k >> emit (put_be32 1) >> put_chunks k n (i + 1)

unfoldable pub mov_write_stsc_tag : MovTrack → Emit
mov_write_stsc_tag track =
    emit (
      put_be32 (mov_get_stsc_tag_size track)
      ⨾ put_tag (codes "stsc")
      ⨾ put_be32 0
      ⨾ put_be32 track.stsc_size)
    >> (if track.stsc_tiny_pages == 0
        then put_chunks track.stream_type track.stsc_size 0
        else emit [])

unfoldable pub mov_get_stss_tag_size : MovTrack → ℕ
mov_get_stss_tag_size track = u32 ((track.key_frame_num + 4) * 4)

-- The loop of `stss` at key frame `i`, with `n` left.
unfoldable pub put_keyframes : (ℕ → ℕ) → ℕ → ℕ → Calls
put_keyframes keyframes zero i = []
put_keyframes keyframes (suc n) i = put_be32 (keyframes i) ⨾ put_keyframes keyframes n (i + 1)

unfoldable pub mov_write_stss_tag : MovTrack → Emit
mov_write_stss_tag track mov =
    emit
      (put_be32 (mov_get_stss_tag_size track)
        ⨾ put_tag (codes "stss")
        ⨾ put_be32 0
        ⨾ put_be32 track.key_frame_num
        ⨾ put_keyframes mov.keyframes track.key_frame_num 0)
      mov

unfoldable pub mov_get_stts_tag_size : MovTrack → ℕ
mov_get_stts_tag_size track = elim track.enc.codec_type [
  | audio ↦ 16 + 1 * 8
  | video ↦ u32 (16 + track.stts_size * 8)
  | max_type ↦ 0
]

-- The rounds of the `stts` loop that write: a count of 1 and a duration.
unfoldable pub put_durations : ℕ → ℕ → Emit
put_durations k zero = emit []
put_durations k (suc n) = emit (put_be32 1) >> put_entry stts_id k >> put_durations k n

-- The `stts` loop: its first round only moves the pointer on.
unfoldable pub skip_then_durations : ℕ → ℕ → Emit
skip_then_durations k zero mov = ([], mov)
skip_then_durations k (suc n) mov = put_durations k n (advance stts_id k mov)

unfoldable pub mov_write_stts_tag : MovTrack → Emit
mov_write_stts_tag track = elim track.enc.codec_type [
  | audio ↦ emit (
      put_be32 (16 + 1 * 8)
      ⨾ put_tag (codes "stts")
      ⨾ put_be32 0
      ⨾ put_be32 1
      ⨾ put_be32 track.stsz_size
      ⨾ put_be32 track.enc.frame_size)
  | video ↦
      emit (
        put_be32 (u32 (16 + track.stts_size * 8))
        ⨾ put_tag (codes "stts")
        ⨾ put_be32 0
        ⨾ put_be32 track.stts_size)
      >> (if track.stts_tiny_pages == 0
          then skip_then_durations track.stream_type track.stts_size
          else emit [])
      >> emit (put_be32 1 ⨾ put_be32 0)
  | max_type ↦ emit []
]
