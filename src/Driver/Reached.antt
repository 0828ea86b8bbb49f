-- ===== src/Driver/Reached.antt =====
-- The movies that the calls of Mp4MuxerDrv.c can reach.
use pluto_project.Base.{
  ℕ, ◌+◌, ◌*◌, ◌≡◌, refl, subst, ◌∙◌, inl, inr, Bool, true, false, Option, none, some, List, [],
  arith, ◌==◌, if◌then◌else◌, Bool-cases, Ends,
}
use pluto_project.Base.Calls.{Calls}
use pluto_project.Mp4.Packet.{mov_write_packet, Packet}
use pluto_project.Mp4.Movie.{Op}
use pluto_project.Driver.{
  Files, IoctrlCmd, MediaTrackInfo, set_track_info, set_total_time, set_fallocate_len,
  set_tfcard_state, set_cache_mode, set_cache_size, set_stream_callback, set_stream_fd,
  set_stream_filepath, unknown_cmd, venc_codec_h264, venc_codec_jpeg,
}
use pluto_project.Driver.Mp4.{
  Mp4Context, open_context, mp4_muxer_open, on_track, on_codec, mp4_muxer_write_csd, count_track,
  set_video, set_video_codec, set_audio, mp4_set_track_info, mp4_set_total_time, mp4_file_cmd,
  mp4_muxer_ioctrl, begin_movie, mp4_make_writer, mp4_muxer_write_header, mp4_muxer_write_packet,
}
use pluto_project.Driver.Consistent.{Consistent}

-- 1 for a track description that the driver took, else 0.
abbrev pub taken : IoctrlCmd → Bool → ℕ
taken (set_track_info info) done = if done then 1 else 0
taken (set_total_time t) done = 0
taken (set_fallocate_len n) done = 0
taken (set_tfcard_state n) done = 0
taken (set_cache_mode n) done = 0
taken (set_cache_size n) done = 0
taken (set_stream_callback cb) done = 0
taken (set_stream_fd fd) done = 0
taken (set_stream_filepath path) done = 0
taken unknown_cmd done = 0

-- A driver that was opened, after any calls of its functions but the trailer: `n` track descriptions
-- were taken.
module _ (f : Files) where
  pub data Reached : ℕ → Mp4Context f → Type 0 where
    opened :
        (raw_time : ℕ) (words keyframes : ℕ → ℕ) (s : Mp4Context f)
        → mp4_muxer_open f true true true raw_time words keyframes ≡ some s
        → Reached 0 s
    controlled :
        (n : ℕ) (s : Mp4Context f) (cmd : IoctrlCmd)
        → Reached n s
        → Reached (n + taken cmd (mp4_muxer_ioctrl f cmd s).0) (mp4_muxer_ioctrl f cmd s).1
    given_csd :
        (n : ℕ) (s : Mp4Context f) (address : ℕ) (csd : List ℕ) (idx : ℕ)
        → Reached n s
        → Reached n (mp4_muxer_write_csd f address csd idx s)
    headed : (n : ℕ) (s : Mp4Context f) → Reached n s → Reached n (mp4_muxer_write_header f s).2
    written :
        (n : ℕ) (s : Mp4Context f) (pkt : Packet) (k : ℕ)
        → pkt.stream_idx ≡ some k
        → Reached n s
        → Reached n (mp4_muxer_write_packet f pkt s).2

  opened-Consistent :
      (raw_time : ℕ) (words keyframes : ℕ → ℕ) (s : Mp4Context f)
      → mp4_muxer_open f true true true raw_time words keyframes ≡ some s
      → Consistent f s × (s.fmt.track_cnt ≡ 0)
  unfolding mp4_muxer_open open_context
  opened-Consistent raw_time words keyframes s e =
      subst (Ends (λ (t : Mp4Context f). Consistent f t × (t.fmt.track_cnt ≡ 0))) e
        (record { durations = refl; chunks = λ i. refl }, refl)

  track_info_cnt :
      (info : Option MediaTrackInfo) (s : Mp4Context f)
      → (mp4_set_track_info f info s).1.fmt.track_cnt
        ≡ s.fmt.track_cnt + 2 * taken (set_track_info info) (mp4_set_track_info f info s).0
  unfolding mp4_set_track_info count_track set_video set_video_codec set_audio on_track on_codec
  track_info_cnt none s = omega arith
  track_info_cnt (some info) s = elim (Bool-cases (info.video_enc_type == venc_codec_h264)) [
    | inl avc ↦ rw avc (omega arith)
    | inr other ↦ elim (Bool-cases (info.video_enc_type == venc_codec_jpeg)) [
      | inl jpeg ↦ rw (other, jpeg) (omega arith)
      | inr unknown ↦ rw (other, unknown) (omega arith)
    ]
  ]

  ioctrl_cnt :
      (cmd : IoctrlCmd) (s : Mp4Context f)
      → (mp4_muxer_ioctrl f cmd s).1.fmt.track_cnt
        ≡ s.fmt.track_cnt + 2 * taken cmd (mp4_muxer_ioctrl f cmd s).0
  unfolding mp4_muxer_ioctrl mp4_file_cmd mp4_set_total_time on_track
  ioctrl_cnt (set_track_info info) s = track_info_cnt info s
  ioctrl_cnt (set_total_time t) s = omega arith
  ioctrl_cnt (set_fallocate_len n) s = omega arith
  ioctrl_cnt (set_tfcard_state n) s = omega arith
  ioctrl_cnt (set_cache_mode n) s = omega arith
  ioctrl_cnt (set_cache_size n) s = omega arith
  ioctrl_cnt (set_stream_callback cb) s = omega arith
  ioctrl_cnt (set_stream_fd fd) s = omega arith
  ioctrl_cnt (set_stream_filepath path) s = omega arith
  ioctrl_cnt unknown_cmd s = omega arith

  header_cnt : (s : Mp4Context f) → (mp4_muxer_write_header f s).2.fmt.track_cnt ≡ s.fmt.track_cnt
  unfolding mp4_muxer_write_header begin_movie
  header_cnt s = by_files s.files.cache_writer s.files.stream
    where
      by_made :
          (w : Option f.Writer)
          → (elim w as (λ _. Bool × List Op × Mp4Context f) [
            | none ↦ (false, [], s)
            | some w' ↦
                begin_movie f (record s { files = record (s.files) { cache_writer = some w' } })
          ]).2.fmt.track_cnt
            ≡ s.fmt.track_cnt
      by_made none = refl
      by_made (some w) = refl

      by_files :
          (w : Option f.Writer) (st : Option f.Stream)
          → (elim w as (λ _. Bool × List Op × Mp4Context f) [
            | some w' ↦ (false, [], s)
            | none ↦ elim st as (λ _. Bool × List Op × Mp4Context f) [
              | none ↦ begin_movie f s
              | some st' ↦ elim (mp4_make_writer f st' s) [
                | none ↦ (false, [], s)
                | some w' ↦
                    begin_movie f (record s { files = record (s.files) { cache_writer = some w' } })
              ]
            ]
          ]).2.fmt.track_cnt
            ≡ s.fmt.track_cnt
      by_files (some w) st = refl
      by_files none none = refl
      by_files none (some st) = by_made (mp4_make_writer f st s)

  -- In every such state there are two tracks for each track description that the driver took, however
  -- many these are; the arrays of the muxer have room for two tracks.
  pub reached_track_cnt : (n : ℕ) (s : Mp4Context f) → Reached n s → s.fmt.track_cnt ≡ 2 * n
  unfolding mp4_muxer_write_csd mp4_muxer_write_packet on_track
  reached_track_cnt n s (opened raw_time words keyframes t e) =
      (opened-Consistent raw_time words keyframes t e).1 ∙ omega arith
  reached_track_cnt n s (controlled m t cmd r) =
      let h = reached_track_cnt m t r in omega (arith, ioctrl_cnt cmd t)
  reached_track_cnt n s (given_csd m t address csd idx r) = reached_track_cnt m t r
  reached_track_cnt n s (headed m t r) = header_cnt t ∙ reached_track_cnt m t r
  reached_track_cnt n s (written m t pkt k e r) =
      by_writer (reached_track_cnt m t r) t.files.cache_writer
    where
      after : Mp4Context f
      after = record t { fmt = record (t.fmt) { mov = (mov_write_packet t.fmt pkt).2 } }

      by_writer :
          t.fmt.track_cnt ≡ 2 * m
          → (w : Option f.Writer)
          → (elim w as (λ _. Bool × Calls × Mp4Context f) [
            | none ↦ (false, [], t)
            | some w' ↦ ((mov_write_packet t.fmt pkt).0, (mov_write_packet t.fmt pkt).1, after)
          ]).2.fmt.track_cnt
            ≡ 2 * m
      by_writer h none = h
      by_writer h (some w) = h
