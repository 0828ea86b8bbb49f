-- ===== src/Driver/Consistent.antt =====
-- What every call of Mp4MuxerDrv.c keeps of the sample tables.
use pluto_project.Base.{
  ℕ, ◌+◌, ◌≡◌, refl, inl, inr, sym, ap, subst, ◌∙◌, Bool, false, Option, none, some, List, [], ◌==◌,
  update, Bool-cases, u32, zero, suc, update_hit, update_miss,
}
use native.Mathlib.Decide.{ℕ_discrete}
use pluto_project.Mp4.{MovTrack, MovContext, Codec, codec_id_h264, codec_id_mjpeg}
use pluto_project.Base.Calls.{Calls}
use pluto_project.Mp4.Movie.{Op, bind_codecs, mov_write_header, mov_write_mdat_tag}
use pluto_project.Mp4.Packet.{Packet, mov_write_packet}
use pluto_project.Mp4.Samples.Chunks.{HasChunks, open_chunk, mov_write_packet-HasChunks}
use pluto_project.Mp4.Samples.Durations.{HasDurations, mov_write_packet-HasDurations}
use pluto_project.Driver.{
  Files, IoctrlCmd, MediaTrackInfo, set_track_info, set_total_time, set_fallocate_len,
  set_tfcard_state, set_cache_mode, set_cache_size, set_stream_callback, set_stream_fd,
  set_stream_filepath, unknown_cmd, venc_codec_h264, venc_codec_jpeg,
}
use pluto_project.Driver.Mp4.{
  Mp4Context, on_track, on_codec, mp4_muxer_write_csd, count_track, set_video, set_video_codec,
  set_audio, mp4_set_track_info, mp4_set_total_time, mp4_file_cmd, mp4_muxer_ioctrl, begin_movie,
  mp4_make_writer, mp4_muxer_write_header, mp4_muxer_write_packet,
}

-- The sample tables agree: durations with samples, and chunks ended with chunks begun.
pub record IsConsistent (m : MovContext) : Type 0 where
  pub durations : HasDurations m
  pub chunks : HasChunks m.last_stream_idx m.tracks

-- The counts of a track.
abbrev pub SameCounts : MovTrack → MovTrack → Type 0
SameCounts t u =
    (u.stts_size ≡ t.stts_size)
    × (u.stsz_size ≡ t.stsz_size)
    × (u.stco_size ≡ t.stco_size)
    × (u.stsc_size ≡ t.stsc_size)

quiet-IsConsistent :
    (m m' : MovContext)
    → m'.last_stream_idx ≡ m.last_stream_idx
    → ((i : ℕ) → SameCounts (m.tracks i) (m'.tracks i))
    → IsConsistent m
    → IsConsistent m'
quiet-IsConsistent m m' last same h = record {
  durations = (same 0).0 ∙ h.durations ∙ sym (same 0).1;
  chunks =
      subst (λ l. HasChunks l m'.tracks) (sym last)
        (λ i.
          (same i).2
          ∙ h.chunks i
          ∙ ap (λ (n : ℕ). u32 (n + open_chunk m.last_stream_idx i)) (sym (same i).3));
}

updated_counts :
    (tracks : ℕ → MovTrack) (k : ℕ) (t : MovTrack)
    → SameCounts (tracks k) t
    → (i : ℕ) → SameCounts (tracks i) (update tracks k t i)
updated_counts tracks k t same i = elim (ℕ_discrete k i) [
  | yes here ↦
      subst (λ j. SameCounts (tracks j) (update tracks k t j)) here
        (subst (SameCounts (tracks k)) (sym (update_hit tracks k t)) same)
  | no there ↦
      subst (SameCounts (tracks i)) (sym (update_miss tracks k t i there)) (refl, refl, refl, refl)
]

module _ (f : Files) where
  abbrev pub Consistent : Mp4Context f → Type 0
  Consistent s = IsConsistent s.fmt.mov

  on_track-Consistent :
      (k : ℕ) (change : MovTrack → MovTrack) (s : Mp4Context f)
      → ((t : MovTrack) → SameCounts t (change t))
      → Consistent s
      → Consistent (on_track f k change s)
  unfolding on_track
  on_track-Consistent k change s quiet h =
      quiet-IsConsistent s.fmt.mov (on_track f k change s).fmt.mov refl
        (updated_counts s.fmt.mov.tracks k (change (s.fmt.mov.tracks k))
          (quiet (s.fmt.mov.tracks k)))
        h

  set_video-Consistent :
      (info : MediaTrackInfo) (s : Mp4Context f) → Consistent s → Consistent (set_video f info s)
  unfolding set_video on_codec
  set_video-Consistent info s h = on_track-Consistent 0 _ _ (λ t. (refl, refl, refl, refl)) h

  set_audio-Consistent :
      (info : MediaTrackInfo) (s : Mp4Context f) → Consistent s → Consistent (set_audio f info s)
  unfolding set_audio on_codec
  set_audio-Consistent info s h = on_track-Consistent 1 _ _ (λ t. (refl, refl, refl, refl)) h

  tracks-Consistent :
      (id : ℕ) (info : MediaTrackInfo) (s : Mp4Context f)
      → Consistent s
      → Consistent (count_track f (set_audio f info (count_track f (set_video_codec f id s))))
  unfolding count_track set_video_codec on_codec
  tracks-Consistent id info s h = set_audio-Consistent info _ h

  track_info-Consistent :
      (info : Option MediaTrackInfo) (s : Mp4Context f)
      → Consistent s
      → Consistent (mp4_set_track_info f info s).1
  unfolding mp4_set_track_info
  track_info-Consistent none s h = h
  track_info-Consistent (some info) s h =
      let h1 = set_video-Consistent info s h in
      elim (Bool-cases (info.video_enc_type == venc_codec_h264)) [
        | inl avc ↦ rw avc (tracks-Consistent codec_id_h264 info _ h1)
        | inr other ↦ elim (Bool-cases (info.video_enc_type == venc_codec_jpeg)) [
          | inl jpeg ↦ rw (other, jpeg) (tracks-Consistent codec_id_mjpeg info _ h1)
          | inr unknown ↦ rw (other, unknown) h1
        ]
      ]

  total_time-Consistent :
      (t : ℕ) (s : Mp4Context f) → Consistent s → Consistent (mp4_set_total_time f t s)
  unfolding mp4_set_total_time
  total_time-Consistent t s h =
      on_track-Consistent 1 _ _ (λ t. (refl, refl, refl, refl))
        (on_track-Consistent 0 _ _ (λ t. (refl, refl, refl, refl)) h)

  pub ioctrl-Consistent :
      (cmd : IoctrlCmd) (s : Mp4Context f) → Consistent s → Consistent (mp4_muxer_ioctrl f cmd s).1
  unfolding mp4_muxer_ioctrl mp4_file_cmd
  ioctrl-Consistent (set_track_info info) s h = track_info-Consistent info s h
  ioctrl-Consistent (set_total_time t) s h = total_time-Consistent t s h
  ioctrl-Consistent (set_fallocate_len n) s h = h
  ioctrl-Consistent (set_tfcard_state n) s h = h
  ioctrl-Consistent (set_cache_mode n) s h = h
  ioctrl-Consistent (set_cache_size n) s h = h
  ioctrl-Consistent (set_stream_callback cb) s h = h
  ioctrl-Consistent (set_stream_fd fd) s h = h
  ioctrl-Consistent (set_stream_filepath path) s h = h
  ioctrl-Consistent unknown_cmd s h = h

  pub csd-Consistent :
      (address : ℕ) (csd : List ℕ) (idx : ℕ) (s : Mp4Context f)
      → Consistent s
      → Consistent (mp4_muxer_write_csd f address csd idx s)
  unfolding mp4_muxer_write_csd
  csd-Consistent address csd idx s h = on_track-Consistent idx _ s (λ t. (refl, refl, refl, refl)) h

  bound-IsConsistent :
      (streams : ℕ → Codec) (n : ℕ) (m : MovContext)
      → IsConsistent m
      → IsConsistent (bind_codecs streams n m)
  unfolding bind_codecs
  bound-IsConsistent streams zero m h = h
  bound-IsConsistent streams (suc n) m h =
      let m' = bind_codecs streams n m in
      quiet-IsConsistent m' (bind_codecs streams (suc n) m) refl
        (updated_counts m'.tracks n _ (refl, refl, refl, refl)) (bound-IsConsistent streams n m h)

  begin-Consistent : (s : Mp4Context f) → Consistent s → Consistent (begin_movie f s).2
  unfolding begin_movie mov_write_header mov_write_mdat_tag
  begin-Consistent s h =
      let b = bound-IsConsistent s.fmt.streams s.fmt.track_cnt s.fmt.mov h in
      record { durations = b.durations; chunks = b.chunks }

  pub header-Consistent :
      (s : Mp4Context f) → Consistent s → Consistent (mp4_muxer_write_header f s).2
  unfolding mp4_muxer_write_header
  header-Consistent s h = by_files s.files.cache_writer s.files.stream
    where
      by_made :
          (w : Option f.Writer)
          → Consistent
              (elim w as (λ _. Bool × List Op × Mp4Context f) [
                | none ↦ (false, [], s)
                | some w' ↦
                    begin_movie f (record s { files = record (s.files) { cache_writer = some w' } })
              ]).2
      by_made none = h
      by_made (some w) = begin-Consistent _ h

      by_files :
          (w : Option f.Writer) (st : Option f.Stream)
          → Consistent
              (elim w as (λ _. Bool × List Op × Mp4Context f) [
                | some w' ↦ (false, [], s)
                | none ↦ elim st as (λ _. Bool × List Op × Mp4Context f) [
                  | none ↦ begin_movie f s
                  | some st' ↦ elim (mp4_make_writer f st' s) [
                    | none ↦ (false, [], s)
                    | some w' ↦
                        begin_movie f
                          (record s { files = record (s.files) { cache_writer = some w' } })
                  ]
                ]
              ]).2
      by_files (some w) st = h
      by_files none none = begin-Consistent s h
      by_files none (some st) = by_made (mp4_make_writer f st s)

  pub packet-Consistent :
      (pkt : Packet) (k : ℕ) (s : Mp4Context f)
      → pkt.stream_idx ≡ some k
      → Consistent s
      → Consistent (mp4_muxer_write_packet f pkt s).2
  unfolding mp4_muxer_write_packet
  packet-Consistent pkt k s e h = by_writer s.files.cache_writer
    where
      after : Mp4Context f
      after = record s { fmt = record (s.fmt) { mov = (mov_write_packet s.fmt pkt).2 } }

      accepted : Consistent after
      accepted =
          let c = mov_write_packet-HasChunks s.fmt pkt k e h.chunks in
          record {
            durations = mov_write_packet-HasDurations s.fmt pkt h.durations;
            chunks = subst (λ l. HasChunks l (mov_write_packet s.fmt pkt).2.tracks) (sym c.0) c.1;
          }

      by_writer :
          (w : Option f.Writer)
          → Consistent
              (elim w as (λ _. Bool × Calls × Mp4Context f) [
                | none ↦ (false, [], s)
                | some w' ↦ ((mov_write_packet s.fmt pkt).0, (mov_write_packet s.fmt pkt).1, after)
              ]).2
      by_writer none = h
      by_writer (some w) = accepted
