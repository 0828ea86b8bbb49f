-- ===== src/Mp4/Samples/Durations.antt =====
-- The durations of Mp4Muxer.c: each video sample has one in `stts`.
use pluto_project.Base.{
  ℕ, ◌+◌, ◌≡◌, inl, inr, refl, sym, Bool, Option, none, some, arith, length, ◌==◌, Bool-cases,
  subst, if◌then◌else◌, u32,
}
use pluto_project.Mp4.{codec_id_h264, MovTrack, MovContext, update}
use pluto_project.Mp4.Put.{Calls}
use pluto_project.Mp4.Movie.{FormatContext}
use pluto_project.Mp4.Samples.Chunks.{tracks-wrap, tracks_first, tracks_next}
use pluto_project.Mp4.Packet.{
  Packet, store, count_cached, with_track, close_chunk, new_chunk, add_sample, add_duration,
  note_keyframe, nal_head, enter_chunk, add_frame, add_packet, end_packets, add_data,
  mov_write_packet, one_more_stco, one_more_stsc,
}

-- The video track, which is track 0, has as many durations as samples.
abbrev pub HasDurations : MovContext → Type 0
HasDurations m = (m.tracks 0).stts_size ≡ (m.tracks 0).stsz_size

abbrev SameSamples : MovTrack → MovTrack → Type 0
SameSamples t u = (u.stts_size ≡ t.stts_size) × (u.stsz_size ≡ t.stsz_size)

-- Beginning and ending chunks touches neither count.
begun_SameSamples :
    (k : ℕ) (f : ℕ → MovTrack) → SameSamples (f 0) (update f k (one_more_stco (f k)) 0)
begun_SameSamples k f = grind arith

switched_SameSamples :
    (j k : ℕ) (f : ℕ → MovTrack)
    → let begun = update f k (one_more_stco (f k)) in
      SameSamples (f 0) (update begun j (one_more_stsc (begun j)) 0)
switched_SameSamples j k f = grind arith

new_chunk-SameSamples :
    (k : ℕ) (m : MovContext) → SameSamples (m.tracks 0) ((new_chunk k m).tracks 0)
new_chunk-SameSamples k m = by_last m.last_stream_idx refl
  where
    moved :
        {f g : ℕ → MovTrack}
        → f ≡ g
        → SameSamples (m.tracks 0) (g 0)
        → SameSamples (m.tracks 0) (f 0)
    moved e = subst (λ (f : ℕ → MovTrack). SameSamples (m.tracks 0) (f 0)) (sym e)

    by_last :
        (last : Option ℕ)
        → m.last_stream_idx ≡ last
        → SameSamples (m.tracks 0) ((new_chunk k m).tracks 0)
    by_last none e = moved (tracks_first k m e) (begun_SameSamples k m.tracks)
    by_last (some j) e = moved (tracks_next j k m e) (switched_SameSamples j k m.tracks)

enter_chunk-SameSamples :
    (k : ℕ) (m : MovContext) → SameSamples (m.tracks 0) ((enter_chunk k m).tracks 0)
unfolding enter_chunk
enter_chunk-SameSamples k m = grind (arith, new_chunk-SameSamples k m)

end_packets-SameSamples : (m : MovContext) → SameSamples (m.tracks 0) ((end_packets m).2.tracks 0)
unfolding end_packets close_chunk with_track store
end_packets-SameSamples m = grind arith

add_sample_samples :
    (k size : ℕ) (m : MovContext)
    → (((add_sample k size m).tracks 0).stts_size ≡ (m.tracks 0).stts_size)
      × (((add_sample k size m).tracks 0).stsz_size
          ≡ (if k == 0 then u32 ((m.tracks 0).stsz_size + 1) else (m.tracks 0).stsz_size))
unfolding add_sample count_cached with_track store
add_sample_samples k size m = rw tracks-wrap (grind arith)

add_duration_samples :
    (d : ℕ) (m : MovContext)
    → (((add_duration d m).tracks 0).stts_size ≡ u32 ((m.tracks 0).stts_size + 1))
      × (((add_duration d m).tracks 0).stsz_size ≡ (m.tracks 0).stsz_size)
unfolding add_duration count_cached with_track store
add_duration_samples d m = rw tracks-wrap (grind arith)

note_keyframe-SameSamples :
    (h : ℕ) (m : MovContext) → SameSamples (m.tracks 0) ((note_keyframe h m).tracks 0)
unfolding note_keyframe with_track
note_keyframe-SameSamples h m = grind arith

-- A sample of stream 0 and its duration are counted together.
add_packet-HasDurations :
    (s : FormatContext) (pkt : Packet) (k : ℕ)
    → HasDurations s.mov
    → HasDurations (add_packet s pkt k).2
unfolding add_packet add_frame add_data
add_packet-HasDurations s pkt k h =
    let m0 = enter_chunk k s.mov in
    let n = length pkt.data0 + length pkt.data1 in
    let m1 = add_sample k n m0 in
    let m2 = add_duration pkt.duration m1 in
    let e0 = enter_chunk-SameSamples k s.mov in
    let e1 = add_sample_samples k n m0 in
    let e2 = add_duration_samples pkt.duration m1 in
    let e3 = note_keyframe-SameSamples (nal_head pkt) m2 in
    elim (Bool-cases (k == 0)) [
      | inr audio ↦ rw audio (grind arith)
      | inl video ↦ rw video (elim (Bool-cases ((s.streams 0).codec_id == codec_id_h264)) [
        | inl h264 ↦ rw h264 (grind arith)
        | inr other ↦ rw other (grind arith)
      ])
    ]

-- Every packet, of a stream or the last one, accepted or not, leaves the video track with as many
-- durations in `stts` as samples in `stsz`.
pub mov_write_packet-HasDurations :
    (s : FormatContext) (pkt : Packet)
    → HasDurations s.mov
    → HasDurations (mov_write_packet s pkt).2
unfolding mov_write_packet
mov_write_packet-HasDurations s pkt h = by_stream pkt.stream_idx
  where
    by_stream :
        (i : Option ℕ)
        → HasDurations
            (elim i as (λ _. Bool × Calls × MovContext) [
              | none ↦ end_packets s.mov
              | some k ↦ add_packet s pkt k
            ]).2
    by_stream none = let e = end_packets-SameSamples s.mov in grind arith
    by_stream (some k) = add_packet-HasDurations s pkt k h
