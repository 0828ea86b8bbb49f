-- ===== src/Mp4/Samples/Chunks.antt =====
-- The sample tables of Mp4Muxer.c agree with each other: a track has as many entries in `stsc` as
-- chunks in `stco`, and its video samples as many in `stts` as in `stsz`.
use pluto_project.Base.{
  ℕ, ◌+◌, ◌≡◌, inl, inr, refl, ap, sym, ◌∙◌, Bool, true, false, Option, none, some, List, [], ◌∷◌,
  arith, length, ◌==◌, Bool-cases, ==_iff, subst, if◌then◌else◌, u32,
}
use pluto_project.Mp4.{codec_id_h264, MovTrack, MovContext, update}
use pluto_project.Mp4.Put.{Calls}
use pluto_project.Mp4.Movie.{FormatContext}
use pluto_project.Mp4.Samples.Data.{write_packets}
use pluto_project.Mp4.Packet.{
  Packet, store, wrap, count_cached, with_track, close_chunk, new_chunk, add_sample, add_duration,
  note_keyframe, nal_head, enter_chunk, add_frame, add_packet, end_packets, add_data,
  mov_write_packet, one_more_stco, one_more_stsc, last_packet,
}

-- 1 for the stream whose chunk is not ended, else 0.
abbrev pub open_chunk : Option ℕ → ℕ → ℕ
open_chunk none i = 0
open_chunk (some j) i = if j == i then 1 else 0

-- Each track has as many chunks ended as begun, but for the one that the last packet went to.
abbrev pub HasChunks : Option ℕ → (ℕ → MovTrack) → Type 0
HasChunks last tracks =
    (i : ℕ) → (tracks i).stco_size ≡ u32 ((tracks i).stsc_size + open_chunk last i)

pub tracks-wrap : (id k : ℕ) (m : MovContext) → (wrap id k m).tracks ≡ m.tracks
unfolding wrap
tracks-wrap id k m = ground arith

-- The first chunk begins.
tracks_begun :
    (k : ℕ) (tracks : ℕ → MovTrack)
    → HasChunks none tracks
    → HasChunks (some k) (update tracks k (one_more_stco (tracks k)))
tracks_begun k tracks h i = grind (arith, h i)

-- The last chunk ends.
tracks_ended :
    (j : ℕ) (tracks : ℕ → MovTrack)
    → HasChunks (some j) tracks
    → HasChunks none (update tracks j (one_more_stsc (tracks j)))
tracks_ended j tracks h i = grind (arith, h i)

-- A chunk begins, and that of another stream ends.
tracks_switched :
    (j k : ℕ) (tracks : ℕ → MovTrack)
    → (k == j) ≡ false
    → HasChunks (some j) tracks
    → let begun = update tracks k (one_more_stco (tracks k)) in
      HasChunks (some k) (update begun j (one_more_stsc (begun j)))
tracks_switched j k tracks other h i = grind (arith, h i)

pub tracks_first :
    (k : ℕ) (m : MovContext)
    → m.last_stream_idx ≡ none
    → (new_chunk k m).tracks ≡ update m.tracks k (one_more_stco (m.tracks k))
unfolding new_chunk close_chunk count_cached with_track store
tracks_first k m e = rw (tracks-wrap, e) refl

pub tracks_next :
    (j k : ℕ) (m : MovContext)
    → m.last_stream_idx ≡ some j
    → (new_chunk k m).tracks ≡ (
        let begun = update m.tracks k (one_more_stco (m.tracks k)) in
        update begun j (one_more_stsc (begun j)))
unfolding new_chunk close_chunk count_cached with_track store
tracks_next j k m e = rw (tracks-wrap, e, tracks-wrap) refl

enter_chunk-HasChunks :
    (k : ℕ) (m : MovContext)
    → HasChunks m.last_stream_idx m.tracks
    → HasChunks (some k) (enter_chunk k m).tracks
unfolding enter_chunk
enter_chunk-HasChunks k m h = by_last m.last_stream_idx refl
  where
    chosen : Option ℕ → MovContext
    chosen last = elim last [ some j ↦ if k == j then m else new_chunk k m | none ↦ new_chunk k m ]

    by_last : (last : Option ℕ) → m.last_stream_idx ≡ last → HasChunks (some k) (chosen last).tracks
    by_last none e =
        subst (HasChunks (some k)) (sym (tracks_first k m e))
          (tracks_begun k m.tracks (subst (λ (o : Option ℕ). HasChunks o m.tracks) e h))
    by_last (some j) e = elim (Bool-cases (k == j)) [
      | inl same ↦
          let is = (==_iff k j).0 same in
          rw same (subst (λ (o : Option ℕ). HasChunks o m.tracks) (e ∙ ap some (sym is)) h)
      | inr other ↦ rw other (
          subst (HasChunks (some k)) (sym (tracks_next j k m e)) (
            tracks_switched j k m.tracks other
              (subst (λ (o : Option ℕ). HasChunks o m.tracks) e h)))
    ]

-- The chunk counts of every track are the same in both.
abbrev SameChunks : (ℕ → MovTrack) → (ℕ → MovTrack) → Type 0
SameChunks f g = (i : ℕ) → ((g i).stco_size ≡ (f i).stco_size) × ((g i).stsc_size ≡ (f i).stsc_size)

add_sample-SameChunks :
    (k size : ℕ) (m : MovContext) → SameChunks m.tracks (add_sample k size m).tracks
unfolding add_sample count_cached with_track store
add_sample-SameChunks k size m i = rw tracks-wrap (grind arith)

add_duration-SameChunks : (d : ℕ) (m : MovContext) → SameChunks m.tracks (add_duration d m).tracks
unfolding add_duration count_cached with_track store
add_duration-SameChunks d m i = rw tracks-wrap (grind arith)

note_keyframe-SameChunks : (h : ℕ) (m : MovContext) → SameChunks m.tracks (note_keyframe h m).tracks
unfolding note_keyframe with_track
note_keyframe-SameChunks h m i = grind arith

last-wrap : (id k : ℕ) (m : MovContext) → (wrap id k m).last_stream_idx ≡ m.last_stream_idx
unfolding wrap
last-wrap id k m = grind arith

last-add_sample : (k size : ℕ) (m : MovContext) → (add_sample k size m).last_stream_idx ≡ some k
unfolding add_sample count_cached with_track store
last-add_sample k size m = grind (arith, last-wrap)

last-add_duration :
    (d : ℕ) (m : MovContext) → (add_duration d m).last_stream_idx ≡ m.last_stream_idx
unfolding add_duration count_cached with_track store
last-add_duration d m = grind (arith, last-wrap)

last-note_keyframe :
    (h : ℕ) (m : MovContext) → (note_keyframe h m).last_stream_idx ≡ m.last_stream_idx
unfolding note_keyframe with_track
last-note_keyframe h m = grind arith

-- After a packet of a stream, its own chunk is open.
add_packet-HasChunks :
    (s : FormatContext) (pkt : Packet) (k : ℕ)
    → HasChunks s.mov.last_stream_idx s.mov.tracks
    → ((add_packet s pkt k).2.last_stream_idx ≡ some k)
      × HasChunks (some k) (add_packet s pkt k).2.tracks
unfolding add_packet add_frame add_data
add_packet-HasChunks s pkt k h =
    let m0 = enter_chunk k s.mov in
    let n = length pkt.data0 + length pkt.data1 in
    let m1 = add_sample k n m0 in
    let m2 = add_duration pkt.duration m1 in
    let h0 = enter_chunk-HasChunks k s.mov h in
    let e1 = add_sample-SameChunks k n m0 in
    let e2 = add_duration-SameChunks pkt.duration m1 in
    let e3 = note_keyframe-SameChunks (nal_head pkt) m2 in
    let l1 = last-add_sample k n m0 in
    let l2 = last-add_duration pkt.duration m1 in
    let l3 = last-note_keyframe (nal_head pkt) m2 in
    elim (Bool-cases (k == 0)) [
      | inr audio ↦ rw audio (l1, λ i. grind (arith, h0 i, e1 i))
      | inl video ↦ rw video (elim (Bool-cases ((s.streams 0).codec_id == codec_id_h264)) [
        | inl h264 ↦ rw h264 (l3 ∙ (l2 ∙ l1), λ i. grind (arith, h0 i, e1 i, e2 i, e3 i))
        | inr other ↦ rw other (l2 ∙ l1, λ i. grind (arith, h0 i, e1 i, e2 i))
      ])
    ]

-- A packet of stream `k` opens a chunk of its stream or goes into the open one, and ends the chunk
-- of any other: again each track has as many chunks ended as begun, but for the one of stream `k`.
pub mov_write_packet-HasChunks :
    (s : FormatContext) (pkt : Packet) (k : ℕ)
    → pkt.stream_idx ≡ some k
    → HasChunks s.mov.last_stream_idx s.mov.tracks
    → ((mov_write_packet s pkt).2.last_stream_idx ≡ some k)
      × HasChunks (some k) (mov_write_packet s pkt).2.tracks
unfolding mov_write_packet
mov_write_packet-HasChunks s pkt k e h =
    let r : Option ℕ → Bool × Calls × MovContext =
      λ i. elim i [ none ↦ end_packets s.mov | some j ↦ add_packet s pkt j ] in
    subst (λ (i : Option ℕ). ((r i).2.last_stream_idx ≡ some k) × HasChunks (some k) (r i).2.tracks)
      (sym e) (add_packet-HasChunks s pkt k h)

abbrev pub AllOfStreams : List Packet → Type 0
AllOfStreams [] = Unit
AllOfStreams (pkt ∷ pkts) = ((k : ℕ) × (pkt.stream_idx ≡ some k)) × AllOfStreams pkts

packets-HasChunks :
    (s : FormatContext) (pkts : List Packet)
    → AllOfStreams pkts
    → HasChunks s.mov.last_stream_idx s.mov.tracks
    → HasChunks (write_packets s pkts).2.last_stream_idx (write_packets s pkts).2.tracks
unfolding write_packets
packets-HasChunks s [] all h = h
packets-HasChunks s (pkt ∷ pkts) all h =
    let (k, e) = all.0 in
    let (last, h') = mov_write_packet-HasChunks s pkt k e h in
    packets-HasChunks (record s { mov = (mov_write_packet s pkt).2 }) pkts all.1
      (subst (λ (o : Option ℕ). HasChunks o (mov_write_packet s pkt).2.tracks) (sym last) h')

end_packets-HasChunks :
    (m : MovContext)
    → HasChunks m.last_stream_idx m.tracks
    → HasChunks none (end_packets m).2.tracks
unfolding end_packets close_chunk with_track store
end_packets-HasChunks m h = by_last m.last_stream_idx h
  where
    ended : Option ℕ → Bool × Calls × MovContext
    ended last = elim last [ none ↦ (true, [], m) | some j ↦ (true, [], close_chunk j m) ]

    by_last : (last : Option ℕ) → HasChunks last m.tracks → HasChunks none (ended last).2.tracks
    by_last none h' = h'
    by_last (some j) h' = tracks_ended j m.tracks h'

-- Once the packets of a file are written and the last packet of stream -1 has followed, each track
-- has as many entries in `stsc` as chunks in `stco`, as 32-bit counts.
pub stsc_size-stco_size :
    (s : FormatContext) (pkts : List Packet) (i : ℕ)
    → AllOfStreams pkts
    → HasChunks s.mov.last_stream_idx s.mov.tracks
    → let ended = (mov_write_packet (record s { mov = (write_packets s pkts).2 }) last_packet).2 in
      (ended.tracks i).stco_size ≡ u32 (ended.tracks i).stsc_size
unfolding mov_write_packet
stsc_size-stco_size s pkts i all h =
    let e = end_packets-HasChunks (write_packets s pkts).2 (packets-HasChunks s pkts all h) i in
    omega arith
