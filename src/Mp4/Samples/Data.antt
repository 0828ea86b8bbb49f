-- ===== src/Mp4/Samples/Data.antt =====
-- The size of `mdat` in Mp4Muxer.c: the muxer counts exactly the bytes that it puts there.
use pluto_project.Base.{
  ℕ, zero, suc, ◌+◌, ◌-◌, ◌^◌, ◌≤◌, ◌<◌, ◌≡◌, ◌⊎◌, inl, inr, refl, ap, ◌∙◌, Bool, true, false,
  Option, none, some, List, [], ◌∷◌, ◌++◌, arith, length, drop, length-drop, length-append,
  append-nil, drop-append_within, drop-append_past, leb, ◌==◌, Bool-cases, if◌then◌else◌, ==_iff,
  u32, ◌&&◌,
}
use pluto_project.Mp4.{codec_id_h264, MovContext}
use pluto_project.Mp4.Put.{
  Calls, size_of, size_of-append, length-be32, bswap32, word_bytes, be32, put_be32, put_tag, codes,
  ◌⨾◌,
}
use pluto_project.Cache.Transparent.{flatten}
use pluto_project.Mp4.Avc.{av_rb32}
use pluto_project.Mp4.Words.{av_rb32-be32}
use pluto_project.Mp4.Movie.{FormatContext}
use pluto_project.Mp4.Packet.{
  Packet, store, wrap, count_cached, with_track, close_chunk, new_chunk, add_sample, add_duration,
  note_keyframe, nal_head, enter_chunk, add_frame, add_packet, end_packets, plain_data, sized_data,
  add_data, mov_write_packet,
}

mdat-wrap : (id k : ℕ) (m : MovContext) → (wrap id k m).mdat_size ≡ m.mdat_size
unfolding wrap
mdat-wrap id k m = ground arith

mdat-new_chunk : (k : ℕ) (m : MovContext) → (new_chunk k m).mdat_size ≡ m.mdat_size
unfolding new_chunk close_chunk count_cached with_track store
mdat-new_chunk k m = grind (arith, mdat-wrap)

mdat-add_sample : (k size : ℕ) (m : MovContext) → (add_sample k size m).mdat_size ≡ m.mdat_size
unfolding add_sample count_cached with_track store
mdat-add_sample k size m = grind (arith, mdat-wrap)

mdat-add_duration : (d : ℕ) (m : MovContext) → (add_duration d m).mdat_size ≡ m.mdat_size
unfolding add_duration count_cached with_track store
mdat-add_duration d m = grind (arith, mdat-wrap)

mdat-note_keyframe : (h : ℕ) (m : MovContext) → (note_keyframe h m).mdat_size ≡ m.mdat_size
unfolding note_keyframe with_track
mdat-note_keyframe h m = ground arith

size-plain_data : (pkt : Packet) → size_of (plain_data pkt) ≡ length pkt.data0 + length pkt.data1
unfolding plain_data
size-plain_data pkt = ground arith

-- A frame that is all in `data1`, or that is at least as long as its start code.
abbrev pub IsFramed : Packet → Type 0
IsFramed pkt = (length pkt.data0 ≡ 0) ⊎ (4 ≤ length pkt.data0 + length pkt.data1)

size-sized_data :
    (pkt : Packet) → IsFramed pkt → size_of (sized_data pkt) ≡ length pkt.data0 + length pkt.data1
unfolding sized_data plain_data word_bytes
size-sized_data pkt h = elim (Bool-cases (length pkt.data0 == 0)) [
  | inl none0 ↦ rw none0 (ground arith)
  | inr some0 ↦ rw some0 (elim (Bool-cases (leb (length pkt.data0) 4)) [
    | inl short ↦ rw short (elim (Bool-cases (length pkt.data1 == 0)) [
      | inl none1 ↦ rw none1 (ground arith)
      | inr some1 ↦ rw some1 (ground (arith, length-drop (4 - length pkt.data0) pkt.data1))
    ])
    | inr long ↦ rw long (elim (Bool-cases (length pkt.data1 == 0)) [
      | inl none1 ↦ rw none1 (ground (arith, length-drop 4 pkt.data0))
      | inr some1 ↦ rw some1 (ground (arith, length-drop 4 pkt.data0))
    ])
  ])
]

mdat-enter_chunk : (k : ℕ) (m : MovContext) → (enter_chunk k m).mdat_size ≡ m.mdat_size
unfolding enter_chunk
mdat-enter_chunk k m = grind (arith, mdat-new_chunk k m)

-- What a packet adds to `mdat_size` is what it writes.
abbrev Counted : MovContext → Bool × Calls × MovContext → Type 0
Counted m r = r.0 ≡ true → r.2.mdat_size ≡ m.mdat_size + size_of r.1

add_data-Counted :
    (size : ℕ) (calls : Calls) (m m' : MovContext)
    → size_of calls ≡ size
    → m'.mdat_size ≡ m.mdat_size
    → Counted m (add_data size calls m')
unfolding add_data
add_data-Counted size calls m m' h e done = omega arith

add_frame-Counted :
    (s : FormatContext) (pkt : Packet) (m m' : MovContext)
    → IsFramed pkt
    → m'.mdat_size ≡ m.mdat_size
    → Counted m (add_frame s pkt (length pkt.data0 + length pkt.data1) m')
unfolding add_frame
add_frame-Counted s pkt m m' h e = elim (Bool-cases ((s.streams 0).codec_id == codec_id_h264)) [
  | inr other ↦ rw other (λ no. absurd (ground arith))
  | inl h264 ↦ rw h264 (
      add_data-Counted _ _ m _ size
        (mdat-note_keyframe (nal_head pkt) _ ∙ (mdat-add_duration pkt.duration m' ∙ e)))
]
  where
    size :
        size_of
          (if (length pkt.data0 + length pkt.data1) == 0 then plain_data pkt else sized_data pkt)
        ≡ length pkt.data0 + length pkt.data1
    size = grind (arith, size-plain_data pkt, size-sized_data pkt h)

add_packet-Counted :
    (s : FormatContext) (pkt : Packet) (k : ℕ)
    → (k ≡ 0 → IsFramed pkt)
    → Counted s.mov (add_packet s pkt k)
unfolding add_packet
add_packet-Counted s pkt k h =
    let e =
      mdat-add_sample k (length pkt.data0 + length pkt.data1) (enter_chunk k s.mov)
      ∙ mdat-enter_chunk k s.mov in
    elim (Bool-cases (k == 0)) [
      | inl video ↦ rw video (add_frame-Counted s pkt s.mov _ (h ((==_iff k 0).0 video)) e)
      | inr audio ↦ rw audio (add_data-Counted _ _ s.mov _ (size-plain_data pkt) e)
    ]

end_packets-Counted : (m : MovContext) → Counted m (end_packets m)
unfolding end_packets close_chunk with_track store
end_packets-Counted m done = grind arith

-- Each packet that `mov_write_packet` accepts adds to `mdat_size` the number of bytes that it puts
-- out, if a frame of stream 0 that is not in `data1` alone is no shorter than its start code.
pub mov_write_packet-mdat_size :
    (s : FormatContext) (pkt : Packet)
    → (pkt.stream_idx ≡ some 0 → IsFramed pkt)
    → (mov_write_packet s pkt).0 ≡ true
    → (mov_write_packet s pkt).2.mdat_size ≡ s.mov.mdat_size + size_of (mov_write_packet s pkt).1
unfolding mov_write_packet
mov_write_packet-mdat_size s pkt framed = by_stream pkt.stream_idx framed
  where
    by_stream :
        (i : Option ℕ)
        → (i ≡ some 0 → IsFramed pkt)
        → Counted s.mov (elim i [ none ↦ end_packets s.mov | some k ↦ add_packet s pkt k ])
    by_stream none h = end_packets-Counted s.mov
    by_stream (some k) h = add_packet-Counted s pkt k (λ e. h (ap some e))

-- The packets of a file one after another: whether all were accepted, and all their output.
unfoldable pub write_packets : FormatContext → List Packet → Bool × Calls × MovContext
write_packets s [] = (true, [], s.mov)
write_packets s (pkt ∷ pkts) =
    let (done, a, mov) = mov_write_packet s pkt in
    let (done', b, mov') = write_packets (record s { mov = mov }) pkts in
    (done && done', a ++ b, mov')

abbrev pub AllFramed : List Packet → Type 0
AllFramed [] = Unit
AllFramed (pkt ∷ pkts) = (pkt.stream_idx ≡ some 0 → IsFramed pkt) × AllFramed pkts

packets-Counted :
    (s : FormatContext) (pkts : List Packet) → AllFramed pkts → Counted s.mov (write_packets s pkts)
unfolding write_packets
packets-Counted s [] all done = omega arith
packets-Counted s (pkt ∷ pkts) all done =
    let here = mov_write_packet-mdat_size s pkt all.0 in
    let (ok, a, mov) = mov_write_packet s pkt in
    let there = packets-Counted (record s { mov = mov }) pkts all.1 in
    let first : (mov_write_packet s pkt).0 ≡ true = ground arith in
    let rest : (write_packets (record s { mov = mov }) pkts).0 ≡ true = ground arith in
    let e = here first in
    let e' = there rest in
    omega (arith, size_of-append a (write_packets (record s { mov = mov }) pkts).1)

-- For packets that are all accepted, written behind the head of an `mdat` box, the number that the
-- trailer puts over the size of that box is, read back, the size of the box with all their data, if
-- it fits the 32 bits of the field.
pub mdat_size-box :
    (s : FormatContext) (pkts : List Packet)
    → s.mov.mdat_size ≡ 0
    → AllFramed pkts
    → (write_packets s pkts).0 ≡ true
    → (write_packets s pkts).2.mdat_size + 8 < 2 ^ 32
    → av_rb32 (be32 ((write_packets s pkts).2.mdat_size + 8)) 0
      ≡ size_of (put_be32 0 ⨾ put_tag (codes "mdat") ⨾ (write_packets s pkts).1)
mdat_size-box s pkts empty all done small =
    let e = packets-Counted s pkts all done in
    omega (arith, length-be32 0, av_rb32-be32 ((write_packets s pkts).2.mdat_size + 8) small)

piece : (n : ℕ) (bs : List ℕ) → flatten (if length bs == 0 then [] else drop n bs ∷ []) ≡ drop n bs
piece zero [] = refl
piece (suc n) [] = refl
piece n (b ∷ bs) =
    let full : (length (b ∷ bs) == 0) ≡ false = ground arith in
    rw full (append-nil (drop n (b ∷ bs)))

length_field :
    (size : ℕ)
    → 4 ≤ size
    → size < 2 ^ 32
    → word_bytes (bswap32 (u32 (size + 2 ^ 32 - 4))) ≡ be32 (size - 4)
unfolding be32
length_field size h small = ap (λ (v : ℕ). word_bytes (bswap32 v)) (omega arith)

-- A frame of at least four bytes and less than 2 ^ 32, of which the first piece is not empty, is written
-- with the length of the rest in the place of its start code: the output is that number, which reads back
-- as the count of the bytes behind it, and then the frame without its first four bytes.
pub sized_data_lem :
    (pkt : Packet)
    → 0 < length pkt.data0
    → 4 ≤ length pkt.data0 + length pkt.data1
    → length pkt.data0 + length pkt.data1 < 2 ^ 32
    → (flatten (sized_data pkt)
        ≡ be32 (length pkt.data0 + length pkt.data1 - 4) ++ drop 4 (pkt.data0 ++ pkt.data1))
      × (av_rb32 (be32 (length pkt.data0 + length pkt.data1 - 4)) 0
          ≡ length (drop 4 (pkt.data0 ++ pkt.data1)))
unfolding sized_data
sized_data_lem pkt some0 whole small = (
  elim (Bool-cases (leb (length pkt.data0) 4)) [
    | inl short ↦
        rw (some_bytes, short)
          (rw
            (
              drop-append_past 4 pkt.data0 pkt.data1 (ground arith),
              piece (4 - length pkt.data0) pkt.data1,
              length_field _ whole small,
            )
            refl)
    | inr long ↦
        rw (some_bytes, long)
          (rw
            (
              drop-append_within 4 pkt.data0 pkt.data1 (ground arith),
              piece 0 pkt.data1,
              length_field _ whole small,
            )
            refl)
  ],
  omega (
    arith,
    av_rb32-be32 (length pkt.data0 + length pkt.data1 - 4) (omega arith),
    length-drop 4 (pkt.data0 ++ pkt.data1),
    length-append pkt.data0 pkt.data1,
  ),
)
  where
    some_bytes : (length pkt.data0 == 0) ≡ false
    some_bytes = ground arith
