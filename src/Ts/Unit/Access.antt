-- ===== src/Ts/Unit/Access.antt =====
-- A frame that `write_access_unit` takes, as a receiver reads it back.
use pluto_project.Base.{
  ℕ, suc, ◌+◌, ◌-◌, ◌*◌, ◌/◌, ◌%◌, ◌^◌, ◌≤◌, ◌<◌, ◌≡◌, refl, ap, sym, ◌∙◌, inl, inr, Option, false,
  some, List, [], ◌∷◌, ◌++◌, arith, bit_and, bit_or, u32, ltb, ◌==◌, length, drop, replicate,
  length-append, append_assoc, append-nil, Bool-cases, update,
}
use pluto_project.Base.Bytes.{bit_and_low, bit_or_disjoint}
use pluto_project.Base.Calls.{Calls, size_of, flatten, flatten-append}
use pluto_project.Ts.{
  AvFormatContext, AvPacket, Memory, read, ts_package_sz, count_up, video_stream_idx,
  audio_stream_idx,
}
use pluto_project.Ts.Unit.{
  Cursor, write_av_ts_packet, stream_size, stream_head, lacks_config, adts_header, pes_header,
  pts_bytes, padding_size, adaptation_header, write_fragments, write_access_unit,
}
use pluto_project.Ts.Unit.Fragments.{
  IsPlaced, Wrote, write_av_ts_packet-Wrote, Finished, write_fragments-Finished, read-append,
  length-read, advance,
}
use pluto_project.Ts.Demux.{Packet, parse_packet, parse_padded, Reads, Reads-cons, GoOn, payloads}

-- What `write_access_unit` can take: a stream that exists, with the configuration that an audio header
-- is made of, a frame of two blocks one behind the other, of 162 bytes at least with what is put before
-- it, and a head that leaves room in the first packet.
pub record IsSendable (ctx : AvFormatContext) (pkt : AvPacket) : Type 0 where
  pub stream : pkt.stream_idx ≤ audio_stream_idx
  pub config : lacks_config ctx pkt ≡ false
  pub placed : IsPlaced pkt
  pub filled : 0 < pkt.size0 + pkt.size1
  pub small : size_of (stream_head ctx pkt) + pkt.size0 + pkt.size1 < 2 ^ 32
  pub long : 162 ≤ size_of (stream_head ctx pkt) + pkt.size0 + pkt.size1
  pub head : size_of (stream_head ctx pkt) ≤ 162
  pub pid : ctx.track_pid pkt.stream_idx < 2 ^ 13
  pub counter : ctx.ts_continuity_counter pkt.stream_idx < 16

-- The data of the frame, in memory.
abbrev pub frame : Memory → AvPacket → List ℕ
frame mem pkt = read mem pkt.data0 pkt.size0 ++ read mem pkt.data1 pkt.size1

-- The frame was sent: its packets are read back.
pub record Sent (mem : Memory) (pkt : AvPacket) (ctx : AvFormatContext)
    (r : Option (Calls × AvFormatContext)) : Type 0 where
  pub calls : Calls
  pub first : Packet
  pub packets : List Packet
  pub done :
      r
      ≡ some (
        calls,
        record ctx {
          ts_continuity_counter =
              update ctx.ts_continuity_counter pkt.stream_idx
                ((ctx.ts_continuity_counter pkt.stream_idx + 1 + length packets) % 16);
        },
      )
  pub reads : Reads (flatten calls) (first ∷ packets)
  pub starts :
      (first.start ≡ 1)
      × (first.pid ≡ ctx.track_pid pkt.stream_idx)
      × (first.counter ≡ ctx.ts_continuity_counter pkt.stream_idx)
  pub go_on :
      GoOn
        (ctx.track_pid pkt.stream_idx)
        ((ctx.ts_continuity_counter pkt.stream_idx + 1) % 16)
        packets
  pub carries :
      payloads (first ∷ packets)
      ≡ pes_header ctx pkt ++ (flatten (stream_head ctx pkt) ++ frame mem pkt)

pub length-adts_header : (csd : List ℕ) (size : ℕ) → length (adts_header csd size) ≡ 7
unfolding adts_header
length-adts_header csd size = refl

pub length-pes_header : (ctx : AvFormatContext) (pkt : AvPacket) → length (pes_header ctx pkt) ≡ 14
unfolding pes_header pts_bytes
length-pes_header ctx pkt = refl

pub stream_size_lem :
    (ctx : AvFormatContext) (pkt : AvPacket)
    → stream_size ctx pkt ≡ u32 (size_of (stream_head ctx pkt) + pkt.size0 + pkt.size1)
unfolding stream_size stream_head adts_header
stream_size_lem ctx pkt = elim (Bool-cases (pkt.stream_idx == video_stream_idx)) [
  | inl v ↦ elim (Bool-cases (pkt.flags == 0)) [
    | inl f ↦ rw (v, f) (ap u32 (omega arith))
    | inr f ↦ rw (v, f) (ap u32 (omega arith))
  ]
  | inr a ↦ rw a (ap u32 (omega arith))
]

frame_lem :
    (mem : Memory) (pkt : AvPacket)
    → IsPlaced pkt
    → read mem pkt.data0 (pkt.size0 + pkt.size1) ≡ frame mem pkt
frame_lem mem pkt (inl e) = rw e (sym (read-append mem pkt.data0 pkt.size0 pkt.size1))
frame_lem mem pkt (inr (e, pos)) = rw e (ap (read mem pkt.data0) (omega arith) ∙ sym (append-nil _))

regroup : (a b c d : List ℕ) → (a ++ b) ++ (c ++ d) ≡ (a ++ (b ++ c)) ++ d
regroup a b c d = simp append_assoc refl

-- The clock reference, after the length of its field.
abbrev clock_field : ℕ → List ℕ
clock_field pcr = drop 5 (adaptation_header pcr 0 0 0)

-- The first packet of a unit that needs no padding.
first_packet :
    (pcr pid c : ℕ) (body : List ℕ)
    → pid < 2 ^ 13
    → c < 16
    → length body ≡ 176
    → (length (adaptation_header pcr pid c 0 ++ body) ≡ ts_package_sz)
      × (parse_packet (adaptation_header pcr pid c 0 ++ body)
          ≡ some (record { start = 1; pid = pid; counter = c; payload = body }))
unfolding adaptation_header
first_packet pcr pid c body hp hc len =
    let bits : bit_or 0x30 c % 256 ≡ 48 + c = omega (arith, bit_or_disjoint 4 3 c) in
    let flag : bit_or 0x40 (pid / 2 ^ 8) % 256 ≡ 64 + pid / 2 ^ 8 =
      omega (arith, bit_or_disjoint 6 1 (pid / 2 ^ 8)) in
    let start : (64 + pid / 2 ^ 8) / 64 % 2 ≡ 1 = omega arith in
    let pid_read : (64 + pid / 2 ^ 8) % 32 * 256 + bit_and pid 0xff ≡ pid =
      omega (arith, bit_and_low 8 pid) in
    let counter : (48 + c) % 16 ≡ c = omega arith in
    let control : (48 + c) / 16 % 4 ≡ 3 = omega arith in
    let parsed =
      parse_padded (64 + pid / 2 ^ 8) (bit_and pid 0xff) (48 + c) 7 (clock_field pcr) body refl
        (omega arith) control in
    rw (bits, flag) (omega arith, parsed ∙ rw (start, pid_read, counter) refl)

module _ (pcr_of : ℕ → ℕ) (mem : Memory) (pkt : AvPacket) (ctx : AvFormatContext)
    (s : IsSendable ctx pkt) where
  open s use {stream, config, placed, filled, small, long, head, pid, counter}

  no_padding : padding_size ctx pkt ≡ 0
  unfolding padding_size
  no_padding =
      let wide : ltb (stream_size ctx pkt) 162 ≡ false = ground (arith, stream_size_lem ctx pkt) in
      rw wide refl

  abbrev id : ℕ
  id = ctx.track_pid pkt.stream_idx

  abbrev first_counter : ℕ
  first_counter = ctx.ts_continuity_counter pkt.stream_idx

  abbrev start_of_frame : Cursor
  start_of_frame = record { left = pkt.size0 + pkt.size1; ptr = pkt.data0 }

  -- The 26 bytes before the head of the stream.
  abbrev header : List ℕ
  header =
      adaptation_header (pcr_of pkt.pts) id first_counter 0
      ++ replicate 0 0xff
      ++ pes_header ctx pkt

  length-header : length header ≡ 26
  unfolding adaptation_header
  length-header = omega (arith, length-pes_header ctx pkt)

  -- The room that the first packet has for data.
  abbrev room : ℕ
  room = ts_package_sz - (length header + size_of (stream_head ctx pkt))

  length-flatten : (calls : Calls) → length (flatten calls) ≡ size_of calls
  length-flatten [] = refl
  length-flatten (b ∷ calls) = omega (arith, length-append b (flatten calls), length-flatten calls)

  room_lem :
      (ltb ts_package_sz (length header + size_of (stream_head ctx pkt)) ≡ false)
      × (room + size_of (stream_head ctx pkt) ≡ 162)
  room_lem = let n = length-header in (ground arith, omega arith)

  -- The unit from its first packet and the packets of the loop.
  assembled :
      (w : Wrote mem start_of_frame room (write_av_ts_packet mem pkt room start_of_frame))
      → (c : ℕ) → c ≡ (first_counter + 1) % 16
      → Finished mem id c
          (advance room start_of_frame)
          (write_fragments (suc (pkt.size0 + pkt.size1)) mem pkt id c (advance room start_of_frame))
      → Sent mem pkt ctx (write_access_unit pcr_of mem pkt ctx)
  unfolding write_access_unit adaptation_header
  assembled w c next f =
      let top = stream_head ctx pkt in
      let known : ltb audio_stream_idx pkt.stream_idx ≡ false = ground arith in
      let up : count_up first_counter ≡ c = ground arith in
      let count : (c + length f.packets) % 16 ≡ (first_counter + 1 + length f.packets) % 16 =
        omega arith in
      let body = pes_header ctx pkt ++ (flatten top ++ flatten w.out) in
      let filled_out : length (flatten w.out) ≡ room =
        ap length w.bytes ∙ length-read mem pkt.data0 room in
      let len : length body ≡ 176 = omega (
        arith,
        length-append (pes_header ctx pkt) (flatten top ++ flatten w.out),
        length-append (flatten top) (flatten w.out),
        length-pes_header ctx pkt,
        length-flatten top,
        room_lem.1,
      ) in
      let flat : flatten (header ∷ top ++ w.out ++ f.calls)
          ≡ (adaptation_header (pcr_of pkt.pts) id first_counter 0 ++ body) ++ flatten f.calls =
        ap (λ t. header ++ t)
          (flatten-append (top ++ w.out) f.calls
            ∙ ap (λ t. t ++ flatten f.calls) (flatten-append top w.out))
        ∙ regroup (adaptation_header (pcr_of pkt.pts) id first_counter 0) (pes_header ctx pkt)
            (flatten top ++ flatten w.out) (flatten f.calls) in
      let data_all : flatten w.out ++ payloads f.packets ≡ frame mem pkt =
        rw (w.bytes, f.carries)
          (read-append mem pkt.data0 room (pkt.size0 + pkt.size1 - room)
            ∙ ap (read mem pkt.data0) (omega (arith, room_lem.1))
            ∙ frame_lem mem pkt placed) in
      let ok = first_packet (pcr_of pkt.pts) id first_counter body pid counter len in
      record {
        calls = header ∷ top ++ w.out ++ f.calls;
        first = record { start = 1; pid = id; counter = first_counter; payload = body };
        packets = f.packets;
        done = rw (no_padding, known, config, room_lem.0, w.done, up, f.done) (rw count refl);
        reads = rw flat (
            Reads-cons (adaptation_header (pcr_of pkt.pts) id first_counter 0 ++ body)
              (flatten f.calls) _ f.packets ok.0 ok.1 f.reads);
        starts = (refl, refl, refl);
        go_on = rw (sym next) f.go_on;
        carries =
            append_assoc (pes_header ctx pkt) (flatten top ++ flatten w.out) (payloads f.packets)
            ∙ ap (λ t. pes_header ctx pkt ++ t)
                (append_assoc (flatten top) (flatten w.out) (payloads f.packets)
                  ∙ ap (λ t. flatten top ++ t) data_all);
      }

  pub write_access_unit-Sent : Sent mem pkt ctx (write_access_unit pcr_of mem pkt ctx)
  write_access_unit-Sent =
      let r = room_lem.1 in
      let enough : room ≤ pkt.size0 + pkt.size1 = omega arith in
      assembled
        (write_av_ts_packet-Wrote mem pkt room start_of_frame placed
          (record { from = omega arith; to = omega arith }) filled enough)
        ((first_counter + 1) % 16) refl
        (write_fragments-Finished mem pkt id placed pid (suc (pkt.size0 + pkt.size1))
          ((first_counter + 1) % 16) (advance room start_of_frame) (omega arith) (omega arith)
          (record { from = omega arith; to = omega arith }))
