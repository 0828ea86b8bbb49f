-- ===== src/Ts/Mux/Stream.antt =====
-- The tables and the frames in one stream, for one call of mpeg2ts_write_packet and for a sequence
-- of them.
use native.Mathlib.Decide.{ℕ_discrete}
use pluto_project.Base.{
  ℕ, ◌+◌, ◌/◌, ◌%◌, ◌≤◌, ◌<◌, ◌≡◌, refl, sym, subst, ◌∙◌, true, false, some, ◌∷◌, arith, bit_or,
  ◌==◌, length, drop, update_miss, ==_iff,
}
use pluto_project.Base.Bytes.{bit_or_disjoint}
use pluto_project.Ts.{
  AvFormatContext, AvPacket, Memory, count_up, video_stream_idx, audio_stream_idx,
}
use pluto_project.Ts.Psi.{
  pat_bytes, pmt_bytes, pmt_section, write_program_association_table, write_program_map_table,
}
use pluto_project.Ts.Psi.Checked.{length-pmt}
use pluto_project.Ts.Unit.{
  lacks_config, stream_head, stream_size, write_access_unit, mpeg2ts_write_packet,
}
use pluto_project.Ts.Unit.Access.{IsSendable, write_access_unit-Sent}
use pluto_project.Ts.Unit.Counters.{IsReady}
use pluto_project.Ts.Demux.{Packet, parse_packet, parse_plain, Reads-cons}
use pluto_project.Ts.Mux.{IsInStep, AreApart, Muxed, step_of, unit-Muxed}

abbrev pat_packet : ℕ → Packet
pat_packet c = record { start = 1; pid = 0; counter = c; payload = drop 4 (pat_bytes c) }

abbrev pmt_packet : AvFormatContext → Packet
pmt_packet ctx = record {
  start = 1;
  pid = 0x1e0;
  counter = ctx.pmt_continuity_counter;
  payload = drop 4 (pmt_bytes ctx);
}

table_bits : (c : ℕ) → c < 16 → bit_or 0x10 c % 256 ≡ 16 + c
table_bits c h = omega (arith, bit_or_disjoint 4 1 c)

parse-pat_bytes : (c : ℕ) → c < 16 → parse_packet (pat_bytes c) ≡ some (pat_packet c)
unfolding pat_bytes
parse-pat_bytes c h =
    let control : (16 + c) / 16 % 4 ≡ 1 = omega arith in
    let counter : (16 + c) % 16 ≡ c = omega arith in
    rw (table_bits c h)
      (parse_plain 0x40 0x00 (16 + c) (drop 4 (pat_bytes c)) refl control ∙ rw counter refl)

parse-pmt_bytes :
    (ctx : AvFormatContext)
    → ctx.pmt_continuity_counter < 16
    → ctx.track_cnt ≤ 2
    → parse_packet (pmt_bytes ctx) ≡ some (pmt_packet ctx)
unfolding pmt_bytes
parse-pmt_bytes ctx h two =
    let c = ctx.pmt_continuity_counter in
    let control : (16 + c) / 16 % 4 ≡ 1 = omega arith in
    let counter : (16 + c) % 16 ≡ c = omega arith in
    let len : length (drop 4 (pmt_bytes ctx)) ≡ 184 = omega (arith, length-pmt ctx two) in
    rw (table_bits c h)
      (parse_plain 0x41 0xe0 (16 + c) (drop 4 (pmt_bytes ctx)) len control ∙ rw counter refl)

abbrev after_tables : AvFormatContext → AvFormatContext
after_tables ctx = (write_program_map_table (write_program_association_table ctx).1).1

IsSendable-tables :
    (ctx : AvFormatContext) (pkt : AvPacket)
    → IsSendable ctx pkt
    → IsSendable (after_tables ctx) pkt
unfolding write_program_map_table write_program_association_table stream_head stream_size
    lacks_config
IsSendable-tables ctx pkt s = record {
  stream = s.stream;
  config = s.config;
  placed = s.placed;
  filled = s.filled;
  small = s.small;
  long = s.long;
  head = s.head;
  pid = s.pid;
  counter = s.counter;
}

module _ (ctx : AvFormatContext) (next : ℕ → ℕ) (ready : IsReady ctx) (apart : AreApart ctx)
    (step : IsInStep ctx next) where
  abbrev patted : ℕ → ℕ
  patted = step_of next (pat_packet ctx.pat_continuity_counter)

  abbrev mapped : ℕ → ℕ
  mapped = step_of patted (pmt_packet ctx)

  pat_up : (ctx.pat_continuity_counter + 1) % 16 ≡ count_up ctx.pat_continuity_counter
  pat_up = ground (arith, ready.pat)

  pmt_up : (ctx.pmt_continuity_counter + 1) % 16 ≡ count_up ctx.pmt_continuity_counter
  pmt_up = ground (arith, ready.pmt)

  pmt_free : patted 0x1e0 ≡ ctx.pmt_continuity_counter
  pmt_free = step.pmt

  IsInStep-tables : IsInStep (after_tables ctx) mapped
  unfolding write_program_map_table write_program_association_table
  IsInStep-tables = record {
    pat = pat_up;
    pmt = pmt_up;
    stream = λ i hi.
        update_miss patted 0x1e0 ((ctx.pmt_continuity_counter + 1) % 16) (ctx.track_pid i)
          (λ e. apart.not_pmt i hi (sym e))
        ∙ update_miss next 0 ((ctx.pat_continuity_counter + 1) % 16) (ctx.track_pid i)
            (λ e. apart.not_pat i hi (sym e))
        ∙ step.stream i hi;
  }

  apart_tables : AreApart (after_tables ctx)
  unfolding write_program_map_table write_program_association_table
  apart_tables = record {
    not_pat = apart.not_pat;
    not_pmt = apart.not_pmt;
    streams = apart.streams;
  }

  module _ (pcr_of : ℕ → ℕ) (mem : Memory) (pkt : AvPacket) (s : IsSendable ctx pkt)
      (there : pkt.stream_idx < ctx.track_cnt) where
    with_tables :
        (u : Muxed (after_tables ctx) mapped (write_access_unit pcr_of mem pkt (after_tables ctx)))
        → pkt.stream_idx ≡ video_stream_idx
        → Muxed ctx next (mpeg2ts_write_packet pcr_of mem pkt ctx)
    unfolding mpeg2ts_write_packet write_program_association_table write_program_map_table pmt_bytes
        pmt_section pat_bytes
    with_tables u video = record {
      calls = pat_bytes ctx.pat_continuity_counter ∷ pmt_bytes ctx ∷ u.calls;
      after = u.after;
      packets = pat_packet ctx.pat_continuity_counter ∷ pmt_packet ctx ∷ u.packets;
      done =
          let first : (pkt.stream_idx == video_stream_idx) ≡ true = (==_iff _ _).1 video in
          rw (first, u.done) refl;
      reads =
          Reads-cons (pat_bytes ctx.pat_continuity_counter) _ _ _ refl
            (parse-pat_bytes ctx.pat_continuity_counter ready.pat)
            (Reads-cons (pmt_bytes ctx) _ _ _ (length-pmt ctx ready.tracks)
              (parse-pmt_bytes ctx ready.pmt ready.tracks) u.reads);
      continuous = (sym step.pat, (sym pmt_free, u.continuous));
      in_step = u.in_step;
      same_pids = u.same_pids;
      same_csd = u.same_csd;
      same_cnt = u.same_cnt;
    }

    audio_lem :
        pkt.stream_idx ≡ audio_stream_idx
        → mpeg2ts_write_packet pcr_of mem pkt ctx ≡ write_access_unit pcr_of mem pkt ctx
    unfolding mpeg2ts_write_packet
    audio_lem audio =
        let second : (pkt.stream_idx == video_stream_idx) ≡ false = ground arith in
        let first : (pkt.stream_idx == audio_stream_idx) ≡ true = (==_iff _ _).1 audio in
        rw (second, first) refl

    -- A frame that can be sent, on a track that there is, with PIDs that differ from each other and from those of the tables, is
    -- muxed: `mpeg2ts_write_packet` returns, and a receiver in step with its counters reads TS packets
    -- in which no counter skips or repeats on any PID, and is in step again.
    pub mpeg2ts_write_packet-Muxed : Muxed ctx next (mpeg2ts_write_packet pcr_of mem pkt ctx)
    unfolding write_program_map_table write_program_association_table
    mpeg2ts_write_packet-Muxed = elim (ℕ_discrete pkt.stream_idx video_stream_idx) [
      | yes video ↦
          with_tables
            (unit-Muxed pcr_of mem pkt (after_tables ctx) mapped _ there apart_tables
              IsInStep-tables
              (write_access_unit-Sent pcr_of mem pkt (after_tables ctx)
                (IsSendable-tables ctx pkt s)))
            video
      | no other ↦
          let audio : pkt.stream_idx ≡ audio_stream_idx = omega (arith, s.stream) in
          subst (Muxed ctx next) (sym (audio_lem audio)) (
            unit-Muxed pcr_of mem pkt ctx next _ there apart step
              (write_access_unit-Sent pcr_of mem pkt ctx s))
    ]
