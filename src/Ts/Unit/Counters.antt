-- ===== src/Ts/Unit/Counters.antt =====
-- The continuity counters stay in four bits, whatever the packets are.
use pluto_project.Base.{
  ℕ, zero, suc, ◌+◌, ◌-◌, ◌^◌, ◌≤◌, ◌<◌, ◌≡◌, inl, inr, Option, none, some, ◌++◌, arith, ltb, leb,
  ◌==◌, if◌then◌else◌, Ends, Ends-bind, Bool-cases, update, length, replicate,
}
use pluto_project.Base.Calls.{Calls, size_of}
use pluto_project.Ts.{
  AvFormatContext, AvPacket, Memory, count_up, ts_package_sz, video_stream_idx, audio_stream_idx,
}
use pluto_project.Ts.Crc.{init_crc_table}
use pluto_project.Ts.Psi.{write_program_association_table, write_program_map_table}
use pluto_project.Ts.Unit.Fragments.{room_of}
use pluto_project.Ts.Unit.{
  Cursor, write_av_ts_packet, padding_size, adaptation_header, pes_header, stream_head,
  lacks_config, write_fragments, write_access_unit, mpeg2ts_write_packet,
}

-- A context that `MuxerWriteHeader` made ready: its counters have four bits, its PIDs 13.
pub record IsReady (ctx : AvFormatContext) : Type 0 where
  pub pat : ctx.pat_continuity_counter < 16
  pub pmt : ctx.pmt_continuity_counter < 16
  pub counters : (i : ℕ) → ctx.ts_continuity_counter i < 16
  pub pids : (i : ℕ) → ctx.track_pid i < 2 ^ 13
  pub table : ctx.crc_table ≡ init_crc_table
  pub tracks : ctx.track_cnt ≤ 2

count_up_bound : (c : ℕ) → count_up c < 16
count_up_bound c = ground arith

fragment_count_bound : (c : ℕ) → (if leb 0x0f c then 0 else c + 1) < 16
fragment_count_bound c = ground arith

-- Any buffers and any place, as `write_av_ts_packet` may leave them.
abbrev AnyWrite : Calls × Cursor → Type 0
AnyWrite w = Unit

abbrev FourBits : Calls × ℕ → Type 0
FourBits r = r.1 < 16

any_write : (r : Option (Calls × Cursor)) → Ends AnyWrite r
any_write none = tt
any_write (some a) = tt

write_fragments_bound :
    (fuel : ℕ) (mem : Memory) (pkt : AvPacket) (pid c : ℕ) (at : Cursor)
    → c < 16
    → Ends FourBits (write_fragments fuel mem pkt pid c at)
unfolding write_fragments
write_fragments_bound zero mem pkt pid c at h = tt
write_fragments_bound (suc fuel) mem pkt pid c at h = elim (Bool-cases (at.left == 0)) [
  | inl stop ↦ rw stop h
  | inr go ↦ rw go (
      Ends-bind AnyWrite FourBits (write_av_ts_packet mem pkt (room_of at.left) at) _ (any_write _)
        (λ w _.
          Ends-bind FourBits FourBits
            (write_fragments fuel mem pkt pid (if leb 0x0f c then 0 else c + 1) w.1) _
            (write_fragments_bound fuel mem pkt pid _ w.1 (fragment_count_bound c))
            (λ f bound. bound)))
]

-- One counter set, to a value of four bits.
set_bound :
    (counters : ℕ → ℕ) (i v : ℕ)
    → ((j : ℕ) → counters j < 16)
    → v < 16
    → (j : ℕ) → update counters i v j < 16
set_bound counters i v h hv j = elim (Bool-cases (i == j)) [
  | inl here ↦ rw here hv
  | inr there ↦ rw there (h j)
]

tables-IsReady :
    (ctx : AvFormatContext)
    → IsReady ctx
    → IsReady (write_program_map_table (write_program_association_table ctx).1).1
unfolding write_program_map_table write_program_association_table
tables-IsReady ctx ready = record {
  pat = count_up_bound ctx.pat_continuity_counter;
  pmt = count_up_bound ctx.pmt_continuity_counter;
  counters = ready.counters;
  pids = ready.pids;
  table = ready.table;
  tracks = ready.tracks;
}

abbrev pub StillReady : Calls × AvFormatContext → Type 0
StillReady r = IsReady r.1

module _ (pcr_of : ℕ → ℕ) (mem : Memory) (pkt : AvPacket) where
  abbrev used : AvFormatContext → ℕ
  used ctx =
      length (
        adaptation_header (pcr_of pkt.pts) (ctx.track_pid pkt.stream_idx)
          (ctx.ts_continuity_counter pkt.stream_idx) (padding_size ctx pkt)
        ++ replicate (padding_size ctx pkt) 0xff
        ++ pes_header ctx pkt)
      + size_of (stream_head ctx pkt)

  write_access_unit-IsReady :
      (ctx : AvFormatContext) → IsReady ctx → Ends StillReady (write_access_unit pcr_of mem pkt ctx)
  unfolding write_access_unit
  write_access_unit-IsReady ctx ready = elim (Bool-cases (ltb audio_stream_idx pkt.stream_idx)) [
    | inl bad ↦ rw bad tt
    | inr known ↦ elim (Bool-cases (lacks_config ctx pkt)) [
      | inl bare ↦ rw (known, bare) tt
      | inr config ↦ elim (Bool-cases (ltb ts_package_sz (used ctx))) [
        | inl full ↦ rw (known, config, full) tt
        | inr roomy ↦
            rw (known, config, roomy)
              (Ends-bind AnyWrite StillReady
                (write_av_ts_packet mem pkt (ts_package_sz - used ctx)
                  (record { left = pkt.size0 + pkt.size1; ptr = pkt.data0 }))
                _ (any_write _)
                (λ w _.
                  Ends-bind FourBits StillReady
                    (write_fragments (suc (pkt.size0 + pkt.size1)) mem pkt
                      (ctx.track_pid pkt.stream_idx)
                      (count_up (ctx.ts_continuity_counter pkt.stream_idx)) w.1)
                    _
                    (write_fragments_bound (suc (pkt.size0 + pkt.size1)) mem pkt _ _ w.1
                      (count_up_bound (ctx.ts_continuity_counter pkt.stream_idx)))
                    (λ f bound. record {
                      pat = ready.pat;
                      pmt = ready.pmt;
                      counters =
                          set_bound ctx.ts_continuity_counter pkt.stream_idx f.1 ready.counters
                            bound;
                      pids = ready.pids;
                      table = ready.table;
                      tracks = ready.tracks;
                    })))
      ]
    ]
  ]

  -- Whatever packet it is given, `mpeg2ts_write_packet`, where it returns, leaves the context ready: every
  -- counter is below 16 again.
  pub mpeg2ts_write_packet-IsReady :
      (ctx : AvFormatContext)
      → IsReady ctx
      → Ends StillReady (mpeg2ts_write_packet pcr_of mem pkt ctx)
  unfolding mpeg2ts_write_packet
  mpeg2ts_write_packet-IsReady ctx ready = elim (Bool-cases (pkt.stream_idx == video_stream_idx)) [
    | inl video ↦ rw video (
        Ends-bind StillReady StillReady
          (write_access_unit pcr_of mem pkt
            (write_program_map_table (write_program_association_table ctx).1).1)
          _ (write_access_unit-IsReady _ (tables-IsReady ctx ready)) (λ r ready'. ready'))
    | inr other ↦ elim (Bool-cases (pkt.stream_idx == audio_stream_idx)) [
      | inl audio ↦ rw (other, audio) (write_access_unit-IsReady ctx ready)
      | inr unknown ↦ rw (other, unknown) ready
    ]
  ]
