-- ===== src/Driver/Ts/Reached.antt =====
-- The states that the calls of Mpeg2tsMuxerDrv.c can reach.
use pluto_project.Base.{ℕ, ◌≡◌, refl, inl, inr, subst, true, some, List, arith, Ends}
use pluto_project.Base.Calls.{Calls}
use pluto_project.Ts.{AvPacket, Memory}
use pluto_project.Ts.Unit.Counters.{IsReady}
use pluto_project.Driver.{Files, IoctrlCmd}
use pluto_project.Driver.Ts.{
  TsContext, mpeg2ts_muxer_open, mpeg2ts_muxer_write_csd, mpeg2ts_muxer_ioctrl,
  mpeg2ts_muxer_write_header, mpeg2ts_muxer_write_packet,
}
use pluto_project.Driver.Ts.Sound.{
  IsSound, SoundResult, mux-IsReady, ioctrl-IsSound, csd-IsSound, header-IsSound, packet-IsSound,
}

module _ (f : Files) (pcr_of : ℕ → ℕ) where
  -- A driver that was opened, after any calls of its functions.
  pub data Reached : TsContext f → Type 0 where
    opened : (s : TsContext f) → mpeg2ts_muxer_open f true ≡ some s → Reached s
    controlled :
        (s : TsContext f) (cmd : IoctrlCmd) → Reached s → Reached (mpeg2ts_muxer_ioctrl f cmd s).1
    given_csd :
        (s : TsContext f) (csd : List ℕ) (idx : ℕ)
        → Reached s
        → Reached (mpeg2ts_muxer_write_csd f csd idx s)
    headed : (s : TsContext f) → Reached s → Reached (mpeg2ts_muxer_write_header f s).1
    written :
        (s : TsContext f) (mem : Memory) (pkt : AvPacket) (r : Calls × TsContext f)
        → mpeg2ts_muxer_write_packet f pcr_of mem pkt s ≡ some r
        → Reached s
        → Reached r.1

module _ (f : Files) where
  opened-IsSound : (s : TsContext f) → mpeg2ts_muxer_open f true ≡ some s → IsSound f s
  unfolding mpeg2ts_muxer_open
  opened-IsSound s e = subst (Ends (IsSound f)) e (record {
    bounded = record {
      pat = omega arith;
      pmt = omega arith;
      counters = λ i. omega arith;
      pids = λ i. omega arith;
      tracks = omega arith;
    };
    table = inl refl;
  })

  reached-IsSound : {pcr_of : ℕ → ℕ} (s : TsContext f) → Reached f pcr_of s → IsSound f s
  reached-IsSound s (opened t e) = opened-IsSound t e
  reached-IsSound s (controlled t cmd r) = ioctrl-IsSound f cmd t (reached-IsSound t r)
  reached-IsSound s (given_csd t csd idx r) = csd-IsSound f csd idx t (reached-IsSound t r)
  reached-IsSound s (headed t r) = header-IsSound f t (reached-IsSound t r)
  reached-IsSound s (written t mem pkt p e r) =
      subst (Ends (SoundResult f)) e (packet-IsSound f _ mem pkt t (reached-IsSound t r))

  -- In every state that the calls of the driver can reach from its opening, in any order and with any
  -- arguments, a driver with a cache writer has its counters below 16, its PIDs below 2 ^ 13, at most two
  -- tracks and the table of checksums: what the packets and the tables need.
  pub reached-IsReady :
      {pcr_of : ℕ → ℕ} (s : TsContext f) (w : f.Writer)
      → Reached f pcr_of s
      → s.files.cache_writer ≡ some w
      → IsReady s.mux
  reached-IsReady s w r e =
      let h = reached-IsSound s r in
      elim h.table [
        | inl no_writer ↦ absurd (cc (e, no_writer))
        | inr table ↦ mux-IsReady f s.mux h.bounded table
      ]
