-- ===== src/Ts/Mux/Sequence.antt =====
-- A file of transport stream: one call of mpeg2ts_write_packet after another.
use pluto_project.Base.{
  ℕ, ◌<◌, Bool, false, ltb, length, ◌==◌, if◌then◌else◌, Option, some, List, [], ◌∷◌, ◌++◌, ◌>>=◌,
}
use pluto_project.Base.Calls.{Calls}
use pluto_project.Ts.{AvFormatContext, AvPacket, Memory, video_stream_idx, audio_stream_idx}
use pluto_project.Ts.Unit.{mpeg2ts_write_packet}
use pluto_project.Ts.Unit.Access.{IsSendable}

module _ (pcr_of : ℕ → ℕ) (mem : Memory) where
  -- The calls for a list of frames, in order, up to the first that does not return.
  unfoldable pub write_packets : List AvPacket → AvFormatContext → Option (Calls × AvFormatContext)
  write_packets [] ctx = some ([], ctx)
  write_packets (pkt ∷ pkts) ctx = do
    (out, ctx1) ← mpeg2ts_write_packet pcr_of mem pkt ctx
    (more, ctx2) ← write_packets pkts ctx1
    some (out ++ more, ctx2)

-- Frames that can be sent, on tracks that there are.
abbrev pub AreSendable : AvFormatContext → List AvPacket → Type 0
AreSendable ctx [] = Unit
AreSendable ctx (pkt ∷ pkts) =
    (IsSendable ctx pkt × (pkt.stream_idx < ctx.track_cnt)) × AreSendable ctx pkts

abbrev config_missing : (ℕ → List ℕ) → AvPacket → Bool
config_missing csd pkt =
    if pkt.stream_idx == video_stream_idx then false else ltb (length (csd audio_stream_idx)) 2
