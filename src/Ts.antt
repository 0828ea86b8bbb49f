-- ===== src/Ts.antt =====
-- The state of the MPEG-2 TS muxer (Mpeg2tsMuxer.h), the packet that it is given (muxer_writer.h)
-- and its continuity counters.
pub mod Crc
pub mod Psi
pub mod Unit
pub mod Demux
pub mod Mux
pub mod Tests
use pluto_project.Base.{ℕ, zero, suc, ◌+◌, ◌≤◌, ◌<◌, ◌≡◌, List, [], ◌∷◌, arith, leb, if◌then◌else◌}

-- `AVFormatContext`: what the packets are made of. The calls of the cache writer are the output of
-- each function.
pub record AvFormatContext : Type 0 where
  pub pat_continuity_counter : ℕ
  pub pmt_continuity_counter : ℕ
  pub ts_continuity_counter : ℕ → ℕ
  pub crc_table : List ℕ
  pub track_pid : ℕ → ℕ
  pub track_csd : ℕ → List ℕ
  pub track_cnt : ℕ

-- `AVPacket`: two blocks of memory, each an address and a size. The time is not negative.
pub record AvPacket : Type 0 where
  pub pts : ℕ
  pub data0 : ℕ
  pub size0 : ℕ
  pub data1 : ℕ
  pub size1 : ℕ
  pub stream_idx : ℕ
  pub flags : ℕ

abbrev pub Memory : Type 0
Memory = ℕ → ℕ

-- The `n` bytes from the address `p` on.
abbrev pub read : Memory → ℕ → ℕ → List ℕ
read mem p zero = []
read mem p (suc n) = mem p ∷ read mem (p + 1) n

abbrev pub ts_package_sz : ℕ
ts_package_sz = 188

abbrev pub video_stream_idx : ℕ
video_stream_idx = 0

abbrev pub audio_stream_idx : ℕ
audio_stream_idx = 1

-- `counter++; if (counter >= 0x10) counter = 0;`, and the same as the loop of fragments has it.
abbrev pub count_up : ℕ → ℕ
count_up c = if leb 0x10 (c + 1) then 0 else c + 1
