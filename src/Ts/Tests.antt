-- ===== src/Ts/Tests.antt =====
-- The theorems on the TS muxer at concrete frames, and runs of its functions.
use pluto_project.Base.{
  ℕ, zero, suc, ◌*◌, ◌%◌, ◌^◌, ◌<◌, ◌≡◌, ◌≢◌, refl, inl, inr, List, [], ◌∷◌, arith, drop, ◌==◌,
  if◌then◌else◌,
}
use pluto_project.Ts.{AvFormatContext, AvPacket, Memory}
use pluto_project.Ts.Crc.{init_crc_table, crc32}
use pluto_project.Ts.Crc.Rounds.{register, crc32-register}
use pluto_project.Ts.Psi.{write_program_map_table}
use pluto_project.Ts.Psi.Checked.{IsMapOf, write_program_map_table-IsMapOf}
use pluto_project.Ts.Unit.{stream_head, lacks_config, adts_header, pes_header, write_fragments}
use pluto_project.Ts.Unit.Access.{IsSendable}
use pluto_project.Ts.Unit.Counters.{IsReady}
use pluto_project.Ts.Unit.Adts.{read_adts, config, read_adts-adts_header}
use pluto_project.Ts.Unit.Pts.{read_pts, read_pts-pes_header}
use pluto_project.Ts.Unit.Fragments.{Finished, write_fragments-Finished}
use pluto_project.Ts.Mux.{IsInStep, AreApart}

abbrev parameter_sets : ℕ → List ℕ
parameter_sets i = if i == 0 then 0 ∷ 0 ∷ 0 ∷ 1 ∷ 0x67 ∷ 0x42 ∷ [] else 0x12 ∷ 0x10 ∷ []

abbrev counters : ℕ → ℕ
counters i = 14

abbrev pids : ℕ → ℕ
pids zero = 0x1e1
pids (suc zero) = 0x1e2
pids (suc (suc i)) = 0x1e3

abbrev pub ctx : AvFormatContext
ctx = record {
  pat_continuity_counter = 15;
  pmt_continuity_counter = 3;
  ts_continuity_counter = counters;
  crc_table = init_crc_table;
  track_pid = pids;
  track_csd = parameter_sets;
  track_cnt = 2;
}

abbrev memory : Memory
memory p = p % 256

-- A key frame of 450 bytes in two blocks, and an audio frame of 200 bytes.
abbrev pub key_frame : AvPacket
key_frame = record {
  pts = 40;
  data0 = 1000;
  size0 = 150;
  data1 = 1150;
  size1 = 300;
  stream_idx = 0;
  flags = 1;
}

abbrev pub audio_frame : AvPacket
audio_frame = record {
  pts = 46;
  data0 = 2000;
  size0 = 200;
  data1 = 0;
  size1 = 0;
  stream_idx = 1;
  flags = 1;
}

-- The clock reference of a time in milliseconds, exact.
abbrev pub clock : ℕ → ℕ
clock ms = ms * 27000

pub key_frame-IsSendable : IsSendable ctx key_frame
unfolding stream_head lacks_config
key_frame-IsSendable = record {
  stream = omega arith;
  config = refl;
  placed = inl refl;
  filled = omega arith;
  small = omega arith;
  long = omega arith;
  head = omega arith;
  pid = omega arith;
  counter = omega arith;
}

pub audio_frame-IsSendable : IsSendable ctx audio_frame
unfolding stream_head adts_header lacks_config
audio_frame-IsSendable = record {
  stream = omega arith;
  config = refl;
  placed = inr (refl, omega arith);
  filled = omega arith;
  small = omega arith;
  long = omega arith;
  head = omega arith;
  pid = omega arith;
  counter = omega arith;
}

pids_bound : (i : ℕ) → pids i < 2 ^ 13
pids_bound zero = omega arith
pids_bound (suc zero) = omega arith
pids_bound (suc (suc i)) = omega arith

pub ctx-IsReady : IsReady ctx
ctx-IsReady = record {
  pat = omega arith;
  pmt = omega arith;
  counters = λ i. omega arith;
  pids = pids_bound;
  table = refl;
  tracks = omega arith;
}

pub ctx-AreApart : AreApart ctx
ctx-AreApart = record { not_pat = not_pat; not_pmt = not_pmt; streams = streams }
  where
    not_pat : (i : ℕ) → i < 2 → pids i ≢ 0
    not_pat zero h e = absurd (omega arith)
    not_pat (suc zero) h e = absurd (omega arith)
    not_pat (suc (suc i)) h e = absurd (omega arith)

    not_pmt : (i : ℕ) → i < 2 → pids i ≢ 0x1e0
    not_pmt zero h e = absurd (omega arith)
    not_pmt (suc zero) h e = absurd (omega arith)
    not_pmt (suc (suc i)) h e = absurd (omega arith)

    streams : (i j : ℕ) → i ≢ j → i < 2 → j < 2 → pids i ≢ pids j
    streams zero zero ne hi hj e = ne refl
    streams zero (suc zero) ne hi hj e = absurd (omega arith)
    streams zero (suc (suc j)) ne hi hj e = absurd (omega arith)
    streams (suc zero) zero ne hi hj e = absurd (omega arith)
    streams (suc zero) (suc zero) ne hi hj e = ne refl
    streams (suc zero) (suc (suc j)) ne hi hj e = absurd (omega arith)
    streams (suc (suc i)) j ne hi hj e = absurd (omega arith)

-- A receiver that knows the counters of `ctx`.
abbrev pub known : ℕ → ℕ
known pid = if pid == 0 then 15 else if pid == 0x1e0 then 3 else 14

pub ctx-IsInStep : IsInStep ctx known
ctx-IsInStep = record { pat = refl; pmt = refl; stream = stream }
  where
    stream : (i : ℕ) → i < 2 → known (pids i) ≡ 14
    stream zero h = refl
    stream (suc zero) h = refl
    stream (suc (suc i)) h = absurd (omega arith)

write_program_map_table-IsMapOf_example :
    (packet : List ℕ) × ((write_program_map_table ctx).0 ≡ packet ∷ []) × IsMapOf ctx packet
write_program_map_table-IsMapOf_example =
    write_program_map_table-IsMapOf ctx refl (omega arith) pids_bound

crc32-register_example :
    crc32 init_crc_table (0x31 ∷ 0x32 ∷ 0x33 ∷ []) ≡ register 0xFFFF_FFFF (0x31 ∷ 0x32 ∷ 0x33 ∷ [])
crc32-register_example =
    crc32-register (0x31 ∷ 0x32 ∷ 0x33 ∷ []) (omega arith, (omega arith, (omega arith, tt)))

read_pts-pes_header_example : read_pts (drop 9 (pes_header ctx audio_frame)) ≡ 46 * 90 % 2 ^ 32
read_pts-pes_header_example = read_pts-pes_header ctx audio_frame

-- AAC-LC at 44.1 kHz with two channels, and a frame of 207 bytes with its header.
read_adts-adts_header_example : read_adts (adts_header (config 2 4 2 0 []) 207) ≡ record {
  profile = 1;
  sampling_frequency_index = 4;
  channel_configuration = 2;
  aac_frame_length = 207;
}
read_adts-adts_header_example =
    read_adts-adts_header 2 4 2 0 207 [] (omega arith) (omega arith) (omega arith) (omega arith)
      (omega arith) (omega arith)

-- The loop at the second packet of the key frame.
write_fragments-Finished_example :
    Finished memory 0x1e1 15
      (record { left = 300; ptr = 1150 })
      (write_fragments 301 memory key_frame 0x1e1 15 (record { left = 300; ptr = 1150 }))
write_fragments-Finished_example =
    write_fragments-Finished memory key_frame 0x1e1 (inl refl) (omega arith) 301 15
      (record { left = 300; ptr = 1150 }) (omega arith) (omega arith)
      (record { from = omega arith; to = omega arith })
