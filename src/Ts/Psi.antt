-- ===== src/Ts/Psi.antt =====
-- The two tables that Mpeg2tsMuxer.c writes before each video frame.
pub mod Checked
use pluto_project.Base.{
  ℕ, zero, suc, ◌+◌, ◌-◌, ◌*◌, ◌/◌, ◌%◌, ◌^◌, List, [], ◌∷◌, ◌++◌, bit_and, bit_or, ◌==◌,
  if◌then◌else◌, length, take, drop, replicate,
}
use pluto_project.Base.Calls.{Calls}
use pluto_project.Ts.{AvFormatContext, ts_package_sz, count_up}
use pluto_project.Ts.Crc.{crc32}

-- The bytes of a `char` buffer set to 0xff, after a first part was copied into it.
abbrev pub fill_ff : List ℕ → List ℕ
fill_ff bytes = bytes ++ replicate (ts_package_sz - length bytes) 0xff

unfoldable pub pat_bytes : ℕ → List ℕ
pat_bytes counter = fill_ff (
    0x47
    ∷ 0x40
    ∷ 0x00
    ∷ bit_or 0x10 counter % 256
    ∷ 0x00
    ∷ 0x00
    ∷ 0xb0
    ∷ 0x0d
    ∷ 0x00
    ∷ 0x00
    ∷ 0xc3
    ∷ 0x00
    ∷ 0x00
    ∷ 0x00
    ∷ 0x01
    ∷ 0xe1
    ∷ 0xe0
    ∷ 0xe8
    ∷ 0x5f
    ∷ 0x74
    ∷ 0xec
    ∷ [])

unfoldable pub write_program_association_table : AvFormatContext → Calls × AvFormatContext
write_program_association_table ctx = (
  pat_bytes ctx.pat_continuity_counter ∷ [],
  record ctx { pat_continuity_counter = count_up ctx.pat_continuity_counter },
)

abbrev pub pcr_pid : ℕ
pcr_pid = 0x1e1

-- The descriptions of the streams from `i` on, `n` of them.
unfoldable pub stream_descriptions : (ℕ → ℕ) → ℕ → ℕ → List ℕ
stream_descriptions pid i zero = []
stream_descriptions pid i (suc n) =
    (if i == 0 then 0x1b else 0x0f)
    ∷ bit_or 0xe0 (pid i / 2 ^ 8) % 256
    ∷ bit_and (pid i) 0xff
    ∷ 0xf0
    ∷ 0x00
    ∷ stream_descriptions pid (i + 1) n

-- The section that the checksum covers: the bytes from 5 on.
unfoldable pub pmt_section : AvFormatContext → List ℕ
pmt_section ctx =
    let section_length = 9 + 5 * ctx.track_cnt + 4 in
    0x02
    ∷ bit_or 0xb0 (section_length / 2 ^ 8) % 256
    ∷ bit_and section_length 0xff
    ∷ 0x00
    ∷ 0x01
    ∷ 0xc3
    ∷ 0x00
    ∷ 0x00
    ∷ bit_or 0xe0 (bit_and (pcr_pid / 2 ^ 8) 0x1f)
    ∷ bit_or 0x00 (bit_and pcr_pid 0xff)
    ∷ 0xf0
    ∷ 0x00
    ∷ stream_descriptions ctx.track_pid 0 ctx.track_cnt

-- The bytes in memory of `htonl` of a word.
unfoldable pub network_bytes : ℕ → List ℕ
network_bytes v = v / 2 ^ 24 % 256 ∷ v / 2 ^ 16 % 256 ∷ v / 2 ^ 8 % 256 ∷ v % 256 ∷ []

unfoldable pub pmt_bytes : AvFormatContext → List ℕ
pmt_bytes ctx = fill_ff (
    0x47 ∷ 0x41 ∷ 0xe0 ∷ bit_or 0x10 ctx.pmt_continuity_counter % 256 ∷ 0x00 ∷ pmt_section ctx
    ++ network_bytes (crc32 ctx.crc_table (pmt_section ctx)))

unfoldable pub write_program_map_table : AvFormatContext → Calls × AvFormatContext
write_program_map_table ctx = (
  pmt_bytes ctx ∷ [],
  record ctx { pmt_continuity_counter = count_up ctx.pmt_continuity_counter },
)
