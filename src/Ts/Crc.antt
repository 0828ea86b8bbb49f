-- ===== src/Ts/Crc.antt =====
-- The checksum of Mpeg2tsMuxer.c: `initCrcTable` and `crc32`.
pub mod Rounds
pub mod Residue
use pluto_project.Base.{
  ℕ, zero, suc, ◌+◌, ◌*◌, ◌/◌, ◌^◌, List, [], ◌∷◌, bit_and, bit_xor, u32, ◌==◌, if◌then◌else◌,
  get_or,
}

abbrev pub poly : ℕ
poly = 0x04C1_1DB7

unfoldable pub crc_round : ℕ → ℕ
crc_round crc = bit_xor (u32 (crc * 2)) (if bit_and crc 0x8000_0000 == 0 then 0 else poly)

unfoldable pub crc_rounds : ℕ → ℕ → ℕ
crc_rounds zero crc = crc
crc_rounds (suc j) crc = crc_rounds j (crc_round crc)

unfoldable pub crc_entry : ℕ → ℕ
crc_entry i = crc_rounds 8 (u32 (i * 2 ^ 24))

-- The entries `i`, `i + 1`, ..., `n` of them.
unfoldable pub crc_entries : ℕ → ℕ → List ℕ
crc_entries i zero = []
crc_entries i (suc n) = crc_entry i ∷ crc_entries (i + 1) n

unfoldable pub init_crc_table : List ℕ
init_crc_table = crc_entries 0 256

unfoldable pub crc_step : List ℕ → ℕ → ℕ → ℕ
crc_step table crc byte =
    bit_xor (u32 (crc * 2 ^ 8)) (get_or table (bit_and (bit_xor (crc / 2 ^ 24) byte) 0xFF) 0)

unfoldable pub crc_loop : List ℕ → ℕ → List ℕ → ℕ
crc_loop table crc [] = crc
crc_loop table crc (byte ∷ bytes) = crc_loop table (crc_step table crc byte) bytes

unfoldable pub crc32 : List ℕ → List ℕ → ℕ
crc32 table bytes = crc_loop table 0xFFFF_FFFF bytes
