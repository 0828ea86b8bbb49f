-- ===== src/Ts/Crc/Residue.antt =====
-- A receiver of a section runs the checksum over its four last bytes too, and expects 0.
use pluto_project.Base.{
  ℕ, ◌*◌, ◌/◌, ◌%◌, ◌^◌, ◌<◌, ◌≡◌, refl, sym, subst, ◌∙◌, List, [], ◌∷◌, ◌++◌, arith, u32, get_or,
}
use pluto_project.Base.Xor.{xor_same, xor-zero}
use pluto_project.Ts.Crc.{
  init_crc_table, crc_entries, crc_entry, crc_rounds, crc_round, crc_step, crc_loop, crc32,
}
use pluto_project.Ts.Crc.Rounds.{
  AreBytes, register, register_step, register_step_bound, crc_loop_lem,
}
use pluto_project.Ts.Psi.{network_bytes}

first_entry : get_or init_crc_table 0 0 ≡ 0
unfolding init_crc_table crc_entries crc_entry crc_rounds crc_round
first_entry = refl

-- The byte at the top of the register empties it.
step_out :
    (crc byte : ℕ) → byte ≡ crc / 2 ^ 24 → crc_step init_crc_table crc byte ≡ u32 (crc * 2 ^ 8)
unfolding crc_step
step_out crc byte e = rw (e, xor_same (crc / 2 ^ 24), first_entry) (xor-zero (u32 (crc * 2 ^ 8)))

-- A register that is given its own bytes, from the highest on, ends at 0.
pub crc_loop-network_bytes :
    (crc : ℕ) → crc < 2 ^ 32 → crc_loop init_crc_table crc (network_bytes crc) ≡ 0
unfolding crc_loop network_bytes
crc_loop-network_bytes crc h =
    let one = u32 (crc * 2 ^ 8) in
    let two = u32 (one * 2 ^ 8) in
    let three = u32 (two * 2 ^ 8) in
    rw
      (
        step_out crc (crc / 2 ^ 24 % 256) (omega arith),
        step_out one (crc / 2 ^ 16 % 256) (omega arith),
        step_out two (crc / 2 ^ 8 % 256) (omega arith),
        step_out three (crc % 256) (omega arith),
      )
      (omega arith)

crc_loop-append :
    (xs ys : List ℕ) (crc : ℕ)
    → crc_loop init_crc_table crc (xs ++ ys)
      ≡ crc_loop init_crc_table (crc_loop init_crc_table crc xs) ys
unfolding crc_loop
crc_loop-append [] ys crc = refl
crc_loop-append (x ∷ xs) ys crc = crc_loop-append xs ys (crc_step init_crc_table crc x)

register_bound :
    (bytes : List ℕ) (crc : ℕ) → crc < 2 ^ 32 → AreBytes bytes → register crc bytes < 2 ^ 32
unfolding register
register_bound [] crc h hs = h
register_bound (b ∷ bytes) crc h (hb, hs) =
    register_bound bytes (register_step crc b) (register_step_bound crc b h hb) hs

-- A section of bytes that ends with its checksum passes the check.
pub crc32-residue :
    (bytes : List ℕ)
    → AreBytes bytes
    → crc32 init_crc_table (bytes ++ network_bytes (crc32 init_crc_table bytes)) ≡ 0
unfolding crc32
crc32-residue bytes hs =
    let crc = crc_loop init_crc_table 0xFFFF_FFFF bytes in
    let e = crc_loop_lem bytes 0xFFFF_FFFF (omega arith) hs in
    let bound : crc < 2 ^ 32 =
      subst (λ n. n < 2 ^ 32) (sym e) (register_bound bytes 0xFFFF_FFFF (omega arith) hs) in
    crc_loop-append bytes (network_bytes crc) 0xFFFF_FFFF ∙ crc_loop-network_bytes crc bound
