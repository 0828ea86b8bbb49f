-- ===== src/Ts/Crc/Rounds.antt =====
-- The table of `initCrcTable` against the shift register that it stands for.
use native.Mathlib.Nat.{pow-suc}
use pluto_project.Base.{
  ℕ, zero, suc, ◌+◌, ◌*◌, ◌/◌, ◌%◌, ◌^◌, ◌≤◌, ◌<◌, ◌≡◌, refl, ap, sym, ◌∙◌, List, [], ◌∷◌, arith,
  bit_and, bit_xor, u32, ◌==◌, if◌then◌else◌, get_or,
}
use pluto_project.Base.Bits.{digitwise_split, bit_and-IsDigitwise}
use pluto_project.Base.Bytes.{bit_and-zero, bit_and_mask}
use pluto_project.Base.Xor.{
  xor_right_comm, xor_comm, xor_bound, xor_below, xor_above, xor_disjoint, xor_double,
}
use pluto_project.Ts.Crc.{
  poly, crc_round, crc_rounds, crc_entry, crc_entries, init_crc_table, crc_step, crc_loop, crc32,
}

-- The shift register: a byte is added at the top, and eight bits are shifted out.
unfoldable pub register_step : ℕ → ℕ → ℕ
register_step crc byte = crc_rounds 8 (bit_xor crc (byte * 2 ^ 24))

unfoldable pub register : ℕ → List ℕ → ℕ
register crc [] = crc
register crc (byte ∷ bytes) = register (register_step crc byte) bytes

abbrev pub AreBytes : List ℕ → Type 0
AreBytes [] = Unit
AreBytes (b ∷ bytes) = (b < 2 ^ 8) × AreBytes bytes

-- What a round adds for the bit that is shifted out.
abbrev feedback : ℕ → ℕ
feedback top = if top == 0 then 0 else poly

bit_and_top : (a b : ℕ) → a < 2 → b < 2 ^ 31 → bit_and (a * 2 ^ 31 + b) (2 ^ 31) ≡ a * 2 ^ 31
bit_and_top a b ha hb =
    let e = digitwise_split bit_and-IsDigitwise 31 a b 1 0 hb (omega arith) in
    omega (arith, e, bit_and_mask 1 a ha, bit_and-zero b)

-- A round on a word, by its highest bit and the rest.
round_split :
    (a b : ℕ)
    → a < 2
    → b < 2 ^ 31
    → crc_round (a * 2 ^ 31 + b) ≡ bit_xor (b * 2) (feedback (a * 2 ^ 31))
unfolding crc_round
round_split a b ha hb =
    let low : u32 ((a * 2 ^ 31 + b) * 2) ≡ b * 2 = omega arith in
    rw (low, bit_and_top a b ha hb) refl

feedback_bound : (top : ℕ) → feedback top < 2 ^ 32
feedback_bound top = ground arith

round_bound : (crc : ℕ) → crc_round crc < 2 ^ 32
unfolding crc_round
round_bound crc = xor_bound 32 _ _ (omega arith) (feedback_bound (bit_and crc 0x8000_0000))

-- A round lets through what is added below the highest bit.
round_xor :
    (crc low : ℕ)
    → crc < 2 ^ 32
    → low < 2 ^ 31
    → crc_round (bit_xor crc low) ≡ bit_xor (crc_round crc) (low * 2)
round_xor crc low hc hl =
    let a = crc / 2 ^ 31 in
    let b = crc % 2 ^ 31 in
    let parts : crc ≡ a * 2 ^ 31 + b = omega arith in
    let sum : bit_xor crc low ≡ a * 2 ^ 31 + bit_xor b low =
      ap (λ t. bit_xor t low) parts ∙ xor_below 31 a b low (omega arith) hl in
    let at_crc : crc_round crc ≡ bit_xor (b * 2) (feedback (a * 2 ^ 31)) =
      ap crc_round parts ∙ round_split a b (omega arith) (omega arith) in
    ap crc_round sum
    ∙ round_split a (bit_xor b low) (omega arith) (xor_bound 31 b low (omega arith) hl)
    ∙ ap (λ t. bit_xor t (feedback (a * 2 ^ 31))) (xor_double b low)
    ∙ xor_right_comm (b * 2) (low * 2) (feedback (a * 2 ^ 31))
    ∙ ap (λ t. bit_xor t (low * 2)) (sym at_crc)

pow_split : (low j : ℕ) → low * 2 ^ suc j ≡ low * 2 * 2 ^ j
pow_split low j = omega (arith, ap (λ (t : ℕ). low * t) (pow-suc 2 j))

le_pow : (low j : ℕ) → low ≤ low * 2 ^ j
le_pow low zero = omega arith
le_pow low (suc j) = omega (arith, pow_split low j, le_pow low j)

-- The table holds at each index what eight rounds make of that byte.
entries_lem : (i n k : ℕ) → k < n → get_or (crc_entries i n) k 0 ≡ crc_entry (i + k)
unfolding crc_entries
entries_lem i zero k h = absurd (omega arith)
entries_lem i (suc n) zero h = ap crc_entry (omega arith)
entries_lem i (suc n) (suc k) h = entries_lem (i + 1) n k (omega arith) ∙ ap crc_entry (omega arith)

rounds_bound : (j crc : ℕ) → crc < 2 ^ 32 → crc_rounds j crc < 2 ^ 32
unfolding crc_rounds
rounds_bound zero crc h = h
rounds_bound (suc j) crc h = rounds_bound j (crc_round crc) (round_bound crc)

entry_lem :
    (i : ℕ) → i < 2 ^ 8 → get_or init_crc_table (bit_and i 0xFF) 0 ≡ crc_rounds 8 (i * 2 ^ 24)
unfolding init_crc_table crc_entry
entry_lem i h =
    let small : u32 (i * 2 ^ 24) ≡ i * 2 ^ 24 = omega arith in
    ap (λ k. get_or init_crc_table k 0) (bit_and_mask 8 i h)
    ∙ entries_lem 0 256 i h
    ∙ ap crc_entry (omega arith)
    ∙ ap (crc_rounds 8) small

rounds_xor :
    (j crc low : ℕ)
    → crc < 2 ^ 32
    → low * 2 ^ j < 2 ^ 32
    → crc_rounds j (bit_xor crc low) ≡ bit_xor (crc_rounds j crc) (low * 2 ^ j)
unfolding crc_rounds
rounds_xor zero crc low hc hl = ap (bit_xor crc) (omega arith)
rounds_xor (suc j) crc low hc hl =
    let bound = pow_split low j in
    let wide = le_pow (low * 2) j in
    ap (crc_rounds j) (round_xor crc low hc (omega arith))
    ∙ rounds_xor j (crc_round crc) (low * 2) (round_bound crc) (omega arith)
    ∙ ap (bit_xor (crc_rounds j (crc_round crc))) (sym bound)

-- A byte at the top of the register: the entry of the table, and the other bytes moved up.
pub register_step_lem :
    (crc byte : ℕ)
    → crc < 2 ^ 32
    → byte < 2 ^ 8
    → register_step crc byte ≡ crc_step init_crc_table crc byte
unfolding register_step crc_step
register_step_lem crc byte hc hb =
    let t = crc / 2 ^ 24 in
    let low = crc % 2 ^ 24 in
    let i = bit_xor t byte in
    let i_bound : i < 2 ^ 8 = xor_bound 8 t byte (omega arith) hb in
    let parts : crc ≡ t * 2 ^ 24 + low = omega arith in
    let shifted : low * 2 ^ 8 ≡ u32 (crc * 2 ^ 8) = omega arith in
    ap (λ c. crc_rounds 8 (bit_xor c (byte * 2 ^ 24))) parts
    ∙ ap (crc_rounds 8)
        (xor_above 24 t low byte (omega arith) ∙ sym (xor_disjoint 24 i low (omega arith)))
    ∙ rounds_xor 8 (i * 2 ^ 24) low (omega arith) (omega arith)
    ∙ ap (bit_xor (crc_rounds 8 (i * 2 ^ 24))) shifted
    ∙ xor_comm (crc_rounds 8 (i * 2 ^ 24)) (u32 (crc * 2 ^ 8))
    ∙ ap (bit_xor (u32 (crc * 2 ^ 8))) (sym (entry_lem i i_bound))

pub register_step_bound :
    (crc byte : ℕ) → crc < 2 ^ 32 → byte < 2 ^ 8 → register_step crc byte < 2 ^ 32
unfolding register_step
register_step_bound crc byte hc hb =
    rounds_bound 8 _ (xor_bound 32 crc (byte * 2 ^ 24) hc (omega arith))

pub crc_loop_lem :
    (bytes : List ℕ) (crc : ℕ)
    → crc < 2 ^ 32
    → AreBytes bytes
    → crc_loop init_crc_table crc bytes ≡ register crc bytes
unfolding crc_loop register
crc_loop_lem [] crc hc hs = refl
crc_loop_lem (byte ∷ bytes) crc hc (hb, hs) =
    ap (λ c. crc_loop init_crc_table c bytes) (sym (register_step_lem crc byte hc hb))
    ∙ crc_loop_lem bytes (register_step crc byte) (register_step_bound crc byte hc hb) hs

-- On any bytes, the checksum by the table is what a register of 32 bits holds after the bytes were
-- shifted into it bit by bit, with the polynomial fed back for each bit that is shifted out.
pub crc32-register :
    (bytes : List ℕ) → AreBytes bytes → crc32 init_crc_table bytes ≡ register 0xFFFF_FFFF bytes
unfolding crc32
crc32-register bytes hs = crc_loop_lem bytes 0xFFFF_FFFF (omega arith) hs
