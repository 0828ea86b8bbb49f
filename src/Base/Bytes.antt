-- ===== src/Base/Bytes.antt =====
-- Words of four bytes: `&` and `|` act on each byte on its own.
use Prim.Native.Nat.{
  ℕ, zero, suc, ◌+◌, ◌-◌, ◌*◌, ◌/◌, ◌%◌, ◌^◌, ◌<◌, ◌≤◌, bit_and, bit_or, bit_or-bitwise,
}
use mathlib.Core.Path.{◌≡◌, refl, ap, sym, ◌∙◌}
use native.Mathlib.Omega.{arith}
use native.Mathlib.Nat.{pow-suc, div-add-mod, mod-lt}
use pluto_project.Base.Bits.{bit_or-IsDigitwise, bit_and-IsDigitwise, digitwise_split}

-- The word with the bytes `a`, `b`, `c`, `d`, from the highest on.
abbrev pub word : ℕ → ℕ → ℕ → ℕ → ℕ
word a b c d = ((a * 2 ^ 8 + b) * 2 ^ 8 + c) * 2 ^ 8 + d

bit_and-zero_fuel : (n a : ℕ) → a ≤ n → bit_and a 0 ≡ 0
bit_and-zero_fuel zero zero h = refl
bit_and-zero_fuel zero (suc a) h = absurd (omega arith)
bit_and-zero_fuel (suc n) a h =
    omega (arith, bit_and-IsDigitwise.last a 0, bit_and-zero_fuel n (a / 2) (omega arith))

pub bit_and-zero : (a : ℕ) → bit_and a 0 ≡ 0
bit_and-zero a = bit_and-zero_fuel a a (omega arith)

bit_or-zero_fuel : (n a : ℕ) → a ≤ n → bit_or a 0 ≡ a
bit_or-zero_fuel zero zero h = refl
bit_or-zero_fuel zero (suc a) h = absurd (omega arith)
bit_or-zero_fuel (suc n) zero h = refl
bit_or-zero_fuel (suc n) (suc a) h =
    omega (arith, bit_or-IsDigitwise.last (suc a) 0, bit_or-zero_fuel n (suc a / 2) (omega arith))

pub bit_or-zero : (a : ℕ) → bit_or a 0 ≡ a
bit_or-zero a = bit_or-zero_fuel a a (omega arith)

pub zero-bit_or : (a : ℕ) → bit_or 0 a ≡ a
zero-bit_or a = bit_or-bitwise 0 a

-- A mask of ones keeps the bits below it.
pub bit_and_mask : (k a : ℕ) → a < 2 ^ k → bit_and a (2 ^ k - 1) ≡ a
bit_and_mask zero a h = let e : a ≡ 0 = omega arith in rw e refl
bit_and_mask (suc k) a h =
    let half : (2 ^ suc k - 1) / 2 ≡ 2 ^ k - 1 = ground (arith, pow-suc 2 k) in
    let e = bit_and_mask k (a / 2) (omega (arith, pow-suc 2 k)) in
    let e' : bit_and (a / 2) ((2 ^ suc k - 1) / 2) ≡ a / 2 = ap (bit_and (a / 2)) half ∙ e in
    let odd : (2 ^ suc k - 1) % 2 ≡ 1 = ground (arith, pow-suc 2 k) in
    omega (arith, bit_and-IsDigitwise.last a (2 ^ suc k - 1))

pow_pos : (k : ℕ) → 0 < 2 ^ k
pow_pos zero = omega arith
pow_pos (suc k) = omega (arith, pow-suc 2 k, pow_pos k)

-- A mask of ones takes the remainder.
pub bit_and_low : (k a : ℕ) → bit_and a (2 ^ k - 1) ≡ a % 2 ^ k
bit_and_low k a =
    let pos = pow_pos k in
    let parts : a ≡ a / 2 ^ k * 2 ^ k + a % 2 ^ k = omega (arith, div-add-mod a (2 ^ k)) in
    let low : a % 2 ^ k < 2 ^ k = mod-lt a pos in
    let ones : 0 * 2 ^ k + (2 ^ k - 1) ≡ 2 ^ k - 1 = omega arith in
    let none_above = ap (λ (t : ℕ). t * 2 ^ k) (bit_and-zero (a / 2 ^ k)) in
    ap (λ x. bit_and x (2 ^ k - 1)) parts
    ∙ ap (bit_and (a / 2 ^ k * 2 ^ k + a % 2 ^ k)) (sym ones)
    ∙ digitwise_split bit_and-IsDigitwise k (a / 2 ^ k) (a % 2 ^ k) 0 (2 ^ k - 1) low (omega arith)
    ∙ omega (arith, none_above, bit_and_mask k (a % 2 ^ k) low)

-- Words without a common bit.
pub bit_or_disjoint : (k a b : ℕ) → b < 2 ^ k → bit_or (a * 2 ^ k) b ≡ a * 2 ^ k + b
bit_or_disjoint k a b h =
    let pos : 0 < 2 ^ k = omega arith in
    let e : a * 2 ^ k + 0 ≡ a * 2 ^ k = omega arith in
    let e' : 0 * 2 ^ k + b ≡ b = omega arith in
    ap (λ t. bit_or t b) (sym e)
    ∙ ap (bit_or (a * 2 ^ k + 0)) (sym e')
    ∙ digitwise_split bit_or-IsDigitwise k a 0 0 b pos h
    ∙ ap (λ (t : ℕ). t * 2 ^ k + bit_or 0 b) (bit_or-zero a)
    ∙ ap (λ (t : ℕ). a * 2 ^ k + t) (zero-bit_or b)

module _ (a b c d a' b' c' d' : ℕ) (hb : b < 2 ^ 8) (hc : c < 2 ^ 8) (hd : d < 2 ^ 8)
    (hb' : b' < 2 ^ 8) (hc' : c' < 2 ^ 8) (hd' : d' < 2 ^ 8) where
  pub bit_and-word :
      bit_and (word a b c d) (word a' b' c' d')
      ≡ word (bit_and a a') (bit_and b b') (bit_and c c') (bit_and d d')
  bit_and-word =
      rw
        (
          digitwise_split bit_and-IsDigitwise 8 ((a * 2 ^ 8 + b) * 2 ^ 8 + c) d
              ((a' * 2 ^ 8 + b') * 2 ^ 8 + c') d' hd hd',
          digitwise_split bit_and-IsDigitwise 8 (a * 2 ^ 8 + b) c (a' * 2 ^ 8 + b') c' hc hc',
          digitwise_split bit_and-IsDigitwise 8 a b a' b' hb hb',
        )
        refl

  pub bit_or-word :
      bit_or (word a b c d) (word a' b' c' d')
      ≡ word (bit_or a a') (bit_or b b') (bit_or c c') (bit_or d d')
  bit_or-word =
      rw
        (
          digitwise_split bit_or-IsDigitwise 8 ((a * 2 ^ 8 + b) * 2 ^ 8 + c) d
              ((a' * 2 ^ 8 + b') * 2 ^ 8 + c') d' hd hd',
          digitwise_split bit_or-IsDigitwise 8 (a * 2 ^ 8 + b) c (a' * 2 ^ 8 + b') c' hc hc',
          digitwise_split bit_or-IsDigitwise 8 a b a' b' hb hb',
        )
        refl
