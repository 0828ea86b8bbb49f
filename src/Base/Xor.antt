-- ===== src/Base/Xor.antt =====
-- Exclusive or of words.
use Prim.Native.Nat.{
  ℕ, zero, suc, ◌+◌, ◌*◌, ◌/◌, ◌%◌, ◌^◌, ◌≤◌, ◌<◌, bit_xor, differ, bit_xor-bitwise,
}
use mathlib.Core.Path.{◌≡◌, refl, ap, sym, ◌∙◌}
use mathlib.Core.Logic.{◌⊎◌, inl, inr}
use native.Mathlib.Omega.{arith}
use native.Mathlib.Nat.{pow-suc}
use pluto_project.Base.Bits.{bit_xor-IsDigitwise, digitwise_split}

abbrev IsBit : ℕ → Type 0
IsBit a = (a ≡ 0) ⊎ (a ≡ 1)

mod-IsBit : (x : ℕ) → IsBit (x % 2)
mod-IsBit x = ground arith

exchange : (a b c : ℕ) → IsBit a → IsBit b → IsBit c → differ (differ a b) c ≡ differ (differ a c) b
exchange a b c (inl p) (inl q) (inl r) = rw (p, q, r) refl
exchange a b c (inl p) (inl q) (inr r) = rw (p, q, r) refl
exchange a b c (inl p) (inr q) (inl r) = rw (p, q, r) refl
exchange a b c (inl p) (inr q) (inr r) = rw (p, q, r) refl
exchange a b c (inr p) (inl q) (inl r) = rw (p, q, r) refl
exchange a b c (inr p) (inl q) (inr r) = rw (p, q, r) refl
exchange a b c (inr p) (inr q) (inl r) = rw (p, q, r) refl
exchange a b c (inr p) (inr q) (inr r) = rw (p, q, r) refl

differ_bound : (a b : ℕ) → IsBit a → IsBit b → differ a b < 2
differ_bound a b (inl p) (inl q) = rw (p, q) (omega arith)
differ_bound a b (inl p) (inr q) = rw (p, q) (omega arith)
differ_bound a b (inr p) (inl q) = rw (p, q) (omega arith)
differ_bound a b (inr p) (inr q) = rw (p, q) (omega arith)

-- One digit of the law of exchange, and of `x ^ x`.
differ_right_comm :
    (x y z : ℕ) → differ (differ (x % 2) (y % 2)) (z % 2) ≡ differ (differ (x % 2) (z % 2)) (y % 2)
differ_right_comm x y z = exchange (x % 2) (y % 2) (z % 2) (mod-IsBit x) (mod-IsBit y) (mod-IsBit z)

differ_digit : (x y : ℕ) → differ (x % 2) (y % 2) < 2
differ_digit x y = differ_bound (x % 2) (y % 2) (mod-IsBit x) (mod-IsBit y)

differ_same : (x : ℕ) → differ (x % 2) (x % 2) ≡ 0
differ_same x = elim (mod-IsBit x) [ inl a ↦ rw a refl | inr a ↦ rw a refl ]

xor_last : (x y : ℕ) → bit_xor x y ≡ bit_xor (x / 2) (y / 2) * 2 + differ (x % 2) (y % 2)
xor_last = bit_xor-IsDigitwise.last

xor_half : (x y : ℕ) → bit_xor x y / 2 ≡ bit_xor (x / 2) (y / 2)
xor_half x y = omega (arith, xor_last x y, differ_digit x y)

xor_digit : (x y : ℕ) → bit_xor x y % 2 ≡ differ (x % 2) (y % 2)
xor_digit x y = omega (arith, xor_last x y, differ_digit x y)

right_comm_fuel :
    (n x y z : ℕ) → x ≤ n → y ≤ n → z ≤ n → bit_xor (bit_xor x y) z ≡ bit_xor (bit_xor x z) y
right_comm_fuel zero x y z hx hy hz =
    let ex : x ≡ 0 = omega arith in
    let ey : y ≡ 0 = omega arith in let ez : z ≡ 0 = omega arith in rw (ex, ey, ez) refl
right_comm_fuel (suc n) x y z hx hy hz =
    let e = right_comm_fuel n (x / 2) (y / 2) (z / 2) (omega arith) (omega arith) (omega arith) in
    rw
      (
        xor_last (bit_xor x y) z,
        xor_last (bit_xor x z) y,
        xor_half x y,
        xor_half x z,
        xor_digit x y,
        xor_digit x z,
        e,
        differ_right_comm x y z,
      )
      refl

pub xor_right_comm : (x y z : ℕ) → bit_xor (bit_xor x y) z ≡ bit_xor (bit_xor x z) y
xor_right_comm x y z = right_comm_fuel (x + y + z) x y z (omega arith) (omega arith) (omega arith)

xor_same_fuel : (n x : ℕ) → x ≤ n → bit_xor x x ≡ 0
xor_same_fuel zero x h = let e : x ≡ 0 = omega arith in rw e refl
xor_same_fuel (suc n) x h =
    omega (arith, xor_last x x, differ_same x, xor_same_fuel n (x / 2) (omega arith))

pub xor_same : (x : ℕ) → bit_xor x x ≡ 0
xor_same x = xor_same_fuel x x (omega arith)

pub zero-xor : (x : ℕ) → bit_xor 0 x ≡ x
zero-xor x = bit_xor-bitwise 0 x

pub xor_comm : (x y : ℕ) → bit_xor x y ≡ bit_xor y x
xor_comm x y =
    ap (λ t. bit_xor t y) (sym (zero-xor x))
    ∙ xor_right_comm 0 x y
    ∙ ap (λ t. bit_xor t x) (zero-xor y)

-- Words of `k` bits stay so.
pub xor_bound : (k x y : ℕ) → x < 2 ^ k → y < 2 ^ k → bit_xor x y < 2 ^ k
xor_bound zero x y hx hy =
    let ex : x ≡ 0 = omega arith in let ey : y ≡ 0 = omega arith in rw (ex, ey) (omega arith)
xor_bound (suc k) x y hx hy =
    let p = pow-suc 2 k in
    let e = xor_bound k (x / 2) (y / 2) (omega arith) (omega arith) in
    omega (arith, xor_last x y, differ_digit x y)

pub xor-zero : (x : ℕ) → bit_xor x 0 ≡ x
xor-zero x = xor_comm x 0 ∙ zero-xor x

-- What is added below a bit leaves the bits from it on as they are.
pub xor_below :
    (k a b low : ℕ)
    → b < 2 ^ k
    → low < 2 ^ k
    → bit_xor (a * 2 ^ k + b) low ≡ a * 2 ^ k + bit_xor b low
xor_below k a b low hb hl =
    let e : 0 * 2 ^ k + low ≡ low = omega arith in
    ap (bit_xor (a * 2 ^ k + b)) (sym e)
    ∙ digitwise_split bit_xor-IsDigitwise k a b 0 low hb hl
    ∙ ap (λ (t : ℕ). t * 2 ^ k + bit_xor b low) (xor-zero a)

-- Words without a common bit.
pub xor_disjoint : (k a b : ℕ) → b < 2 ^ k → bit_xor (a * 2 ^ k) b ≡ a * 2 ^ k + b
xor_disjoint k a b h =
    let pos : 0 < 2 ^ k = omega arith in
    let e : a * 2 ^ k + 0 ≡ a * 2 ^ k = omega arith in
    ap (λ t. bit_xor t b) (sym e)
    ∙ xor_below k a 0 b pos h
    ∙ ap (λ (t : ℕ). a * 2 ^ k + t) (zero-xor b)

pub xor_double : (x y : ℕ) → bit_xor x y * 2 ≡ bit_xor (x * 2) (y * 2)
xor_double x y =
    let half_x : x * 2 / 2 ≡ x = omega arith in
    let half_y : y * 2 / 2 ≡ y = omega arith in
    let even_x : x * 2 % 2 ≡ 0 = omega arith in
    let even_y : y * 2 % 2 ≡ 0 = omega arith in
    rw (xor_last (x * 2) (y * 2), half_x, half_y, even_x, even_y) (omega arith)

-- The same for the bits from `k` on of both words.
pub xor_above :
    (k a b c : ℕ) → b < 2 ^ k → bit_xor (a * 2 ^ k + b) (c * 2 ^ k) ≡ bit_xor a c * 2 ^ k + b
xor_above k a b c hb =
    let pos : 0 < 2 ^ k = omega arith in
    let e : c * 2 ^ k + 0 ≡ c * 2 ^ k = omega arith in
    ap (bit_xor (a * 2 ^ k + b)) (sym e)
    ∙ digitwise_split bit_xor-IsDigitwise k a b c 0 hb pos
    ∙ ap (λ (t : ℕ). bit_xor a c * 2 ^ k + t) (xor-zero b)
