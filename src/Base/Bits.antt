-- ===== src/Base/Bits.antt =====
-- `&` and `|` on fields of a word, as arithmetic, at every width.
use Prim.Native.Nat.{
  ℕ, zero, suc, ◌+◌, ◌*◌, ◌/◌, ◌%◌, ◌^◌, ◌≤◌, ◌<◌, min, max, bit_and, bit_or, bit_xor, differ,
  digits, bitwise, bit_and-bitwise, bit_or-bitwise, bit_xor-bitwise,
}
use mathlib.Core.Path.{◌≡◌, refl, ap}
use native.Mathlib.Omega.{arith}
use native.Mathlib.Nat.{pow-suc}

-- An operation that acts on the last binary digits of its arguments and, in the same way, on the
-- rest of them.
pub record IsDigitwise (op digit : ℕ → ℕ → ℕ) : Type 0 where
  pub empty : op 0 0 ≡ 0
  pub last : (x y : ℕ) → op x y ≡ op (x / 2) (y / 2) * 2 + digit (x % 2) (y % 2)

-- More rounds than the first argument calls for change nothing.
spare_rounds :
    (rest : ℕ → ℕ) (digit : ℕ → ℕ → ℕ) (x y rounds enough : ℕ)
    → x ≤ enough
    → enough ≤ rounds
    → digits rest digit rounds x y ≡ digits rest digit enough x y
spare_rounds rest digit zero y zero zero h k = refl
spare_rounds rest digit zero y zero (suc enough) h k = absurd (omega arith)
spare_rounds rest digit zero y (suc rounds) zero h k = refl
spare_rounds rest digit zero y (suc rounds) (suc enough) h k = refl
spare_rounds rest digit (suc x) y rounds zero h k = absurd (omega arith)
spare_rounds rest digit (suc x) y zero (suc enough) h k = absurd (omega arith)
spare_rounds rest digit (suc x) y (suc rounds) (suc enough) h k =
    let again =
      spare_rounds rest digit (suc x / 2) (y / 2) rounds enough (omega arith) (omega arith) in
    omega arith

last_digit :
    (rest : ℕ → ℕ) (digit : ℕ → ℕ → ℕ) (x y : ℕ)
    → bitwise rest digit (suc x) y
      ≡ bitwise rest digit (suc x / 2) (y / 2) * 2 + digit (suc x % 2) (y % 2)
last_digit rest digit x y =
    let e = spare_rounds rest digit (suc x / 2) (y / 2) x (suc x / 2) (omega arith) (omega arith) in
    omega arith

last_or : (x y : ℕ) → bit_or x y ≡ bit_or (x / 2) (y / 2) * 2 + max (x % 2) (y % 2)
last_or zero y = omega (arith, bit_or-bitwise 0 y, bit_or-bitwise 0 (y / 2))
last_or (suc x) y = omega (
  arith,
  bit_or-bitwise (suc x) y,
  bit_or-bitwise (suc x / 2) (y / 2),
  last_digit (λ n. n) max x y,
)

last_and : (x y : ℕ) → bit_and x y ≡ bit_and (x / 2) (y / 2) * 2 + min (x % 2) (y % 2)
last_and zero y = omega (arith, bit_and-bitwise 0 y, bit_and-bitwise 0 (y / 2))
last_and (suc x) y = omega (
  arith,
  bit_and-bitwise (suc x) y,
  bit_and-bitwise (suc x / 2) (y / 2),
  last_digit (λ n. 0) min x y,
)

last_xor : (x y : ℕ) → bit_xor x y ≡ bit_xor (x / 2) (y / 2) * 2 + differ (x % 2) (y % 2)
last_xor zero y = omega (arith, bit_xor-bitwise 0 y, bit_xor-bitwise 0 (y / 2))
last_xor (suc x) y = omega (
  arith,
  bit_xor-bitwise (suc x) y,
  bit_xor-bitwise (suc x / 2) (y / 2),
  last_digit (λ n. n) differ x y,
)

pub bit_xor-IsDigitwise : IsDigitwise bit_xor differ
bit_xor-IsDigitwise = record { empty = refl; last = last_xor }

pub bit_or-IsDigitwise : IsDigitwise bit_or max
bit_or-IsDigitwise = record { empty = refl; last = last_or }

pub bit_and-IsDigitwise : IsDigitwise bit_and min
bit_and-IsDigitwise = record { empty = refl; last = last_and }

doubled : (n k : ℕ) → n * 2 ^ suc k ≡ n * 2 ^ k * 2
doubled n k = omega (arith, ap (λ (t : ℕ). n * t) (pow-suc 2 k))

-- Such an operation acts on the low `k` bits and on the rest on their own.
pub digitwise_split :
    {op digit : ℕ → ℕ → ℕ}
    → IsDigitwise op digit
    → (k a b c d : ℕ) → b < 2 ^ k
    → d < 2 ^ k
    → op (a * 2 ^ k + b) (c * 2 ^ k + d) ≡ op a c * 2 ^ k + op b d
digitwise_split {op} w zero a b c d p q =
    let none_b : b ≡ 0 = omega arith in
    let none_d : d ≡ 0 = omega arith in rw (none_b, none_d) (ground (arith, w.empty))
digitwise_split {op} {digit} w (suc k) a b c d p q =
    let low_b : b / 2 < 2 ^ k = omega (arith, pow-suc 2 k) in
    let low_d : d / 2 < 2 ^ k = omega (arith, pow-suc 2 k) in
    ground (
      arith,
      w.last (a * 2 ^ suc k + b) (c * 2 ^ suc k + d),
      w.last b d,
      doubled a k,
      doubled c k,
      doubled (op a c) k,
      pow-suc 2 k,
      digitwise_split w k a (b / 2) c (d / 2) low_b low_d,
    )
