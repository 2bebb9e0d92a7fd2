-- ===== src/Prelude/Bits.antt =====
-- Packed words: `|` of disjoint fields and `&` with a mask of low ones, as arithmetic.
use Prim.Native.Nat.{
  ℕ, zero, suc, ◌+◌, ◌-◌, ◌*◌, ◌/◌, ◌%◌, ◌^◌, ◌≤◌, ◌<◌, min, max, bit_and, bit_or, digits,
  bit_and-bitwise, bit_or-bitwise,
}
use mathlib.Core.Path.{◌≡◌, refl, ap}
use native.Mathlib.Nat.{pow-suc, one-le-pow}
use native.Mathlib.Omega.{arith}

-- The digits taken do not depend on the fuel, once it covers the first number.
module _ (z : ℕ → ℕ) (f : ℕ → ℕ → ℕ) where
  digits_enough : (n m a b : ℕ) → a ≤ n → a ≤ m → digits z f n a b ≡ digits z f m a b
  digits_enough zero zero a b p q = refl
  digits_enough zero (suc m) zero b p q = refl
  digits_enough zero (suc m) (suc a) b p q = absurd (omega arith)
  digits_enough (suc n) zero zero b p q = refl
  digits_enough (suc n) zero (suc a) b p q = absurd (omega arith)
  digits_enough (suc n) (suc m) zero b p q = refl
  digits_enough (suc n) (suc m) (suc a) b p q =
      omega (arith, digits_enough n m (suc a / 2) (b / 2) (omega arith) (omega arith))

zero-bit_or : (b : ℕ) → bit_or 0 b ≡ b
zero-bit_or b = bit_or-bitwise 0 b

zero-bit_and : (b : ℕ) → bit_and 0 b ≡ 0
zero-bit_and b = bit_and-bitwise 0 b

bit_or-lowest : (a b : ℕ) → bit_or a b ≡ bit_or (a / 2) (b / 2) * 2 + max (a % 2) (b % 2)
bit_or-lowest zero b = omega (arith, zero-bit_or b, zero-bit_or (b / 2))
bit_or-lowest (suc a) b = omega (
  arith,
  bit_or-bitwise (suc a) b,
  bit_or-bitwise (suc a / 2) (b / 2),
  digits_enough (λ y. y) max a (suc a / 2) (suc a / 2) (b / 2) (omega arith) (omega arith),
)

bit_and-lowest : (a b : ℕ) → bit_and a b ≡ bit_and (a / 2) (b / 2) * 2 + min (a % 2) (b % 2)
bit_and-lowest zero b = omega (arith, zero-bit_and b, zero-bit_and (b / 2))
bit_and-lowest (suc a) b = omega (
  arith,
  bit_and-bitwise (suc a) b,
  bit_and-bitwise (suc a / 2) (b / 2),
  digits_enough (λ y. 0) min a (suc a / 2) (suc a / 2) (b / 2) (omega arith) (omega arith),
)

double-pow : (q k : ℕ) → q * 2 ^ suc k ≡ 2 * (q * 2 ^ k)
double-pow q k = omega (arith, ap (λ (t : ℕ). q * t) (pow-suc 2 k))

-- `r | (q << k)` is the sum, where `r` has at most `k` bits.
pub bit_or-shifted : (k r q : ℕ) → r < 2 ^ k → bit_or r (q * 2 ^ k) ≡ r + q * 2 ^ k
bit_or-shifted zero r q h = let e : r ≡ 0 = omega arith in rw e (omega (arith, zero-bit_or (q * 1)))
bit_or-shifted (suc k) r q h =
    let half : r / 2 < 2 ^ k = omega (arith, pow-suc 2 k) in
    ground (arith, bit_or-lowest r (q * 2 ^ suc k), double-pow q k, bit_or-shifted k (r / 2) q half)

bit_and-zero_enough : (n a : ℕ) → a ≤ n → bit_and a 0 ≡ 0
bit_and-zero_enough n zero h = refl
bit_and-zero_enough zero (suc a) h = absurd (omega arith)
bit_and-zero_enough (suc n) (suc a) h =
    omega (arith, bit_and-lowest (suc a) 0, bit_and-zero_enough n (suc a / 2) (omega arith))

-- The mask keeps the low field of a word in two fields.
bit_and-low_field : (k q r : ℕ) → r < 2 ^ k → bit_and (q * 2 ^ k + r) (2 ^ k - 1) ≡ r
bit_and-low_field zero q r h =
    let e : r ≡ 0 = omega arith in
    rw e (omega (arith, bit_and-zero_enough (q * 1 + 0) (q * 1 + 0) (omega arith)))
bit_and-low_field (suc k) q r h =
    let half : r / 2 < 2 ^ k = omega (arith, pow-suc 2 k) in
    ground (
      arith,
      bit_and-lowest (q * 2 ^ suc k + r) (2 ^ suc k - 1),
      double-pow q k,
      pow-suc 2 k,
      one-le-pow k 2,
      bit_and-low_field k q (r / 2) half,
    )

-- `a & (2^k - 1)` is the remainder by `2^k`.
pub bit_and-mask : (k a : ℕ) → bit_and a (2 ^ k - 1) ≡ a % 2 ^ k
bit_and-mask k a = ground (arith, one-le-pow k 2, bit_and-low_field k (a / 2 ^ k) (a % 2 ^ k))
