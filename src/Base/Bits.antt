-- ===== src/Base/Bits.antt =====
-- The binary digits of a mask. `bit_and`, `bit_or` and the 32-bit complement act on each digit.
use Prim.Native.Nat.{
  ℕ, zero, suc, ◌+◌, ◌-◌, ◌*◌, ◌/◌, ◌%◌, ◌^◌, ◌≤◌, ◌<◌, min, max, digits, bit_and, bit_or,
  bit_and-bitwise, bit_or-bitwise,
}
use mathlib.Core.Path.{◌≡◌, refl, ap, ◌∙◌}
use mathlib.Core.Logic.{◌≢◌}
use native.Mathlib.Nat.{pow-suc, one-le-pow}
use native.Mathlib.Omega.{arith}

-- Digit `k` of `a`, 0 or 1.
unfoldable pub testbit : ℕ → ℕ → ℕ
testbit a zero = a % 2
testbit a (suc k) = testbit (a / 2) k

-- `1 << k` on an unsigned int, for k < 32.
abbrev pub shl1 : ℕ → ℕ
shl1 k = 2 ^ k

-- What an unsigned short keeps of a number.
abbrev pub u16 : ℕ → ℕ
u16 n = n % 2 ^ 16

abbrev pub u32 : ℕ → ℕ
u32 n = n % 2 ^ 32

-- `~m` on an unsigned int
abbrev pub not32 : ℕ → ℕ
not32 m = 2 ^ 32 - 1 - m

pub testbit-le : (k a : ℕ) → testbit a k ≤ 1
unfolding testbit
testbit-le zero a = omega arith
testbit-le (suc k) a = testbit-le k (a / 2)

-- The native operations recur on a count of digits; any count that covers the number serves.
module _ (z : ℕ → ℕ) (f : ℕ → ℕ → ℕ) where
  digits_enough : (n m a b : ℕ) → a ≤ n → a ≤ m → digits z f n a b ≡ digits z f m a b
  digits_enough zero zero zero b p q = refl
  digits_enough zero zero (suc a) b p q = absurd (omega arith)
  digits_enough zero (suc m) zero b p q = refl
  digits_enough zero (suc m) (suc a) b p q = absurd (omega arith)
  digits_enough (suc n) zero zero b p q = refl
  digits_enough (suc n) zero (suc a) b p q = absurd (omega arith)
  digits_enough (suc n) (suc m) zero b p q = refl
  digits_enough (suc n) (suc m) (suc a) b p q =
      let rest = digits_enough n m (suc a / 2) (b / 2) (omega arith) (omega arith) in
      ap (λ t. t * 2 + f (suc a % 2) (b % 2)) rest

zero-bit_or : (b : ℕ) → bit_or 0 b ≡ b
zero-bit_or b = bit_or-bitwise 0 b

zero-bit_and : (b : ℕ) → bit_and 0 b ≡ 0
zero-bit_and b = bit_and-bitwise 0 b

bit_and-digit : (a b : ℕ) → bit_and a b ≡ bit_and (a / 2) (b / 2) * 2 + min (a % 2) (b % 2)
bit_and-digit zero b = omega (arith, zero-bit_and b, zero-bit_and (b / 2))
bit_and-digit (suc a) b = omega (
  arith,
  bit_and-bitwise (suc a) b,
  bit_and-bitwise (suc a / 2) (b / 2),
  digits_enough (λ _. 0) min a (suc a / 2) (suc a / 2) (b / 2) (omega arith) (omega arith),
)

bit_or-digit : (a b : ℕ) → bit_or a b ≡ bit_or (a / 2) (b / 2) * 2 + max (a % 2) (b % 2)
bit_or-digit zero b = omega (arith, zero-bit_or b, zero-bit_or (b / 2))
bit_or-digit (suc a) b = omega (
  arith,
  bit_or-bitwise (suc a) b,
  bit_or-bitwise (suc a / 2) (b / 2),
  digits_enough (λ y. y) max a (suc a / 2) (suc a / 2) (b / 2) (omega arith) (omega arith),
)

pub testbit-bit_and : (k a b : ℕ) → testbit (bit_and a b) k ≡ min (testbit a k) (testbit b k)
unfolding testbit
testbit-bit_and zero a b = omega (arith, bit_and-digit a b)
testbit-bit_and (suc k) a b =
    let half : bit_and a b / 2 ≡ bit_and (a / 2) (b / 2) = omega (arith, bit_and-digit a b) in
    ap (λ t. testbit t k) half ∙ testbit-bit_and k (a / 2) (b / 2)

pub testbit-bit_or : (k a b : ℕ) → testbit (bit_or a b) k ≡ max (testbit a k) (testbit b k)
unfolding testbit
testbit-bit_or zero a b = omega (arith, bit_or-digit a b)
testbit-bit_or (suc k) a b =
    let half : bit_or a b / 2 ≡ bit_or (a / 2) (b / 2) = omega (arith, bit_or-digit a b) in
    ap (λ t. testbit t k) half ∙ testbit-bit_or k (a / 2) (b / 2)

pub testbit-zero : (k : ℕ) → testbit 0 k ≡ 0
unfolding testbit
testbit-zero zero = refl
testbit-zero (suc k) = testbit-zero k

pub testbit-shl1_self : (k : ℕ) → testbit (shl1 k) k ≡ 1
unfolding testbit
testbit-shl1_self zero = refl
testbit-shl1_self (suc k) =
    let half : 2 ^ suc k / 2 ≡ 2 ^ k = omega (arith, pow-suc 2 k) in
    ap (λ t. testbit t k) half ∙ testbit-shl1_self k

pub testbit-shl1_ne : (k j : ℕ) → k ≢ j → testbit (shl1 k) j ≡ 0
unfolding testbit
testbit-shl1_ne zero zero ne = absurd (ne refl)
testbit-shl1_ne zero (suc j) ne = testbit-zero j
testbit-shl1_ne (suc k) zero ne = omega (arith, pow-suc 2 k)
testbit-shl1_ne (suc k) (suc j) ne =
    let half : 2 ^ suc k / 2 ≡ 2 ^ k = omega (arith, pow-suc 2 k) in
    ap (λ t. testbit t j) half ∙ testbit-shl1_ne k j (λ e. ne (ap suc e))

-- The complement in `w` digits flips each of them.
testbit-complement : (w k m : ℕ) → m < 2 ^ w → k < w → testbit (2 ^ w - 1 - m) k + testbit m k ≡ 1
unfolding testbit
testbit-complement zero k m h lt = absurd (omega arith)
testbit-complement (suc w) zero m h lt = omega (arith, pow-suc 2 w, one-le-pow w 2)
testbit-complement (suc w) (suc k) m h lt =
    let half : (2 ^ suc w - 1 - m) / 2 ≡ 2 ^ w - 1 - m / 2 =
      omega (arith, pow-suc 2 w, one-le-pow w 2) in
    let below : m / 2 < 2 ^ w = omega (arith, pow-suc 2 w) in
    ap (λ t. testbit t k + testbit (m / 2) k) half
    ∙ testbit-complement w k (m / 2) below (omega arith)

pub testbit-not32 : (k m : ℕ) → m < 2 ^ 32 → k < 32 → testbit (not32 m) k ≡ 1 - testbit m k
testbit-not32 k m h lt = omega (arith, testbit-complement 32 k m h lt)

bit_and-zero : (n a : ℕ) → a ≤ n → bit_and a 0 ≡ 0
bit_and-zero n zero h = refl
bit_and-zero zero (suc a) h = absurd (omega arith)
bit_and-zero (suc n) (suc a) h =
    omega (arith, bit_and-digit (suc a) 0, bit_and-zero n (suc a / 2) (omega arith))

bit_and-le_fuel : (n a b : ℕ) → b ≤ n → bit_and a b ≤ b
bit_and-le_fuel n a zero h = omega (arith, bit_and-zero a a (omega arith))
bit_and-le_fuel zero a (suc b) h = absurd (omega arith)
bit_and-le_fuel (suc n) a (suc b) h =
    omega (arith, bit_and-digit a (suc b), bit_and-le_fuel n (a / 2) (suc b / 2) (omega arith))

pub bit_and-le_right : (a b : ℕ) → bit_and a b ≤ b
bit_and-le_right a b = bit_and-le_fuel b a b (omega arith)

-- Testing one bit with a mask.
pub bit_and-shl1 : (k m : ℕ) → bit_and m (shl1 k) ≡ testbit m k * shl1 k
unfolding testbit
bit_and-shl1 zero m = omega (arith, bit_and-digit m 1, bit_and-zero (m / 2) (m / 2) (omega arith))
bit_and-shl1 (suc k) m = omega (
  arith,
  bit_and-digit m (2 ^ suc k),
  pow-suc 2 k,
  half,
  bit_and-shl1 k (m / 2),
  ap (λ (t : ℕ). testbit (m / 2) k * t) (pow-suc 2 k),
)
  where
    half : bit_and (m / 2) (2 ^ suc k / 2) ≡ bit_and (m / 2) (2 ^ k)
    half = ap (bit_and (m / 2)) (omega (arith, pow-suc 2 k))
