-- ===== src/Signal/Pending.antt =====
-- Setting and clearing one signal in a mask.
use fiwix_arm.Base.{
  arith, bit_and, bit_or, if◌then◌else◌, not, suc, true, zero, ℕ, ◌-◌, ◌<◌, ◌==◌, ◌^◌, ◌≡◌, ◌≤◌,
}
use fiwix_arm.Base.Bits.{
  testbit-zero, bit_and-shl1, testbit, testbit-le, testbit-bit_and, testbit-bit_or,
  testbit-shl1_self, testbit-shl1_ne, testbit-not32,
}
use native.Mathlib.Decide.{ℕ_discrete}
use native.Mathlib.Nat.{one-le-pow, pow-le-pow_right}
use fiwix_arm.Signal.{has_bits, sig_bit, sig_mask, nsig}

-- 1 if the signal is in the mask, 0 if it is not.
abbrev pub in_mask : ℕ → ℕ → ℕ
in_mask m signum = testbit m (signum - 1)

abbrev pub IsSignal : ℕ → Type 0
IsSignal n = (1 ≤ n) × (n ≤ nsig)

pub sig_bit-lt : (s : ℕ) → IsSignal s → sig_bit s < 2 ^ 32
sig_bit-lt s h =
    let top : 2 ^ (s - 1) ≤ 2 ^ 31 = pow-le-pow_right (omega arith) {j = 31} (omega arith) in
    omega arith

pub bit-sig_bit :
    (s n : ℕ) → IsSignal s → IsSignal n → in_mask (sig_bit s) n ≡ (if s == n then 1 else 0)
bit-sig_bit s n hs hn = elim (ℕ_discrete s n) [
  | yes e ↦ rw e (ground (arith, testbit-shl1_self (n - 1)))
  | no ne ↦ ground (arith, testbit-shl1_ne (s - 1) (n - 1) (omega arith))
]

-- Setting a signal adds it to the mask and nothing else.
pub in_mask_set :
    (m s n : ℕ)
    → IsSignal s
    → IsSignal n
    → in_mask (bit_or m (sig_bit s)) n ≡ (if s == n then 1 else in_mask m n)
in_mask_set m s n hs hn =
    ground
      (arith, testbit-bit_or (n - 1) m (sig_bit s), bit-sig_bit s n hs hn, testbit-le (n - 1) m)

-- Clearing a signal takes it out of the mask and nothing else.
pub in_mask_clear :
    (m s n : ℕ)
    → IsSignal s
    → IsSignal n
    → in_mask (bit_and m (sig_mask s)) n ≡ (if s == n then 0 else in_mask m n)
in_mask_clear m s n hs hn = ground (
  arith,
  testbit-bit_and (n - 1) m (sig_mask s),
  testbit-not32 (n - 1) (sig_bit s) (sig_bit-lt s hs) (omega arith),
  bit-sig_bit s n hs hn,
  testbit-le (n - 1) m,
)

-- `mask & (1 << (signum - 1))` as a condition
pub has_bits-sig_bit : (m s : ℕ) → has_bits m (sig_bit s) ≡ (in_mask m s == 1)
has_bits-sig_bit m s =
    ground (arith, bit_and-shl1 (s - 1) m, testbit-le (s - 1) m, one-le-pow (s - 1) 2)

pub ne_zero_of_testbit : (m k : ℕ) → testbit m k ≡ 1 → not (m == 0) ≡ true
ne_zero_of_testbit zero k h = absurd (omega (arith, testbit-zero k))
ne_zero_of_testbit (suc m) k h = ground arith
