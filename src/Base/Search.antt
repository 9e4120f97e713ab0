-- ===== src/Base/Search.antt =====
-- The search for the first index of a table that passes a test.
use fiwix_arm.Base.{
  Bool, Option, ap, arith, false, if-cases, if◌then◌else◌, none, some, suc, sym, true, zero, ℕ, ◌+◌,
  ◌<◌, ◌∙◌, ◌≡◌, ◌≤◌,
}
use native.Mathlib.Decide.{ℕ_discrete}

-- The first of `k` indices, from `n` on in steps of `step`, that a test holds of.
unfoldable pub first_index : (ℕ → Bool) → ℕ → ℕ → ℕ → Option ℕ
first_index test n step zero = none
first_index test n step (suc k) =
    let rest = first_index test (n + step) step k in if test n then some n else rest

-- What a search over indices `n`, `n + 1`, ... finds.
abbrev pub Found : (ℕ → Bool) → ℕ → ℕ → Option ℕ → Type 0
Found test n k none = (j : ℕ) → n ≤ j → j < n + k → test j ≡ false
Found test n k (some m) =
    (test m ≡ true) × (n ≤ m) × (m < n + k) × ((j : ℕ) → n ≤ j → j < m → test j ≡ false)

Found-next :
    (test : ℕ → Bool) (n k : ℕ) (o : Option ℕ)
    → test n ≡ false
    → Found test (n + 1) k o
    → Found test n (suc k) o
Found-next test n k none e h = λ j lo hi. elim (ℕ_discrete n j) [
  | yes p ↦ ap test (sym p) ∙ e
  | no np ↦ h j (omega arith) (omega arith)
]
Found-next test n k (some m) e (t, lo, hi, before) = (
  t,
  omega arith,
  omega arith,
  λ j lo' hi'. elim (ℕ_discrete n j) [
    | yes p ↦ ap test (sym p) ∙ e
    | no np ↦ before j (omega arith) hi'
  ],
)

pub first_index-Found : (test : ℕ → Bool) (n k : ℕ) → Found test n k (first_index test n 1 k)
unfolding first_index
first_index-Found test n zero = λ j lo hi. absurd (omega arith)
first_index-Found test n (suc k) =
    let rest = first_index-Found test (n + 1) k in
    if-cases (Found test n (suc k)) (test n)
      (λ e. (e, omega arith, omega arith, λ j lo hi. absurd (omega arith)))
      (λ e. Found-next test n k (first_index test (n + 1) 1 k) e rest)
