-- ===== src/Base/Slice.antt =====
-- A stretch of memory as a list.
use fiwix_arm.Base.{
  List, [], ap, ap₂, arith, refl, suc, zero, ℕ, ◌++◌, ◌+◌, ◌<◌, ◌∙◌, ◌∷◌, ◌≡◌, ◌≤◌,
}
use fiwix_arm.Base.Store.{Store, update}
use native.Mathlib.Nat.{add-zero}

-- `n` bytes of memory from `at` on
abbrev pub slice : Store ℕ → ℕ → ℕ → List ℕ
slice d at zero = []
slice d at (suc n) = d at ∷ slice d (at + 1) n

pub slice_agree :
    (d e : Store ℕ) (a b n : ℕ)
    → ((i : ℕ) → i < n → d (a + i) ≡ e (b + i))
    → slice d a n ≡ slice e b n
slice_agree d e a b zero same = refl
slice_agree d e a b (suc n) same = ap₂ ◌∷◌ first (slice_agree d e (a + 1) (b + 1) n rest)
  where
    first : d a ≡ e b
    first = rw (← add-zero a, ← add-zero b) (same 0 (omega arith))

    next : (k i : ℕ) → k + 1 + i ≡ k + suc i
    next k i = omega arith

    rest : (i : ℕ) → i < n → d (a + 1 + i) ≡ e (b + 1 + i)
    rest i lt = rw (next a i, next b i) (same (suc i) (omega arith))

pub slice_snoc : (d : Store ℕ) (at n : ℕ) → slice d at (suc n) ≡ slice d at n ++ d (at + n) ∷ []
slice_snoc d at zero = ground arith
slice_snoc d at (suc n) =
    let e : at + 1 + n ≡ at + suc n = omega arith in
    ap (λ t. d at ∷ t) (slice_snoc d (at + 1) n ∙ ap (λ k. slice d (at + 1) n ++ d k ∷ []) e)

pub slice-update :
    (d : Store ℕ) (at n k v : ℕ) → at + n ≤ k → slice (update d k v) at n ≡ slice d at n
slice-update d at n k v h = slice_agree (update d k v) d at at n (λ i lt. ground arith)
