-- ===== src/Fd/Counts.antt =====
-- The references from the descriptors of a process to an entry of `fd_table`.
use fiwix_arm.Base.{
  ap, ap₂, arith, if◌then◌else◌, refl, suc, sym, zero, ℕ, ◌+◌, ◌<◌, ◌==◌, ◌∙◌, ◌≡◌, ◌≢◌, ◌≤◌,
}
use fiwix_arm.Base.Store.{update, Store, update_self, update_ne}
use fiwix_arm.Fd.{open_max, Files}
use native.Mathlib.Decide.{ℕ_discrete}

abbrev pub eq01 : ℕ → ℕ → ℕ
eq01 a b = if a == b then 1 else 0

-- How many of the first `k` descriptors are entry `n`.
pub refs : ℕ → Store ℕ → ℕ → ℕ
refs zero fd n = 0
refs (suc k) fd n = refs k fd n + eq01 (fd k) n

refs-update_past :
    (k : ℕ) (fd : Store ℕ) (j v n : ℕ) → k ≤ j → refs k (update fd j v) n ≡ refs k fd n
unfolding refs
refs-update_past zero fd j v n le = refl
refs-update_past (suc k) fd j v n le =
    ap₂ ◌+◌ (refs-update_past k fd j v n (omega (arith, le)))
      (ap (λ x. eq01 x n) (update_ne fd j k v (omega (arith, le))))

-- Descriptor `j` is changed.
pub refs-update :
    (k : ℕ) (fd : Store ℕ) (j v n : ℕ)
    → j < k
    → refs k (update fd j v) n + eq01 (fd j) n ≡ refs k fd n + eq01 v n
unfolding refs
refs-update zero fd j v n lt = absurd (omega (arith, lt))
refs-update (suc k) fd j v n lt = elim (ℕ_discrete j k) [
  | yes e ↦
      let past = refs-update_past k fd j v n (omega (arith, e)) in
      let now : eq01 (update fd j v k) n ≡ eq01 v n =
        ap (λ x. eq01 (update fd j v x) n) (sym e) ∙ ap (λ x. eq01 x n) (update_self fd j v) in
      let old : eq01 (fd k) n ≡ eq01 (fd j) n = ap (λ x. eq01 (fd x) n) (sym e) in
      omega (arith, past, now, old)
  | no ne ↦
      let before = refs-update k fd j v n (omega (arith, lt, ne)) in
      let same : eq01 (update fd j v k) n ≡ eq01 (fd k) n =
        ap (λ x. eq01 x n) (update_ne fd j k v ne) in
      omega (arith, before, same)
]

-- The counts are right: every entry but the unused entry 0 counts the references from the process
-- and those from the others.
abbrev pub IsCounted : Store ℕ → Files → Type 0
IsCounted others st = (n : ℕ) → n ≢ 0 → (st.fd_table n).count ≡ others n + refs open_max st.fd n

-- No descriptor is open.
pub refs-none : (k n : ℕ) → n ≢ 0 → refs k (λ j. 0) n ≡ 0
unfolding refs
refs-none zero n ne = refl
refs-none (suc k) n ne = ground (arith, ne, refs-none k n ne)
