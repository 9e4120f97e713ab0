-- ===== src/Sem/Pass/Undone.antt =====
-- `semundo_ops` takes back what the operations did.
use fiwix_arm.Base.Bits.{testbit}
use fiwix_arm.Base.{
  List, [], ap, arith, drop, false, fun_ext, length, refl, suc, sym, true, zero, ℕ, ◌+◌, ◌-◌, ◌<◌,
  ◌^◌, ◌∙◌, ◌∷◌, ◌≡◌, ◌≢◌, ◌≤◌, ◌⊎◌,
}
use fiwix_arm.Sem.Pass.{
  passed, is_covered, exceeds, sub_op, add_op, is_positive, at_sem, Sem, pass_from, semundo_ops,
  semvmx, u16, Store, Sembuf,
}
use native.Mathlib.Decide.{ℕ_discrete}

-- Every semaphore is within its bounds.
abbrev pub IsBounded : Store Sem → Type 0
IsBounded sma = (i : ℕ) → (sma i).semval ≤ semvmx

-- The operations are short ints.
abbrev pub IsShort : List Sembuf → Type 0
IsShort [] = Unit
IsShort (o ∷ rest) = (o.sem_op < 2 ^ 16) × IsShort rest

pub at_sem-at_sem_ne :
    (sma : Store Sem) (i j : ℕ) (f g : Sem → Sem)
    → i ≢ j
    → at_sem (at_sem sma i f) j g ≡ at_sem (at_sem sma j g) i f
at_sem-at_sem_ne sma i j f g ne = fun_ext λ k. ground arith

pub at_sem-at_sem :
    (sma : Store Sem) (i : ℕ) (f g : Sem → Sem)
    → at_sem (at_sem sma i f) i g ≡ at_sem sma i (λ s. g (f s))
at_sem-at_sem sma i f g = fun_ext λ k. ground arith

pub add_sub_comm :
    (a b v : ℕ) → b < 2 ^ 16 → u16 (u16 (v + a) + 2 ^ 16 - b) ≡ u16 (u16 (v + 2 ^ 16 - b) + a)
add_sub_comm a b v h = omega arith

pub add_then_sub : (a v : ℕ) → a < 2 ^ 16 → v ≤ semvmx → u16 (u16 (v + a) + 2 ^ 16 - a) ≡ v
add_then_sub a v h k = omega arith

-- Adding at one semaphore and taking back at another one, or at the same, in either order.
pub add_op-sub_op :
    (sma : Store Sem) (i j a b : ℕ)
    → b < 2 ^ 16
    → at_sem (at_sem sma i (add_op a)) j (sub_op b) ≡ at_sem (at_sem sma j (sub_op b)) i (add_op a)
add_op-sub_op sma i j a b h = elim (ℕ_discrete i j) [
  | yes e ↦ rw e (
      at_sem-at_sem sma j (add_op a) (sub_op b)
      ∙ ap (λ f. at_sem sma j f)
          (fun_ext λ s. ap (λ v. record s { semval = v }) (add_sub_comm a b s.semval h))
      ∙ sym (at_sem-at_sem sma j (sub_op b) (add_op a)))
  | no ne ↦ at_sem-at_sem_ne sma i j (add_op a) (sub_op b) ne
]

pub semundo_ops-add_op :
    (sma : Store Sem) (base : ℕ) (sops : List Sembuf) (n i a : ℕ)
    → IsShort sops
    → semundo_ops (at_sem sma i (add_op a)) base sops n
      ≡ at_sem (semundo_ops sma base sops n) i (add_op a)
unfolding semundo_ops
semundo_ops-add_op sma base sops zero i a h = refl
semundo_ops-add_op sma base [] (suc n) i a h = refl
semundo_ops-add_op sma base (o ∷ sops) (suc n) i a (h, hs) =
    ap (λ s. semundo_ops s base sops n) (add_op-sub_op sma i (base + o.sem_num) a o.sem_op h)
    ∙ semundo_ops-add_op (at_sem sma (base + o.sem_num) (sub_op o.sem_op)) base sops n i a hs

-- One more operation is taken back after the others.
pub drop_nil : (n : ℕ) (o : Sembuf) (rest : List Sembuf) → drop n [] ≢ o ∷ rest
drop_nil zero o rest e = omega (arith, ap length e)
drop_nil (suc n) o rest e = omega (arith, ap length e)

pub semundo_ops-suc :
    (sma : Store Sem) (base : ℕ) (sops : List Sembuf) (n : ℕ) (o : Sembuf) (rest : List Sembuf)
    → drop n sops ≡ o ∷ rest
    → semundo_ops sma base sops (suc n)
      ≡ at_sem (semundo_ops sma base sops n) (base + o.sem_num) (sub_op o.sem_op)
unfolding semundo_ops
semundo_ops-suc sma base [] n o rest e = absurd (drop_nil n o rest e)
semundo_ops-suc sma base (o' ∷ sops) zero o rest e = ap (λ l. semundo_ops sma base l 1) e
semundo_ops-suc sma base (o' ∷ sops) (suc n) o rest e =
    semundo_ops-suc (at_sem sma (base + o'.sem_num) (sub_op o'.sem_op)) base sops n o rest e

pub drop_next :
    (sops : List Sembuf) (n : ℕ) (o : Sembuf) (rest : List Sembuf)
    → drop n sops ≡ o ∷ rest
    → drop (n + 1) sops ≡ rest
drop_next [] n o rest e = absurd (drop_nil n o rest e)
drop_next (o' ∷ sops) zero o rest e = ap (drop 1) e
drop_next (o' ∷ sops) (suc n) o rest e =
    let k : suc n + 1 ≡ suc (n + 1) = omega arith in
    ap (λ i. drop i (o' ∷ sops)) k ∙ drop_next sops n o rest e

pub at_sem_same :
    (sma : Store Sem) (i : ℕ) (f : Sem → Sem) → f (sma i) ≡ sma i → at_sem sma i f ≡ sma
at_sem_same sma i f e =
    fun_ext
      λ k. elim (ℕ_discrete i k) [ yes p ↦ ground (arith, ap sma p, e) | no ne ↦ ground arith ]

pub at_sem_undone :
    (sma : Store Sem) (i a : ℕ)
    → IsBounded sma
    → a < 2 ^ 16
    → at_sem (at_sem sma i (add_op a)) i (sub_op a) ≡ sma
at_sem_undone sma i a b h =
    at_sem-at_sem sma i (add_op a) (sub_op a)
    ∙ at_sem_same sma i (λ s. sub_op a (add_op a s))
        (ap (λ v. record (sma i) { semval = v }) (add_then_sub a (sma i).semval h (b i)))

pub step-IsBounded :
    (sma : Store Sem) (i op : ℕ)
    → IsBounded sma
    → op < 2 ^ 16
    → ((is_positive op ≡ true) × (exceeds op (sma i).semval ≡ false))
      ⊎ ((is_positive op ≡ false) × (is_covered op (sma i).semval ≡ true))
    → IsBounded (at_sem sma i (add_op op))
step-IsBounded sma i op b h kind k = ground (arith, b i, b k)

pub add_zero : (sma : Store Sem) (i : ℕ) → IsBounded sma → at_sem sma i (add_op 0) ≡ sma
add_zero sma i b =
    let e : u16 ((sma i).semval + 0) ≡ (sma i).semval = omega (arith, b i) in
    at_sem_same sma i (add_op 0) (ap (λ v. record (sma i) { semval = v }) e)

-- Adding 1 to one semaphore, alone.
pub pass_one :
    (base nsems : ℕ) (sma : Store Sem)
    → (sma (base + nsems)).semval < semvmx
    → let o : Sembuf = record { sem_num = nsems; sem_op = 1; sem_flg = 0 } in
      pass_from base (o ∷ []) 0 (o ∷ []) sma false
      ≡ passed (at_sem sma (base + nsems) (add_op 1)) false
unfolding pass_from testbit
pass_one base nsems sma lt = ground arith
