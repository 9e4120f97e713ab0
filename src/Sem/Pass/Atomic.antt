-- ===== src/Sem/Pass/Atomic.antt =====
-- A pass through the operations of `sys_semop` does all of them or none.
use fiwix_arm.Base.{
  Bool, List, [], ap, ap₂, arith, drop, false, get_or, if-cases, if◌then◌else◌, inl, inr, length,
  length-drop, not, refl, suc, sym, zero, ℕ, ◌+◌, ◌<◌, ◌==◌, ◌^◌, ◌||◌, ◌∙◌, ◌∷◌, ◌≡◌, ◌≤◌,
}
use fiwix_arm.Sem.Pass.{
  is_covered, exceeds, is_positive, sem_undo_bit, blocked, testbit, out_of_range, sub_op, passed,
  add_op, at_sem, Pass, Sem, semundo_ops, pass_from, Store, Sembuf,
}
use fiwix_arm.Sem.Pass.Undone.{
  step-IsBounded, drop_next, at_sem_undone, semundo_ops-add_op, add_zero, semundo_ops-suc, drop_nil,
  IsShort, IsBounded,
}
use native.Mathlib.Decide.{ℕ_discrete}
use mathlib.Core.Path.{subst}

-- What a pass leaves of the semaphores `before` it.
abbrev pub Atomic : Store Sem → ℕ → List Sembuf → Pass → Type 0
Atomic before base sops (passed sma u) =
    IsBounded sma × (semundo_ops sma base sops (length sops) ≡ before)
Atomic before base sops (out_of_range sma) = sma ≡ before
Atomic before base sops (blocked sma nowait for_zero i) = sma ≡ before

drop_all : (sops : List Sembuf) (n : ℕ) → drop n sops ≡ [] → n ≤ length sops → n ≡ length sops
drop_all sops n e le = omega (arith, length-drop n sops, ap length e)

ap_head :
    {o o' : Sembuf} {xs ys : List Sembuf}
    → o' ∷ xs ≡ o ∷ ys
    → o'.sem_op < 2 ^ 16
    → o.sem_op < 2 ^ 16
ap_head {o = o} {o' = o'} e h =
    let same : o' ≡ o = ap (λ l. get_or l 0 o) e in omega (arith, ap (λ s. s.sem_op) same)

IsShort-drop :
    (sops : List Sembuf) (n : ℕ) (o : Sembuf) (rest : List Sembuf)
    → IsShort sops
    → drop n sops ≡ o ∷ rest
    → o.sem_op < 2 ^ 16
IsShort-drop [] n o rest h e = absurd (drop_nil n o rest e)
IsShort-drop (o' ∷ sops) zero o rest (h, hs) e = ap_head e h
IsShort-drop (o' ∷ sops) (suc n) o rest (h, hs) e = IsShort-drop sops n o rest hs e

-- The semaphores after an operation.
stepped : Store Sem → ℕ → ℕ → Store Sem
stepped sma i op = if op == 0 then sma else at_sem sma i (add_op op)

stepped_lem :
    (sma : Store Sem) (i op : ℕ) → IsBounded sma → stepped sma i op ≡ at_sem sma i (add_op op)
unfolding stepped
stepped_lem sma i op b = elim (ℕ_discrete op 0) [
  | yes e ↦ rw e (sym (add_zero sma i b))
  | no ne ↦ ground arith
]

stepped_undone :
    (base : ℕ) (sops : List Sembuf) (n : ℕ) (o : Sembuf) (rest : List Sembuf)
    (sma before : Store Sem)
    → IsShort sops
    → drop n sops ≡ o ∷ rest
    → IsBounded sma
    → IsBounded before
    → semundo_ops sma base sops n ≡ before
    → semundo_ops (stepped sma (base + o.sem_num) o.sem_op) base sops (n + 1) ≡ before
stepped_undone base sops n o rest sma before h d b b' e =
    let i = base + o.sem_num in
    let k : n + 1 ≡ suc n = omega arith in
    ap₂ (λ s m. semundo_ops s base sops m) (stepped_lem sma i o.sem_op b) k
    ∙ semundo_ops-suc (at_sem sma i (add_op o.sem_op)) base sops n o rest d
    ∙ ap (λ s. at_sem s i (sub_op o.sem_op)) (semundo_ops-add_op sma base sops n i o.sem_op h)
    ∙ ap (λ s. at_sem (at_sem s i (add_op o.sem_op)) i (sub_op o.sem_op)) e
    ∙ at_sem_undone before i o.sem_op b' (IsShort-drop sops n o rest h d)

pass_from-Atomic :
    (base : ℕ) (sops : List Sembuf) (n : ℕ) (rest : List Sembuf) (sma : Store Sem) (u : Bool)
    (before : Store Sem)
    → IsShort sops
    → n ≤ length sops
    → drop n sops ≡ rest
    → IsBounded sma
    → IsBounded before
    → semundo_ops sma base sops n ≡ before
    → Atomic before base sops (pass_from base sops n rest sma u)
unfolding pass_from stepped
pass_from-Atomic base sops n [] sma u before h le d b b' e =
    let all : n ≡ length sops = drop_all sops n d le in
    (b, ap (semundo_ops sma base sops) (sym all) ∙ e)
pass_from-Atomic base sops n (o ∷ rest) sma u before h le d b b' e =
    let next = λ (b'' : IsBounded (stepped sma i o.sem_op)).
      pass_from-Atomic base sops (n + 1) rest (stepped sma i o.sem_op)
        (if o.sem_op == 0 then u else u || (testbit o.sem_flg sem_undo_bit == 1)) before h less
        (drop_next sops n o rest d) b'' b'
        (stepped_undone base sops n o rest sma before h d b b' e) in
    if-cases (Atomic before base sops) (is_positive o.sem_op)
      (λ p.
        if-cases (Atomic before base sops) (exceeds o.sem_op (sma i).semval) (λ q. e)
          (λ q. next (up (step-IsBounded sma i o.sem_op b short (inl (p, q))))))
      (λ p.
        if-cases (Atomic before base sops) (not (o.sem_op == 0))
          (λ z.
            if-cases (Atomic before base sops) (is_covered o.sem_op (sma i).semval)
              (λ q. next (up (step-IsBounded sma i o.sem_op b short (inr (p, q))))) (λ q. e))
          (λ z.
            if-cases (Atomic before base sops) ((sma i).semval == 0) (λ q. next (zero_kept z))
              (λ q. e)))
  where
    i : ℕ
    i = base + o.sem_num

    short : o.sem_op < 2 ^ 16
    short = IsShort-drop sops n o rest h d

    up : IsBounded (at_sem sma i (add_op o.sem_op)) → IsBounded (stepped sma i o.sem_op)
    up = subst IsBounded (sym (stepped_lem sma i o.sem_op b))

    zero_kept : not (o.sem_op == 0) ≡ false → IsBounded (stepped sma i o.sem_op)
    zero_kept z k = ground (arith, b k)

    less : n + 1 ≤ length sops
    less = omega (arith, length-drop n sops, ap length d)

-- One pass through short operations, with all semaphores within their bounds: either it fails or
-- blocks with every semaphore as it was before, or all operations are done, the semaphores are
-- within their bounds, and `semundo_ops` would restore what they were before.
pub pass_from_lem :
    (base : ℕ) (sops : List Sembuf) (sma : Store Sem)
    → IsShort sops
    → IsBounded sma
    → Atomic sma base sops (pass_from base sops 0 sops sma false)
unfolding semundo_ops
pass_from_lem base sops sma h b =
    pass_from-Atomic base sops 0 sops sma false sma h (omega arith) refl b b (undo_none sma)
  where
    undo_none : (s : Store Sem) → semundo_ops s base sops 0 ≡ s
    undo_none s = refl
