-- ===== src/Sem/Semop/Errors.antt =====
-- What a call of `sys_semop` that does not sleep leaves behind.
use fiwix_arm.Sem.Pass.Undone.{IsShort, IsBounded}
use fiwix_arm.Sem.Pass.{blocked, out_of_range, passed, pass_from, Pass, at_sem, Sembuf}
use fiwix_arm.Base.{
  Option-elim, Bool, Bool-cases, List, Option, [], ap, arith, false, inl, inr, none, refl, some,
  suc, sym, true, zero, ℕ, ◌+◌, ◌<◌, ◌==◌, ◌^◌, ◌∙◌, ◌∷◌, ◌≡◌, ◌⊎◌,
}
use fiwix_arm.Base.Bits.{testbit}
use fiwix_arm.Sem.{
  sem_undo_bit, pos, ℤ, ltb_ℤ, Sem, Store, sem_get_new_su, Sems, first_index, semmsl,
}
use mathlib.Core.Path.{subst}
use native.Mathlib.Decide.{ℕ_discrete}
use fiwix_arm.Base.Errno.{done, success, nomem, Errno, fail, Status, Result-elim}
use fiwix_arm.Sem.Semop.{
  null_base, with_sma, asleep, pos_part, adjust, semop_checks, count_up, find_undo, returned,
  sops_at, ended, Proc, Outcome, sys_semop, semop_loop, pass_end, finish, stamped, undo_loop,
  new_undo, stamp,
}
use fiwix_arm.Sem.Pass.Atomic.{pass_from_lem, Atomic}

semval-stamp :
    (pid base : ℕ) (sops : List Sembuf) (sma : Store Sem)
    → IsBounded sma
    → IsBounded (stamp pid base sops sma)
unfolding stamp
semval-stamp pid base [] sma b = b
semval-stamp pid base (o ∷ rest) sma b =
    semval-stamp pid base rest _ (λ i. ground (arith, b i, b (base + o.sem_num)))

-- The entries that `undo_loop` records do not touch a semaphore.
abbrev Recorded : Sems → Sems × List ℕ × Status → Type 0
Recorded st (st', chain', s) = (s ≡ fail nomem) ⊎ ((s ≡ success) × (st'.sma_pool ≡ st.sma_pool))

-- An entry that `new_undo` may return, which leaves the semaphores alone.
abbrev Kept : Sems → Option (ℕ × Sems) → Type 0
Kept st none = Unit
Kept st (some (su, st')) = st'.sma_pool ≡ st.sma_pool

sem_get_new_su-Kept : (st : Sems) → Kept st (sem_get_new_su st)
unfolding sem_get_new_su
sem_get_new_su-Kept st =
    let free : ℕ → Bool = λ n. ltb_ℤ (st.semundo_pool n).semid (pos 0) in
    let found : Option ℕ = first_index free 0 1 semmsl in
    Option-elim (Kept st) found tt (λ a e. refl)

new_undo-Kept :
    (st : Sems) (ss : ℕ) (semid : ℤ) (sem_num : ℕ) → Kept st (new_undo st ss semid sem_num)
unfolding new_undo
new_undo-Kept st ss semid sem_num =
    Option-elim (Kept st) (sem_get_new_su st) tt (λ a e. subst (Kept st) e (sem_get_new_su-Kept st))

Recorded-trans :
    (st st' : Sems) (o : Sems × List ℕ × Status)
    → st'.sma_pool ≡ st.sma_pool
    → Recorded st' o
    → Recorded st o
Recorded-trans st st' o e (inl f) = inl f
Recorded-trans st st' o e (inr (s, same)) = inr (s, same ∙ e)

undo_loop-Recorded :
    (ss base : ℕ) (semid : ℤ) (sops : List Sembuf) (n : ℕ) (rest : List Sembuf) (st : Sems)
    (chain : List ℕ)
    → Recorded st (undo_loop ss base semid sops n rest st chain)
unfolding undo_loop
undo_loop-Recorded ss base semid sops n [] st chain = inr (refl, refl)
undo_loop-Recorded ss base semid sops n (o ∷ rest) st chain =
    elim (Bool-cases (testbit o.sem_flg sem_undo_bit == 1)) [
      | inr q ↦ rw q (undo_loop-Recorded ss base semid sops (n + 1) rest st chain)
      | inl q ↦ rw q (
          Option-elim (Recorded st) (find_undo st semid o.sem_num chain)
            (Option-elim (Recorded st) (new_undo st ss semid o.sem_num) (inl refl) (λ a e.
              Recorded-trans st a.1
                (undo_loop ss base semid sops (n + 1) rest (adjust a.1 a.0 o.sem_op) (a.0 ∷ chain))
                (subst (Kept st) e (new_undo-Kept st ss semid o.sem_num))
                (undo_loop-Recorded ss base semid sops (n + 1) rest (adjust a.1 a.0 o.sem_op)
                  (a.0 ∷ chain))))
            (λ su e.
              undo_loop-Recorded ss base semid sops (n + 1) rest (adjust st su o.sem_op) chain))
    ]

-- What is left when a call has ended without sleeping; `before` and `chain` are from before it.
abbrev pub Settled : Sems → List ℕ → Outcome → Type 0
Settled before chain (returned st chain' (done r)) = IsBounded st.sma_pool
Settled before chain (returned st chain' (fail e)) =
    (e ≡ nomem) ⊎ ((st ≡ before) × (chain' ≡ chain))
Settled before chain (asleep st) = (i : ℕ) → (st.sma_pool i).semval ≡ (before.sma_pool i).semval
Settled before chain null_base = Unit

stamped-Settled :
    (current : Proc) (now ss base : ℕ) (sops : List Sembuf) (st before : Sems) (chain : List ℕ)
    (o : Sems × List ℕ × Status)
    → IsBounded st.sma_pool
    → Recorded st o
    → Settled before chain (ended (stamped current now ss base sops o))
unfolding stamped
stamped-Settled current now ss base sops st before chain (st', chain', fail e) b (inl f) = inl cc
stamped-Settled current now ss base sops st before chain (st', chain', fail e) b (inr (f, same)) =
    absurd cc
stamped-Settled current now ss base sops st before chain (st', chain', done r) b (inl f) = absurd cc
stamped-Settled current now ss base sops st before chain (st', chain', done r) b (inr (f, same)) =
    semval-stamp current.pid base sops st'.sma_pool (subst IsBounded (sym same) b)

finish-Settled :
    (current : Proc) (now ss base : ℕ) (semid : ℤ) (sops : List Sembuf) (u : Bool)
    (st before : Sems) (chain : List ℕ)
    → IsBounded st.sma_pool
    → Settled before chain (ended (finish current now ss base semid sops u st chain))
unfolding finish
finish-Settled current now ss base semid sops false st before chain b =
    stamped-Settled current now ss base sops st before chain (st, chain, success) b
      (inr (refl, refl))
finish-Settled current now ss base semid sops true st before chain b =
    stamped-Settled current now ss base sops st before chain
      (undo_loop ss base semid sops 0 sops st chain) b
      (undo_loop-Recorded ss base semid sops 0 sops st chain)

semval-count_up :
    (sma : Store Sem) (i j : ℕ) (z : Bool) → (at_sem sma i (count_up z) j).semval ≡ (sma j).semval
semval-count_up sma i j true = elim (ℕ_discrete i j) [
  | yes e ↦ ground (arith, ap sma e)
  | no ne ↦ ground arith
]
semval-count_up sma i j false = elim (ℕ_discrete i j) [
  | yes e ↦ ground (arith, ap sma e)
  | no ne ↦ ground arith
]

pass_end-Settled :
    (current : Proc) (now : ℕ) (semid : ℤ) (sops : List Sembuf) (ss base : ℕ) (st : Sems)
    (chain : List ℕ) (p : Pass)
    → Atomic st.sma_pool base sops p
    → Settled st chain (pass_end current now semid sops ss base st chain p)
unfolding pass_end
pass_end-Settled current now semid sops ss base st chain (passed sma u) (b, e) =
    finish-Settled current now ss base semid sops u (with_sma st sma) st chain b
pass_end-Settled current now semid sops ss base st chain (out_of_range sma) e =
    inr (ap (with_sma st) e, refl)
pass_end-Settled current now semid sops ss base st chain (blocked sma true z i) e =
    inr (ap (with_sma st) e, refl)
pass_end-Settled current now semid sops ss base st chain (blocked sma false z i) e =
    λ j. semval-count_up sma i j z ∙ ap (λ s. (s j).semval) e

loop-Settled :
    (current : Proc) (now : ℕ) (semid : ℤ) (sops : List Sembuf) (ss base : ℕ) (st : Sems)
    (chain : List ℕ)
    → IsShort sops
    → IsBounded st.sma_pool
    → Settled st chain (semop_loop [] current now semid sops ss base st chain)
unfolding semop_loop
loop-Settled current now semid sops ss base st chain h b =
    pass_end-Settled current now semid sops ss base st chain
      (pass_from base sops 0 sops st.sma_pool false) (pass_from_lem base sops st.sma_pool h b)

IsShort-sops_at :
    (sops : Store Sembuf) (i n : ℕ)
    → ((j : ℕ) → (sops j).sem_op < 2 ^ 16)
    → IsShort (sops_at sops i n)
IsShort-sops_at sops i zero h = tt
IsShort-sops_at sops i (suc n) h = (h i, IsShort-sops_at sops (i + 1) n h)

-- A call of `sys_semop` with short operations, on semaphores within their bounds, that does not go
-- through a NULL `sem_base`: if it succeeds without sleeping, the semaphores are within their
-- bounds; if it fails with an error other than -ENOMEM, nothing has changed at all; and if it goes
-- to sleep, every semaphore has the value that it had.
pub sys_semop-Settled :
    (current : Proc) (now : ℕ) (area : Option Errno) (semid : ℤ) (sops : Store Sembuf) (nsops : ℤ)
    (st : Sems) (chain : List ℕ)
    → ((j : ℕ) → (sops j).sem_op < 2 ^ 16)
    → IsBounded st.sma_pool
    → Settled st chain (sys_semop [] current now area semid sops nsops st chain)
unfolding sys_semop
sys_semop-Settled current now area semid sops nsops st chain h b =
    Result-elim (Settled st chain) (semop_checks current area semid sops nsops st)
      (λ ss. Option-elim (Settled st chain) (st.semset_pool ss).sem_base tt (λ base e.
        loop-Settled current now semid (sops_at sops 0 (pos_part nsops)) ss base st chain
          (IsShort-sops_at sops 0 (pos_part nsops) h) b))
      (λ e. inr (refl, refl))
