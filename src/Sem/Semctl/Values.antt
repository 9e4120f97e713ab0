-- ===== src/Sem/Semctl/Values.antt =====
-- Setting and reading the values of semaphores.
use fiwix_arm.Base.Int.{◌==ℤ◌}
use fiwix_arm.Base.{
  Bool, Option, ap, arith, false, if◌then◌else◌, none, refl, some, suc, sym, true, zero, ℕ, ◌+◌,
  ◌<◌, ◌∙◌, ◌≡◌, ◌≢◌, ◌≤◌,
}
use fiwix_arm.Ipc.Perms.{ipc_has_perms_root}
use fiwix_arm.Sem.{Semid, Sem, ℤ, update, semmsl, semvmx, pos, Undo, Store, Sems}
use fiwix_arm.Sem.Semctl.{
  changed, Ctl, ipc_r, ipc_w, with_set, get_field, set_val, semctl_command, done, nothing, setval,
  answered, getval, clear_undo, set_of, Proc, sys_semctl,
}
use mathlib.Core.Path.{subst}
use native.Mathlib.Decide.{ℕ_discrete}
use fiwix_arm.Base.Store.{update_ne, update_self}

-- A chain of `n` undo entries from `un` on.
abbrev pub IsChain : Store Undo → Option ℕ → ℕ → Type 0
IsChain pool un zero = un ≡ none
IsChain pool un (suc n) = (u : ℕ) × (un ≡ some u) × IsChain pool (pool u).id_next n

with_set_root :
    (current : Proc) (want id ss base : ℕ) (st : Sems) (f : ℕ → Option ℕ → Ctl)
    → current.euid ≡ 0
    → set_of st (pos id) ≡ some ss
    → (st.semset_pool ss).sem_base ≡ some base
    → with_set current want (pos id) st f ≡ f ss (some base)
unfolding with_set
with_set_root current want id ss base st f root used b =
    rw (with_set, used, ipc_has_perms_root current (st.semset_pool ss).sem_perm want root, b) refl

changed_lem :
    (now ss : ℕ) (semnum : ℤ) (st : Sems) (pool : Store Undo)
    → clear_undo semmsl st.semundo_pool (st.semset_pool ss).undo semnum ≡ some pool
    → changed now ss semnum st
      ≡ answered
          (record st {
            semundo_pool = pool;
            semset_pool = update st.semset_pool ss (record (st.semset_pool ss) { sem_ctime = now });
          })
          nothing
          (done (pos 0))
unfolding changed
changed_lem now ss semnum st pool e = rw (changed, e) refl

-- Setting a semaphore of the set to a value that is in range.
setval_done :
    (current : Proc) (now id ss base num v : ℕ) (st : Sems) (pool : Store Undo)
    → current.euid ≡ 0
    → set_of st (pos id) ≡ some ss
    → (st.semset_pool ss).sem_base ≡ some base
    → num < (st.semset_pool ss).sem_nsems
    → v ≤ semvmx
    → clear_undo semmsl st.semundo_pool (st.semset_pool ss).undo (pos num) ≡ some pool
    → sys_semctl current now none (pos id) (pos num) (setval (pos v)) st
      ≡ answered
          (record st {
            sma_pool =
                update st.sma_pool (base + num) (record (st.sma_pool (base + num)) { semval = v });
            semundo_pool = pool;
            semset_pool = update st.semset_pool ss (record (st.semset_pool ss) { sem_ctime = now });
          })
          nothing
          (done (pos 0))
unfolding sys_semctl semctl_command set_val
setval_done current now id ss base num v st pool root used b lt le clear =
    let stored = record (st.sma_pool (base + num)) { semval = v } in
    let st' = record st { sma_pool = update st.sma_pool (base + num) stored } in
    rw
      (sys_semctl, semctl_command, set_val, with_set_root current ipc_w id ss base st _ root used b)
      (ground (arith, changed_lem now ss (pos num) st' pool clear, lt, le))

getval_done :
    (current : Proc) (now id ss base num v : ℕ) (st : Sems)
    → current.euid ≡ 0
    → set_of st (pos id) ≡ some ss
    → (st.semset_pool ss).sem_base ≡ some base
    → (st.sma_pool (base + num)).semval ≡ v
    → v ≤ semvmx
    → sys_semctl current now none (pos id) (pos num) getval st ≡ answered st nothing (done (pos v))
unfolding sys_semctl semctl_command get_field
getval_done current now id ss base num v st root used b e le =
    rw
      (
        sys_semctl,
        semctl_command,
        get_field,
        with_set_root current ipc_r id ss base st _ root used b,
      )
      (ground (arith, e, le))

IsChain-agree :
    (pool pool' : Store Undo) (un : Option ℕ) (n : ℕ)
    → ((i : ℕ) → (pool' i).id_next ≡ (pool i).id_next)
    → IsChain pool un n
    → IsChain pool' un n
IsChain-agree pool pool' un zero same c = c
IsChain-agree pool pool' un (suc n) same (u, e, c) = (
  u,
  e,
  subst (λ o. IsChain pool' o n) (sym (same u))
      (IsChain-agree pool pool' (pool u).id_next n same c),
)

-- Clearing keeps every link.
id_next-cleared :
    (pool : Store Undo) (b : Bool) (u i : ℕ)
    → ((if b then update pool u (record (pool u) { semadj = 0 }) else pool) i).id_next
      ≡ (pool i).id_next
id_next-cleared pool false u i = refl
id_next-cleared pool true u i = elim (ℕ_discrete u i) [
  | yes e ↦ ground (arith, ap (λ j. (pool j).id_next) e)
  | no ne ↦ ground arith
]

-- Fuel for the entries of the chain is enough.
clear_undo-IsChain :
    (fuel n : ℕ) (pool : Store Undo) (un : Option ℕ) (semnum : ℤ)
    → IsChain pool un n
    → n ≤ fuel
    → (pool' : Store Undo) × (clear_undo fuel pool un semnum ≡ some pool')
unfolding clear_undo
clear_undo-IsChain zero zero pool un semnum e le = rw e (pool, refl)
clear_undo-IsChain (suc fuel) zero pool un semnum e le = rw e (pool, refl)
clear_undo-IsChain zero (suc n) pool un semnum c le = absurd (omega (arith, le))
clear_undo-IsChain (suc fuel) (suc n) pool un semnum (u, e, c) le =
    let b = semnum ==ℤ pos (pool u).sem_num in
    let pool' : Store Undo = if b then update pool u (record (pool u) { semadj = 0 }) else pool in
    let c' : IsChain pool' (pool' u).id_next n =
      subst (λ o. IsChain pool' o n) (sym (id_next-cleared pool b u u))
        (IsChain-agree pool pool' (pool u).id_next n (id_next-cleared pool b u) c) in
    rw e (clear_undo-IsChain fuel n pool' (pool' u).id_next semnum c' (omega (arith, le)))

-- A superuser sets a semaphore of a set, whose chain of undo entries has no cycle, to a value in
-- range: the call ends and returns 0, reading the semaphore then returns the value, and no other
-- semaphore has changed.
pub getval-setval :
    (current : Proc) (now id ss base num v n : ℕ) (st : Sems)
    → current.euid ≡ 0
    → set_of st (pos id) ≡ some ss
    → (st.semset_pool ss).sem_base ≡ some base
    → num < (st.semset_pool ss).sem_nsems
    → v ≤ semvmx
    → IsChain st.semundo_pool (st.semset_pool ss).undo n
    → n ≤ semmsl
    → (st' : Sems) × (sys_semctl current now none (pos id) (pos num) (setval (pos v)) st
        ≡ answered st' nothing (done (pos 0)))
      × (sys_semctl current now none (pos id) (pos num) getval st'
          ≡ answered st' nothing (done (pos v)))
      × ((i : ℕ) → i ≢ base + num → st'.sma_pool i ≡ st.sma_pool i)
getval-setval current now id ss base num v n st root used b lt le chain short =
    let (pool, clear) =
      clear_undo-IsChain semmsl n st.semundo_pool (st.semset_pool ss).undo (pos num) chain short in
    let stored : Sem = record (st.sma_pool (base + num)) { semval = v } in
    let set : Semid = record (st.semset_pool ss) { sem_ctime = now } in
    let st' : Sems = record st {
      sma_pool = update st.sma_pool (base + num) stored;
      semundo_pool = pool;
      semset_pool = update st.semset_pool ss set;
    } in
    (
      st',
      setval_done current now id ss base num v st pool root used b lt le clear,
      getval_done current now id ss base num v st' root used
          (ap (λ s. s.sem_base) (update_self st.semset_pool ss set) ∙ b)
          (ap (λ s. s.semval) (update_self st.sma_pool (base + num) stored)) le,
      λ i ne. update_ne st.sma_pool (base + num) i stored (λ e. ne (sym e)),
    )
