-- ===== src/Sem/Semop.antt =====
-- kernel/syscalls/semop.c: `sys_semop`. What other processes do while the call sleeps is an
-- argument, the state as each sleep leaves it. `wakeup` changes nothing but the sleep queue.
pub mod Errors
pub mod PastEnd
mod Tests
use fiwix_arm.Base.{
  Bool, List, Option, [], false, if◌then◌else◌, ltb, none, not, set, some, suc, zero, ℕ, ◌%◌, ◌&&◌,
  ◌+◌, ◌-◌, ◌==◌, ◌^◌, ◌||◌, ◌∷◌,
}
use fiwix_arm.Sem.{semopm, sem_undo_bit, semmni, Undo, update, sem_get_new_su, Store, Sems, Sem}
use fiwix_arm.Base.Int.{pos, ltb_ℤ, pos_part, ℤ, ◌==ℤ◌}
use fiwix_arm.Sem.Pass.{blocked, out_of_range, passed, pass_from, Pass, at_sem, Sembuf, semundo_ops}
use fiwix_arm.Process.{Proc}
use fiwix_arm.Base.Bits.{testbit, u16}
use fiwix_arm.Base.Errno.{
  too_big, acces, intr, idrm, again, fbig, range, done, inval, nomem, fail, Result, success, Errno,
  Status,
}
use fiwix_arm.Ipc.{ipc_r, ipc_w, ipc_has_perms}

abbrev pub same_undo : Sems → ℤ → ℕ → ℕ → Bool
same_undo st semid sem_num su =
    (st.semundo_pool su).semid ==ℤ semid && (st.semundo_pool su).sem_num == sem_num

-- The undo entry of this process for a semaphore, looked for along the chain of the process.
pub find_undo : Sems → ℤ → ℕ → List ℕ → Option ℕ
find_undo st semid sem_num [] = none
find_undo st semid sem_num (su ∷ chain) =
    let rest = find_undo st semid sem_num chain in
    if same_undo st semid sem_num su then some su else rest

-- A new undo entry at the head of both chains, or `none` if the pool is used up.
pub new_undo : Sems → ℕ → ℤ → ℕ → Option (ℕ × Sems)
new_undo st ss semid sem_num = elim (sem_get_new_su st) [
  | none ↦ none
  | some (su, st') ↦
      let set = st'.semset_pool ss in
      let entry : Undo = record {
        id_next = set.undo;
        semid = semid;
        semadj = 0;
        sem_num = sem_num;
      } in
      some (
        su,
        record st' {
          semundo_pool = update st'.semundo_pool su entry;
          semset_pool = update st'.semset_pool ss (record set { undo = some su });
        },
      )
]

-- `su->semadj -= sem_op`
abbrev pub adjust : Sems → ℕ → ℕ → Sems
adjust st su op =
    let entry = st.semundo_pool su in
    record st {
      semundo_pool =
          update st.semundo_pool su (record entry { semadj = u16 (entry.semadj + 2 ^ 16 - op) });
    }

-- The loop that records what to undo at exit; on -ENOMEM the first `n` operations are taken back.
pub undo_loop : ℕ → ℕ → ℤ → List Sembuf → ℕ → List Sembuf → Sems → List ℕ → Sems × List ℕ × Status
undo_loop ss base semid sops n [] st chain = (st, chain, success)
undo_loop ss base semid sops n (o ∷ rest) st chain =
    let skipped = undo_loop ss base semid sops (n + 1) rest st chain in
    let failed : Sems × List ℕ × Status =
      (record st { sma_pool = semundo_ops st.sma_pool base sops n }, chain, fail nomem) in
    let recorded : Sems × List ℕ × Status = elim (find_undo st semid o.sem_num chain) [
      | some su ↦ undo_loop ss base semid sops (n + 1) rest (adjust st su o.sem_op) chain
      | none ↦ elim (new_undo st ss semid o.sem_num) [
        | none ↦ failed
        | some (su, st') ↦
            undo_loop ss base semid sops (n + 1) rest (adjust st' su o.sem_op) (su ∷ chain)
      ]
    ] in
    if testbit o.sem_flg sem_undo_bit == 1 then recorded else skipped

pub stamp : ℕ → ℕ → List Sembuf → Store Sem → Store Sem
stamp pid base [] sma = sma
stamp pid base (o ∷ rest) sma =
    stamp pid base rest (at_sem sma (base + o.sem_num) (λ s. record s { sempid = u16 pid }))

-- The end of a call whose undo entries are recorded.
pub stamped : Proc → ℕ → ℕ → ℕ → List Sembuf → Sems × List ℕ × Status → Sems × List ℕ × Status
unfolding stamp
stamped current now ss base sops (st, chain, fail e) = (st, chain, fail e)
stamped current now ss base sops (st, chain, done r) =
    let set = st.semset_pool ss in
    (
      record st {
        sma_pool = stamp current.pid base sops st.sma_pool;
        semset_pool = update st.semset_pool ss (record set { sem_otime = now });
      },
      chain,
      success,
    )

-- What follows a pass in which every operation was done.
pub finish : Proc → ℕ → ℕ → ℕ → ℤ → List Sembuf → Bool → Sems → List ℕ → Sems × List ℕ × Status
unfolding undo_loop stamped
finish current now ss base semid sops need_undo st chain =
    let recorded = undo_loop ss base semid sops 0 sops st chain in
    stamped current now ss base sops (if need_undo then recorded else (st, chain, success))

-- One return of `sleep`: the state that it leaves, and whether a signal ended it.
pub record Wake : Type 0 where
  pub sems : Sems
  pub signalled : Bool

-- How a call ends: it returns, with the chain of undo entries; it still sleeps when there is no
-- further wake; or it would go through a NULL `sem_base`.
pub data Outcome : Type 0 where
  returned : Sems → List ℕ → Status → Outcome
  asleep : Sems → Outcome
  null_base : Outcome

abbrev pub ended : Sems × List ℕ × Status → Outcome
ended (st, chain, s) = returned st chain s

-- `s->semncnt` and `s->semzcnt`, changed by 1
abbrev pub count_up : Bool → Sem → Sem
count_up for_zero s =
    if for_zero
    then record s { semzcnt = u16 (s.semzcnt + 1) }
    else record s { semncnt = u16 (s.semncnt + 1) }

abbrev pub count_down : Bool → Sem → Sem
count_down for_zero s =
    if for_zero
    then record s { semzcnt = u16 (s.semzcnt + 2 ^ 16 - 1) }
    else record s { semncnt = u16 (s.semncnt + 2 ^ 16 - 1) }

abbrev pub with_sma : Sems → Store Sem → Sems
with_sma st sma = record st { sma_pool = sma }

-- The set of an identifier that is not negative: `semset[semid % SEMMNI]`.
abbrev pub set_of : Sems → ℤ → Option ℕ
set_of st semid = st.semset (pos_part semid % semmni)

-- How a call ends after a pass, when it does not wake up any more.
pub pass_end : Proc → ℕ → ℤ → List Sembuf → ℕ → ℕ → Sems → List ℕ → Pass → Outcome
unfolding finish
pass_end current now semid sops ss base st chain (passed sma u) =
    ended (finish current now ss base semid sops u (with_sma st sma) chain)
pass_end current now semid sops ss base st chain (out_of_range sma) =
    returned (with_sma st sma) chain (fail range)
pass_end current now semid sops ss base st chain (blocked sma nowait for_zero i) =
    if nowait
    then returned (with_sma st sma) chain (fail again)
    else asleep (with_sma st (at_sem sma i (count_up for_zero)))

-- From the label `loop` on, along the wakes of the call. After a sleep the semaphore is the one
-- from before, and the set is looked up again.
pub semop_loop : List Wake → Proc → ℕ → ℤ → List Sembuf → ℕ → ℕ → Sems → List ℕ → Outcome
unfolding pass_end
semop_loop [] current now semid sops ss base st chain =
    pass_end current now semid sops ss base st chain (pass_from base sops 0 sops st.sma_pool false)
semop_loop (w ∷ wakes) current now semid sops ss base st chain =
    elim (pass_from base sops 0 sops st.sma_pool false) [
      | passed sma need_undo ↦
          ended (finish current now ss base semid sops need_undo (with_sma st sma) chain)
      | out_of_range sma ↦ returned (with_sma st sma) chain (fail range)
      | blocked sma nowait for_zero i ↦
          let woken = with_sma w.sems (at_sem w.sems.sma_pool i (count_down for_zero)) in
          let slept : Outcome = elim (set_of w.sems semid) [
            | none ↦ returned w.sems chain (fail idrm)
            | some ss' ↦
                let goes_on : Outcome = elim (woken.semset_pool ss').sem_base [
                  | none ↦ null_base
                  | some base' ↦ semop_loop wakes current now semid sops ss' base' woken chain
                ] in
                if w.signalled then returned woken chain (fail intr) else goes_on
          ] in
          if nowait then returned (with_sma st sma) chain (fail again) else slept
    ]

-- `sops[n].sem_num > ss->sem_nsems`, for one of the operations
abbrev pub is_past : ℕ → List Sembuf → Bool
is_past nsems [] = false
is_past nsems (o ∷ rest) = ltb nsems o.sem_num || is_past nsems rest

abbrev pub needs_alter : List Sembuf → Bool
needs_alter [] = false
needs_alter (o ∷ rest) = not (o.sem_op == 0) || needs_alter rest

-- The first `n` operations at the address that the call is given.
abbrev pub sops_at : Store Sembuf → ℕ → ℕ → List Sembuf
sops_at sops i zero = []
sops_at sops i (suc n) = sops i ∷ sops_at sops (i + 1) n

-- The checks before the label `loop`: an error, or the set with its address and its semaphores'.
pub semop_checks : Proc → Option Errno → ℤ → Store Sembuf → ℤ → Sems → Result ℕ
semop_checks current area semid sops nsops st =
    let ops = sops_at sops 0 (pos_part nsops) in
    let checked : Result ℕ = elim area [
      | some e ↦ fail e
      | none ↦ elim (set_of st semid) [
        | none ↦ fail inval
        | some ss ↦
            let set = st.semset_pool ss in
            if is_past set.sem_nsems ops
            then fail fbig
            else if not
                (ipc_has_perms current set.sem_perm (if needs_alter ops then ipc_w else ipc_r))
            then fail acces
            else done ss
      ]
    ] in
    if ltb_ℤ semid (pos 0) || not (ltb_ℤ (pos 0) nsops)
    then fail inval
    else if ltb_ℤ (pos semopm) nsops
    then fail too_big
    else checked

-- `area` is what `check_user_area` returns, and `now` is CURRENT_TIME.
pub sys_semop : List Wake → Proc → ℕ → Option Errno → ℤ → Store Sembuf → ℤ → Sems → List ℕ → Outcome
sys_semop wakes current now area semid sops nsops st chain =
    elim (semop_checks current area semid sops nsops st) [
      | fail e ↦ returned st chain (fail e)
      | done ss ↦ elim (st.semset_pool ss).sem_base [
        | none ↦ null_base
        | some base ↦
            semop_loop wakes current now semid (sops_at sops 0 (pos_part nsops)) ss base st chain
      ]
    ]
