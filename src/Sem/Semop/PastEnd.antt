-- ===== src/Sem/Semop/PastEnd.antt =====
-- The semaphore number that the checks of `sys_semop` let through.
use fiwix_arm.Base.{List, [], arith, false, none, refl, some, ℕ, ◌+◌, ◌<◌, ◌∷◌, ◌≡◌}
use fiwix_arm.Sem.Semop.{
  with_sma, success, ipc_w, returned, done, pos, stamp, set_of, stamped, Store, finish, Sems,
  pass_end, Proc, semop_loop, semop_checks, sys_semop,
}
use fiwix_arm.Sem.Pass.{add_op, at_sem, Sembuf}
use fiwix_arm.Sem.{semvmx}
use fiwix_arm.Ipc.Perms.{ipc_has_perms_root}
use fiwix_arm.Sem.Pass.Undone.{pass_one}

checks_past_end :
    (current : Proc) (id ss nsems : ℕ) (st : Sems) (sops : Store Sembuf)
    → current.euid ≡ 0
    → set_of st (pos id) ≡ some ss
    → (st.semset_pool ss).sem_nsems ≡ nsems
    → (sops 0).sem_num ≡ nsems
    → (sops 0).sem_op ≡ 1
    → semop_checks current none (pos id) sops (pos 1) st ≡ done ss
unfolding semop_checks
checks_past_end current id ss nsems st sops root used n num op =
    rw
      (
        semop_checks,
        used,
        op,
        ipc_has_perms_root current (st.semset_pool ss).sem_perm ipc_w root,
        num,
        n,
      )
      (ground (arith))

-- An operation on semaphore number `nsems` of a set of `nsems` semaphores passes the checks of
-- `sys_semop`: for a superuser, adding 1 there succeeds and changes the semaphore behind the set.
pub semop_past_end :
    (current : Proc) (now id ss base nsems : ℕ) (st : Sems) (chain : List ℕ)
    → current.euid ≡ 0
    → set_of st (pos id) ≡ some ss
    → (st.semset_pool ss).sem_base ≡ some base
    → (st.semset_pool ss).sem_nsems ≡ nsems
    → (st.sma_pool (base + nsems)).semval < semvmx
    → let sops : Store Sembuf = λ j. record { sem_num = nsems; sem_op = 1; sem_flg = 0 } in
      (st' : Sems) × (sys_semop [] current now none (pos id) sops (pos 1) st chain
        ≡ returned st' chain success)
      × ((st'.sma_pool (base + nsems)).semval ≡ (st.sma_pool (base + nsems)).semval + 1)
unfolding sys_semop semop_loop pass_end finish stamped stamp
semop_past_end current now id ss base nsems st chain root used b n lt =
    let o : Sembuf = record { sem_num = nsems; sem_op = 1; sem_flg = 0 } in
    let stored = at_sem st.sma_pool (base + nsems) (add_op 1) in
    rw
      (
        sys_semop,
        checks_past_end current id ss nsems st (λ j. o) root used n refl refl,
        b,
        pass_one base nsems st.sma_pool lt,
      )
      (
        (finish current now ss base (pos id) (o ∷ []) false (with_sma st stored) chain).0,
        refl,
        ground (arith, lt),
      )
