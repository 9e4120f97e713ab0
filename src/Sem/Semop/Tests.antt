-- ===== src/Sem/Semop/Tests.antt =====
-- Runs of `sys_semop`.
use fiwix_arm.Sem.Pass.{pass_from, Sembuf}
use fiwix_arm.Base.{[], arith, false, if◌then◌else◌, none, refl, suc, zero, ℕ, ◌<◌, ◌==◌, ◌^◌, ◌≡◌}
use fiwix_arm.Process.Sample.{a_root}
use fiwix_arm.Sem.Sample.{one_set}
use fiwix_arm.Base.Store.{Store}
use fiwix_arm.Sem.Pass.Atomic.{pass_from_lem, Atomic}
use fiwix_arm.Sem.Semop.Errors.{sys_semop-Settled, Settled}
use fiwix_arm.Sem.{pos, Sems}
use fiwix_arm.Sem.Semop.{success, returned, sys_semop, sops_at}
use fiwix_arm.Sem.Semop.PastEnd.{semop_past_end}

-- Take 1, then 9, which would block; both have IPC_NOWAIT.
abbrev take_both : Store Sembuf
take_both n = record { sem_num = n; sem_op = if n == 0 then 65535 else 65527; sem_flg = 2048 }

both_short : (j : ℕ) → (take_both j).sem_op < 2 ^ 16
both_short zero = omega arith
both_short (suc j) = ground arith

pass_from_lem_example :
    Atomic one_set.sma_pool 0
      (sops_at take_both 0 2)
      (pass_from 0 (sops_at take_both 0 2) 0 (sops_at take_both 0 2) one_set.sma_pool false)
pass_from_lem_example =
    pass_from_lem 0 (sops_at take_both 0 2) one_set.sma_pool (both_short 0, (both_short 1, tt))
      (λ i. omega arith)

sys_semop-Settled_example :
    Settled one_set [] (sys_semop [] a_root 9 none (pos 3) take_both (pos 2) one_set [])
sys_semop-Settled_example =
    sys_semop-Settled a_root 9 none (pos 3) take_both (pos 2) one_set [] both_short
      (λ i. omega arith)

semop_past_end_example :
    let sops : Store Sembuf = λ j. record { sem_num = 2; sem_op = 1; sem_flg = 0 } in
    (st' : Sems) × (sys_semop [] a_root 9 none (pos 3) sops (pos 1) one_set []
      ≡ returned st' [] success)
    × ((st'.sma_pool 2).semval ≡ 5)
semop_past_end_example =
    semop_past_end a_root 9 3 0 0 2 one_set [] refl refl refl refl (omega arith)
