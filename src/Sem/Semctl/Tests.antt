-- ===== src/Sem/Semctl/Tests.antt =====
-- Runs of `sys_semctl`.
use fiwix_arm.Base.{arith, none, refl, ℕ, ◌≡◌, ◌≢◌}
use fiwix_arm.Process.Sample.{a_root}
use fiwix_arm.Sem.Sample.{one_set}
use fiwix_arm.Sem.{pos, Sems}
use fiwix_arm.Sem.Semctl.{getval, done, nothing, answered, setval, sys_semctl}
use fiwix_arm.Sem.Semctl.Values.{getval-setval}

getval-setval_example :
    (st' : Sems) × (sys_semctl a_root 9 none (pos 3) (pos 1) (setval (pos 7)) one_set
      ≡ answered st' nothing (done (pos 0)))
    × (sys_semctl a_root 9 none (pos 3) (pos 1) getval st' ≡ answered st' nothing (done (pos 7)))
    × ((i : ℕ) → i ≢ 1 → st'.sma_pool i ≡ one_set.sma_pool i)
getval-setval_example =
    getval-setval a_root 9 3 0 0 1 7 0 one_set refl refl refl (omega arith) (omega arith) refl
      (omega arith)
