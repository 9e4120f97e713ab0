-- ===== src/Sem/Semget/Ids.antt =====
-- Identifiers of semaphore sets.
use fiwix_arm.Base.{◌⊎◌, some, ℕ, ◌≡◌, ◌≤◌}
use fiwix_arm.Sem.Semget.{sem_get_new_sma, pos, done, fail, Result, Sems}
use fiwix_arm.Sem.Semop.{set_of}
use fiwix_arm.Base.Store.{Store}
use fiwix_arm.Sem.{Sem}

-- What a call of `sys_semget` on `old` returns: its identifier leads to a set with the key. Either
-- nothing has changed, or the set is new and has what `sem_get_new_sma` finds.
abbrev pub Leads : Sems → ℕ → ℕ → Sems × Result ℕ → Type 0
Leads old key nsems (st, fail e) = Unit
Leads old key nsems (st, done id) =
    (ss : ℕ) × (set_of st (pos id) ≡ some ss)
    × ((st.semset_pool ss).sem_perm.key ≡ key)
    × (nsems ≤ (st.semset_pool ss).sem_nsems)
    × ((st ≡ old) ⊎ ((st.semset_pool ss).sem_base ≡ (sem_get_new_sma old).0))
