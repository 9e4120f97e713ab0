-- ===== src/Sem/Sample.antt =====
-- A state to try the semaphore calls on.
use fiwix_arm.Base.{none, some}
use fiwix_arm.Sem.{update, sem_init, Sems}

-- Set 3 of the table, the first of the pool, with two semaphores of value 4 at address 0.
abbrev pub one_set : Sems
one_set = record sem_init {
  semset = update sem_init.semset 3 (some 0);
  semset_pool = λ n. record {
    sem_perm = record { key = 7; uid = 0; gid = 0; cuid = 0; cgid = 0; mode = 384; seq = 0 };
    sem_otime = 0;
    sem_ctime = 1;
    sem_base = some 0;
    undo = none;
    sem_nsems = 2;
  };
  sma_pool = λ n. record { semval = 4; sempid = 0; semncnt = 0; semzcnt = 0 };
}
