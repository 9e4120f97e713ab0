-- ===== src/Sem.antt =====
-- kernel/syscalls/semget.c and include/fiwix/sem.h: the pools behind System V semaphores, and the
-- state that the calls share. Sleeping and waking are not part of it: see Sem.Semop.
pub mod Semget
pub mod Pass
pub mod Semop
pub mod Semctl
pub mod Sample
use fiwix_arm.Base.{
  ==_iff, Bool, Bool-cases, List, Option, Option-cases, [], ap, ap₂, arith, bit_and, bit_or, drop,
  false, fun_ext, get_elem?, get_elem?-set_ne, get_elem?-set_self, get_or, if◌then◌else◌, inl, inr,
  leb, leb→le, length, length-append, length-drop, length-map, length-replicate, length-set,
  length-take, ltb, ltb→lt, lt→ltb, map, max, min, none, not, not_lt→ltb, refl, replicate, set,
  some, suc, sym, take, take-append-drop, tests, true, zero, ℕ, ◌%◌, ◌&&◌, ◌*◌, ◌++◌, ◌+◌, ◌-◌, ◌/◌,
  ◌<◌, ◌==◌, ◌^◌, ◌||◌, ◌↔◌, ◌∙◌, ◌∷◌, ◌≡◌, ◌≢◌, ◌≤◌, ◌⊎◌,
}
use fiwix_arm.Ipc.{IpcPerm}
use fiwix_arm.Base.Int.{pos, negsuc, ltb_ℤ, ℤ}
use fiwix_arm.Base.Store.{update, Store}
use fiwix_arm.Base.Search.{first_index}

abbrev pub semmni : ℕ
semmni = 128

abbrev pub semmsl : ℕ
semmsl = 32

abbrev pub semmns : ℕ
semmns = semmni * semmsl

abbrev pub semopm : ℕ
semopm = 32

abbrev pub semvmx : ℕ
semvmx = 32767

-- SEM_UNDO is 1 << 12.
abbrev pub sem_undo_bit : ℕ
sem_undo_bit = 12

-- `struct sem`, of four short ints, each a 16-bit pattern
pub record Sem : Type 0 where
  pub semval : ℕ
  pub sempid : ℕ
  pub semncnt : ℕ
  pub semzcnt : ℕ

-- `struct semid_ds`. A pointer into a pool is an index; NULL is `none`.
pub record Semid : Type 0 where
  pub sem_perm : IpcPerm
  pub sem_otime : ℕ
  pub sem_ctime : ℕ
  pub sem_base : Option ℕ
  pub undo : Option ℕ
  pub sem_nsems : ℕ

-- `struct sem_undo` without `proc_next`: the chain of a process is a list of indices.
pub record Undo : Type 0 where
  pub id_next : Option ℕ
  pub semid : ℤ
  pub semadj : ℕ
  pub sem_num : ℕ

-- The globals. IPC_UNUSED in `semset` is `none`.
pub record Sems : Type 0 where
  pub semset : Store (Option ℕ)
  pub semset_pool : Store Semid
  pub sma_pool : Store Sem
  pub semundo_pool : Store Undo
  pub num_semsets : ℕ
  pub num_sems : ℕ
  pub max_semid : ℕ
  pub sem_seq : ℕ

abbrev pub no_perm : IpcPerm
no_perm = record { key = 0; uid = 0; gid = 0; cuid = 0; cgid = 0; mode = 0; seq = 0 }

abbrev pub zero_semid : Semid
zero_semid = record {
  sem_perm = no_perm;
  sem_otime = 0;
  sem_ctime = 0;
  sem_base = none;
  undo = none;
  sem_nsems = 0;
}

abbrev pub zero_sem : Sem
zero_sem = record { semval = 0; sempid = 0; semncnt = 0; semzcnt = 0 }

-- `sempid < 0`, on a short int
abbrev pub is_negative : ℕ → Bool
is_negative n = leb (2 ^ 15) n

pub sem_get_new_ss : Sems → Option (ℕ × Sems)
sem_get_new_ss st = elim (first_index (λ n. (st.semset_pool n).sem_ctime == 0) 0 1 semmni) [
  | none ↦ none
  | some n ↦
      let taken = record (st.semset_pool n) { sem_ctime = 1 } in
      some (n, record st { semset_pool = update st.semset_pool n taken })
]

pub sem_release_ss : Sems → ℕ → Sems
sem_release_ss st ss = record st { semset_pool = update st.semset_pool ss zero_semid }

pub sem_get_new_sma : Sems → Option ℕ × Sems
sem_get_new_sma st = elim (first_index (λ n. is_negative (st.sma_pool n).sempid) 0 semmsl semmni) [
  | none ↦ (none, st)
  | some n ↦
      let taken = record (st.sma_pool n) { sempid = 0 } in
      (some n, record st { sma_pool = update st.sma_pool n taken })
]

-- `memset_b(sma, 0, sizeof(struct sem) * SEMMSL)` and `sma->sempid = -1`
pub sem_release_sma : Sems → ℕ → Sems
sem_release_sma st sma =
    let cleared : Store Sem =
      λ n. if leb sma n && ltb n (sma + semmsl) then zero_sem else st.sma_pool n in
    record st { sma_pool = update cleared sma (record zero_sem { sempid = 2 ^ 16 - 1 }) }

pub sem_get_new_su : Sems → Option (ℕ × Sems)
sem_get_new_su st = elim (first_index (λ n. ltb_ℤ (st.semundo_pool n).semid (pos 0)) 0 1 semmsl) [
  | none ↦ none
  | some n ↦
      let taken = record (st.semundo_pool n) { semid = pos 0 } in
      some (n, record st { semundo_pool = update st.semundo_pool n taken })
]

abbrev pub free_undo : Undo
free_undo = record { id_next = none; semid = negsuc 0; semadj = 0; sem_num = 0 }

pub sem_release_su : Sems → ℕ → Sems
sem_release_su st su = record st { semundo_pool = update st.semundo_pool su free_undo }

-- The first semaphore of every SEMMSL is marked as free.
abbrev pub free_sma : Store Sem
free_sma n = if n % semmsl == 0 then record zero_sem { sempid = 2 ^ 16 - 1 } else zero_sem

-- The state that `sem_init` leaves.
pub sem_init : Sems
sem_init = record {
  semset = λ n. none;
  semset_pool = λ n. zero_semid;
  sma_pool = free_sma;
  semundo_pool = λ n. free_undo;
  num_semsets = 0;
  num_sems = 0;
  max_semid = 0;
  sem_seq = 0;
}
