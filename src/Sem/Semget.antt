-- ===== src/Sem/Semget.antt =====
-- kernel/syscalls/semget.c: `sys_semget`, with `now` for CURRENT_TIME.
pub mod Ids
mod Tests
use fiwix_arm.Base.{
  Bool, Option, bit_and, bit_or, false, if◌then◌else◌, ltb, max, none, not, some, true, ℕ, ◌*◌, ◌+◌,
  ◌==◌, ◌||◌,
}
use fiwix_arm.Sem.{
  semmsl, semmns, update, pos, Semid, ltb_ℤ, ℤ, IpcPerm, first_index, sem_get_new_ss,
  sem_release_ss, semmni, sem_get_new_sma, Sems,
}
use fiwix_arm.Process.{Proc}
use fiwix_arm.Base.Errno.{acces, exist, done, noent, inval, nomem, nospc, fail, Result}
use fiwix_arm.Base.Bits.{u16, u32}
use fiwix_arm.Ipc.{ipc_has_perms, ipc_excl, ipc_creat}
use fiwix_arm.Base.Int.{pos_part}

abbrev pub is_unused : Sems → ℕ → Bool
is_unused st n = elim (st.semset n) [ none ↦ true | some _ ↦ false ]

abbrev pub has_key : Sems → ℕ → ℕ → Bool
has_key st key n = elim (st.semset n) [
  | none ↦ false
  | some ss ↦ key == (st.semset_pool ss).sem_perm.key
]

-- The label `init`: the set at index `ss` of the pool becomes number `n`. A pool of semaphores
-- that is used up leaves `sem_base` NULL.
pub init_set : Proc → ℕ → ℕ → ℕ → ℕ → Sems → ℕ → ℕ → Sems
init_set current now key nsems semflg st ss n =
    let (base, st') = sem_get_new_sma st in
    let perm : IpcPerm = record {
      key = key;
      uid = current.euid;
      gid = current.egid;
      cuid = current.euid;
      cgid = current.egid;
      mode = bit_and semflg 511;
      seq = u16 st.sem_seq;
    } in
    let set : Semid = record {
      sem_perm = perm;
      sem_otime = 0;
      sem_ctime = now;
      sem_base = base;
      undo = none;
      sem_nsems = nsems;
    } in
    record st' {
      semset_pool = update st'.semset_pool ss set;
      semset = update st.semset n (some ss);
      max_semid = max st.max_semid n;
      num_sems = u32 (st.num_sems + nsems);
      num_semsets = u32 (st.num_semsets + 1);
    }

-- The index of a set in the table, and its identifier.
abbrev pub id_of : Sems → ℕ → ℕ → ℕ
id_of st ss n = (st.semset_pool ss).sem_perm.seq * semmni + n

-- A free place for the set that `sem_get_new_ss` returned.
pub place_set : Proc → ℕ → ℕ → ℕ → ℕ → ℕ → Sems → Sems × Result ℕ
unfolding init_set sem_release_ss
place_set current now key nsems semflg ss st =
    let free : Option ℕ = first_index (is_unused st) 0 1 semmni in
    elim free [
      | none ↦ (sem_release_ss st ss, fail nospc)
      | some n ↦
          let st' = init_set current now key nsems semflg st ss n in (st', done (id_of st' ss n))
    ]

pub create_set : Proc → ℕ → ℕ → ℕ → ℕ → Sems → Sems × Result ℕ
unfolding place_set
create_set current now key nsems semflg st =
    let created : Sems × Result ℕ = elim (sem_get_new_ss st) [
      | none ↦ (st, fail nomem)
      | some (ss, st') ↦ place_set current now key nsems semflg ss st'
    ] in
    if nsems == 0
    then (st, fail inval)
    else if ltb semmns (u32 (st.num_sems + nsems))
    then (st, fail nospc)
    else created

-- The set number `n`, which has the key, so that it is never unused.
pub open_set : Proc → ℕ → ℕ → Sems → ℕ → Sems × Result ℕ
open_set current nsems semflg st n = elim (st.semset n) [
  | none ↦ (st, fail inval)
  | some ss ↦
      let perm = (st.semset_pool ss).sem_perm in
      if bit_and semflg (bit_or ipc_creat ipc_excl) == bit_or ipc_creat ipc_excl
      then (st, fail exist)
      else if not (ipc_has_perms current perm semflg)
      then (st, fail acces)
      else if ltb (st.semset_pool ss).sem_nsems nsems
      then (st, fail inval)
      else (st, done (id_of st ss n))
]

pub find_key : Sems → ℕ → Option ℕ
find_key st key = first_index (has_key st key) 0 1 semmni

pub get_set : Proc → ℕ → ℕ → ℕ → ℕ → Sems → Sems × Result ℕ
unfolding create_set open_set
get_set current now key nsems semflg st =
    let created = create_set current now key nsems semflg st in
    let opened : Sems × Result ℕ = elim (find_key st key) [
      | none ↦ if bit_and semflg ipc_creat == 0 then (st, fail noent) else created
      | some n ↦ open_set current nsems semflg st n
    ] in
    if key == 0 then created else opened

pub sys_semget : Proc → ℕ → ℕ → ℤ → ℕ → Sems → Sems × Result ℕ
unfolding get_set
sys_semget current now key nsems semflg st =
    if ltb_ℤ nsems (pos 0) || ltb_ℤ (pos semmsl) nsems
    then (st, fail inval)
    else get_set current now key (pos_part nsems) semflg st
