-- ===== src/Sem/Semctl.antt =====
-- kernel/syscalls/semctl.c: `sys_semctl`, one function for each case of its switch, with `now` for
-- CURRENT_TIME and `area` for what `check_user_area` answers. `wakeup` changes nothing but the sleep
-- queue.
pub mod Values
mod Tests
use fiwix_arm.Base.{
  Bool, List, Option, [], bit_and, bit_or, false, if◌then◌else◌, leb, ltb, none, not, set, some,
  suc, true, zero, ℕ, ◌%◌, ◌*◌, ◌+◌, ◌-◌, ◌==◌, ◌^◌, ◌||◌, ◌∷◌,
}
use fiwix_arm.Base.Int.{neg_part, pos, ltb_ℤ, pos_part, negsuc, ℤ, ◌==ℤ◌}
use fiwix_arm.Sem.{
  semvmx, update, semmni, semmsl, Sem, Undo, IpcPerm, sem_release_ss, Store, Semid, Sems,
}
use fiwix_arm.Base.Errno.{range, acces, inval, done, fail, Errno, Result}
use fiwix_arm.Process.{is_superuser, Proc}
use fiwix_arm.Sem.Semop.{set_of}
use fiwix_arm.Base.Bits.{u32}
use fiwix_arm.Ipc.{ipc_has_perms, ipc_w, ipc_r}
use fiwix_arm.Base.Bits.{u16}

-- What a command stores in the user's memory.
pub data Out : Type 0 where
  nothing : Out
  copy_of : Semid → Out
  values : List ℕ → Out
  limits : ℕ → ℕ → Out  -- semusz and semaem; the other fields are constants

-- How a call ends: it returns; it goes through a NULL `sem_base`; it reads below the pool; or the
-- fuel for the chain of undo entries ran out.
pub data Ctl : Type 0 where
  answered : Sems → Out → Result ℤ → Ctl
  no_base below_pool no_fuel : Ctl

abbrev pub refused : Sems → Errno → Ctl
refused st e = answered st nothing (fail e)

-- A short int as an int.
abbrev pub signed16 : ℕ → ℤ
signed16 n = if leb (2 ^ 15) n then negsuc (2 ^ 16 - 1 - n) else pos n

abbrev pub is_owner : Proc → IpcPerm → Bool
is_owner current perm =
    is_superuser current || (current.euid == perm.uid) || (current.euid == perm.cuid)

-- IPC_STAT, and SEM_STAT, which takes an index of the table.
pub stat_set : Proc → Bool → Option Errno → ℤ → Sems → Ctl
stat_set current by_index area semid st =
    let ss? : Option ℕ = if by_index then st.semset (pos_part semid) else set_of st semid in
    elim area [
      | some e ↦ refused st e
      | none ↦ elim ss? [
        | none ↦ refused st inval
        | some ss ↦
            let set = st.semset_pool ss in
            let retval : ℕ = if by_index then set.sem_perm.seq * semmni + pos_part semid else 0 in
            if not (ipc_has_perms current set.sem_perm ipc_r)
            then refused st acces
            else answered st (copy_of set) (done (pos retval))
      ]
    ]

-- IPC_SET, with `uid`, `gid` and `mode` of the user's structure.
pub set_perms : Proc → ℕ → Option Errno → ℤ → ℕ → ℕ → ℕ → Sems → Ctl
set_perms current now area semid uid gid mode st = elim area [
  | some e ↦ refused st e
  | none ↦ elim (set_of st semid) [
    | none ↦ refused st inval
    | some ss ↦
        let set = st.semset_pool ss in
        let perm = set.sem_perm in
        let bits : ℕ = bit_or (bit_and perm.mode (2 ^ 16 - 1 - 511)) (bit_and mode 511) in
        let perm' = record perm { uid = uid; gid = gid; mode = bits } in
        let set' = record set { sem_perm = perm'; sem_ctime = now } in
        let st' = record st { semset_pool = update st.semset_pool ss set' } in
        if not (is_owner current perm)
        then refused st Errno.perm
        else answered st' nothing (done (pos 0))
  ]
]

-- The loop over the undo entries of a set, which forgets what is to undo for a semaphore. A chain
-- without a cycle has at most SEMMSL entries, the size of the pool.
pub clear_undo : ℕ → Store Undo → Option ℕ → ℤ → Option (Store Undo)
clear_undo zero pool un semnum = elim un [ none ↦ some pool | some _ ↦ none ]
clear_undo (suc fuel) pool un semnum = elim un [
  | none ↦ some pool
  | some u ↦
      let entry = pool u in
      let cleared : Store Undo =
        if semnum ==ℤ pos entry.sem_num
        then update pool u (record entry { semadj = 0 })
        else pool in
      clear_undo fuel cleared (cleared u).id_next semnum
]

-- The loop that lowers `max_semid`.
pub lower_max : Sems → ℕ → ℕ
lower_max st zero = 0
lower_max st (suc n) =
    let rest = lower_max st n in elim (st.semset (suc n)) [ none ↦ rest | some _ ↦ suc n ]

-- `num_sems -= ss->sem_nsems` and what follows it, for set `ss` at place `n`
pub remove_set : Sems → ℕ → ℕ → Sems
unfolding sem_release_ss lower_max
remove_set st ss n =
    let freed = sem_release_ss st ss in
    let st' = record freed {
      num_sems = u32 (st.num_sems + 2 ^ 32 - (st.semset_pool ss).sem_nsems);
      semset = update st.semset n none;
      num_semsets = u32 (st.num_semsets + 2 ^ 32 - 1);
      sem_seq = u32 (st.sem_seq + 1);
    } in
    let lowered = lower_max st' st.max_semid in
    record st' { max_semid = if n == st.max_semid then lowered else st.max_semid }

-- IPC_RMID
pub rmid : Proc → ℤ → ℤ → Sems → Ctl
unfolding clear_undo remove_set
rmid current semid semnum st = elim (set_of st semid) [
  | none ↦ refused st inval
  | some ss ↦
      let set = st.semset_pool ss in
      let removed : Ctl = elim (clear_undo semmsl st.semundo_pool set.undo semnum) [
        | none ↦ no_fuel
        | some pool ↦
            let st' = remove_set (record st { semundo_pool = pool }) ss (pos_part semid % semmni) in
            answered st' nothing (done (pos 0))
      ] in
      if not (is_owner current set.sem_perm) then refused st Errno.perm else removed
]

-- IPC_INFO and SEM_INFO; `sizeof(struct sem_undo)` is 16.
pub info : Bool → Option Errno → Sems → Ctl
info of_use area st = elim area [
  | some e ↦ refused st e
  | none ↦
      let out : Out = if of_use then limits st.num_semsets st.num_sems else limits 16 0 in
      answered st out (done (pos st.max_semid))
]

-- The set of a command that looks at its semaphores, with `want` for the permission, and what the
-- command does with the index of the set and the address of its semaphores, `none` for NULL.
pub with_set : Proc → ℕ → ℤ → Sems → (ℕ → Option ℕ → Ctl) → Ctl
with_set current want semid st command = elim (set_of st semid) [
  | none ↦ refused st inval
  | some ss ↦
      let set = st.semset_pool ss in
      let run = command ss set.sem_base in
      if not (ipc_has_perms current set.sem_perm want) then refused st acces else run
]

-- What goes through the address of the semaphores.
abbrev pub at_base : Option ℕ → (ℕ → Ctl) → Ctl
at_base none body = no_base
at_base (some base) body = body base

-- GETPID, GETVAL, GETNCNT and GETZCNT: a field of a semaphore, whose number is not checked.
pub get_field : Proc → ℤ → ℤ → (Sem → ℕ) → Sems → Ctl
unfolding with_set
get_field current semid semnum field st = with_set current ipc_r semid st λ ss sem_base.
    at_base sem_base λ base.
      let s = st.sma_pool (base + pos_part semnum - neg_part semnum) in
      if ltb (base + pos_part semnum) (neg_part semnum)
      then below_pool
      else answered st nothing (done (signed16 (field s)))

abbrev pub semvals : Store Sem → ℕ → ℕ → List ℕ
semvals sma base zero = []
semvals sma base (suc n) = (sma base).semval ∷ semvals sma (base + 1) n

-- GETALL
pub get_all : Proc → Option Errno → ℤ → Sems → Ctl
unfolding with_set
get_all current area semid st = with_set current ipc_r semid st λ ss sem_base. elim area [
  | some e ↦ refused st e
  | none ↦ at_base sem_base λ base.
      let vals = semvals st.sma_pool base (st.semset_pool ss).sem_nsems in
      answered st (values vals) (done (pos 0))
]

-- The end of SETVAL and SETALL: the time of the change, and the undo entries.
pub changed : ℕ → ℕ → ℤ → Sems → Ctl
unfolding clear_undo
changed now ss semnum st =
    let set = st.semset_pool ss in
    elim (clear_undo semmsl st.semundo_pool set.undo semnum) [
      | none ↦ no_fuel
      | some pool ↦
          let st' = record st {
            semundo_pool = pool;
            semset_pool = update st.semset_pool ss (record set { sem_ctime = now });
          } in
          answered st' nothing (done (pos 0))
    ]

-- SETVAL; `val` is the pointer argument as an int.
pub set_val : Proc → ℕ → ℤ → ℤ → ℤ → Sems → Ctl
unfolding with_set changed
set_val current now semid semnum val st = with_set current ipc_w semid st λ ss sem_base.
    let set = at_base sem_base λ base.
      let i = base + pos_part semnum in
      let s = record (st.sma_pool i) { semval = pos_part val } in
      changed now ss semnum (record st { sma_pool = update st.sma_pool i s }) in
    if ltb_ℤ val (pos 0) || ltb_ℤ (pos semvmx) val
    then refused st range
    else if ltb_ℤ semnum (pos 0) || ltb_ℤ (pos (st.semset_pool ss).sem_nsems) semnum
    then refused st inval
    else set

pub store_vals : Store Sem → ℕ → Store ℕ → ℕ → ℕ → Store Sem
store_vals sma base array i zero = sma
store_vals sma base array i (suc n) =
    store_vals (update sma (base + i) (record (sma (base + i)) { semval = u16 (array i) })) base
      array (i + 1) n

-- SETALL asks for the user's memory before the permission, and checks no value.
pub set_all : Proc → ℕ → Option Errno → ℤ → ℤ → Store ℕ → Sems → Ctl
unfolding with_set changed store_vals
set_all current now area semid semnum array st =
    let run = with_set current ipc_w semid st λ ss sem_base. at_base sem_base λ base.
      let nsems = (st.semset_pool ss).sem_nsems in
      changed now ss semnum (record st { sma_pool = store_vals st.sma_pool base array 0 nsems }) in
    elim (set_of st semid) [
      | none ↦ refused st inval
      | some ss ↦ elim area [ none ↦ run | some e ↦ refused st e ]
    ]

-- The commands, with what they take from the user.
pub data Cmd : Type 0 where
  ipc_stat sem_stat ipc_rmid ipc_info sem_info : Cmd
  getpid getval getall getncnt getzcnt : Cmd
  ipc_set : ℕ → ℕ → ℕ → Cmd
  setval : ℤ → Cmd
  setall : Store ℕ → Cmd
  unknown : Cmd

pub semctl_command : Proc → ℕ → Option Errno → ℤ → ℤ → Cmd → Sems → Ctl
unfolding stat_set set_perms rmid info get_field get_all set_val set_all
semctl_command current now area semid semnum ipc_stat st = stat_set current false area semid st
semctl_command current now area semid semnum sem_stat st = stat_set current true area semid st
semctl_command current now area semid semnum (ipc_set uid gid mode) st =
    set_perms current now area semid uid gid mode st
semctl_command current now area semid semnum ipc_rmid st = rmid current semid semnum st
semctl_command current now area semid semnum ipc_info st = info false area st
semctl_command current now area semid semnum sem_info st = info true area st
semctl_command current now area semid semnum getpid st =
    get_field current semid semnum (λ s. s.sempid) st
semctl_command current now area semid semnum getval st =
    get_field current semid semnum (λ s. s.semval) st
semctl_command current now area semid semnum getncnt st =
    get_field current semid semnum (λ s. s.semncnt) st
semctl_command current now area semid semnum getzcnt st =
    get_field current semid semnum (λ s. s.semzcnt) st
semctl_command current now area semid semnum getall st = get_all current area semid st
semctl_command current now area semid semnum (setval val) st =
    set_val current now semid semnum val st
semctl_command current now area semid semnum (setall array) st =
    set_all current now area semid semnum array st
semctl_command current now area semid semnum unknown st = refused st inval

pub sys_semctl : Proc → ℕ → Option Errno → ℤ → ℤ → Cmd → Sems → Ctl
unfolding semctl_command
sys_semctl current now area semid semnum cmd st =
    let run = semctl_command current now area semid semnum cmd st in
    if ltb_ℤ semid (pos 0) then refused st inval else run
