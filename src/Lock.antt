-- ===== src/Lock.antt =====
-- fs/locks.c: the locks of files. The chain behind `flock_file_table` is a list; an inode is its
-- address, a process its slot. The chain itself is locked by `flock_resource`, which is not part of
-- the model, and `wakeup` changes nothing but the sleep queue.
pub mod Exclusive
pub mod Keep
mod Tests
use fiwix_arm.Base.{
  Bool, List, Option, [], bit_or, if◌then◌else◌, length, ltb, none, not, set, some, ℕ, ◌%◌, ◌&&◌,
  ◌++◌, ◌+◌, ◌-◌, ◌==◌, ◌||◌, ◌∷◌,
}
use fiwix_arm.Process.{has_bits}
use fiwix_arm.Base.Errno.{intr, inval, again, nolck, success, fail, Status}

-- `struct flock_file`
pub record Flock : Type 0 where
  pub inode : ℕ
  pub type : ℕ
  pub proc : ℕ

pub record Flocks : Type 0 where
  pub flock_file_table : List Flock
  pub nr_flocks : ℕ

abbrev pub nr_flocks_max : ℕ
nr_flocks_max = 320

abbrev pub lock_sh : ℕ
lock_sh = 1

abbrev pub lock_ex : ℕ
lock_ex = 2

abbrev pub lock_nb : ℕ
lock_nb = 4

abbrev pub lock_un : ℕ
lock_un = 8

-- A new entry comes last. `has_memory` is whether `kmalloc` has memory.
unfoldable pub get_new_flock : Bool → Flock → Flocks → Option Flocks
get_new_flock has_memory new t =
    if ltb nr_flocks_max (t.nr_flocks + 1) || not has_memory
    then none
    else some
        (record { flock_file_table = t.flock_file_table ++ new ∷ []; nr_flocks = t.nr_flocks + 1 })

abbrev pub is_of : ℕ → ℕ → Flock → Bool
is_of i p ff = ff.inode == i && ff.proc == p

-- `get_flock_file` and `release_flock`: the first entry of the process for the inode goes.
unfoldable pub remove_first : ℕ → ℕ → List Flock → List Flock
remove_first i p [] = []
remove_first i p (ff ∷ rest) =
    let later = remove_first i p rest in if is_of i p ff then rest else ff ∷ later

unfoldable pub get_flock_file : ℕ → ℕ → List Flock → Option Flock
get_flock_file i p [] = none
get_flock_file i p (ff ∷ rest) =
    let later = get_flock_file i p rest in if is_of i p ff then some ff else later

unfoldable pub unlock : ℕ → ℕ → Flocks → Flocks
unfolding remove_first get_flock_file
unlock i p t = elim (get_flock_file i p t.flock_file_table) [
  | none ↦ t
  | some _ ↦ record {
    flock_file_table = remove_first i p t.flock_file_table;
    nr_flocks = t.nr_flocks - 1;
  }
]

-- Every entry of the process for the inode goes. The source reads the `next` of an entry that it has
-- freed, which is still what it was.
unfoldable pub remove_all : ℕ → ℕ → List Flock → List Flock
remove_all i p [] = []
remove_all i p (ff ∷ rest) =
    let later = remove_all i p rest in if is_of i p ff then later else ff ∷ later

unfoldable pub flock_release_inode : ℕ → ℕ → Flocks → Flocks
unfolding remove_all
flock_release_inode i p t =
    let left = remove_all i p t.flock_file_table in
    record {
      flock_file_table = left;
      nr_flocks = t.nr_flocks + length left - length t.flock_file_table;
    }

-- Where the loop of `flock_inode` ends: at a lock of another process, or with the index of the entry
-- to change, if there is one.
pub data Scan : Type 0 where
  blocked : Scan
  granted : Option ℕ → Scan

unfoldable pub scan : ℕ → ℕ → ℕ → ℕ → Option ℕ → List Flock → Scan
scan current i op k new [] = granted new
scan current i op k new (ff ∷ rest) =
    let is_own = ff.proc == current in
    let later = scan current i op (k + 1) new rest in
    let later_own = scan current i op (k + 1) (some k) rest in
    let exclusive : Scan =
      if has_bits op lock_ex then (if is_own then later_own else blocked) else later in
    if not (ff.inode == i)
    then later
    else if has_bits op lock_sh && has_bits ff.type lock_ex
    then (if is_own then granted (some k) else blocked)
    else exclusive

-- The end of `flock_inode`; `type` is an unsigned char.
unfoldable pub grant : ℕ → Bool → ℕ → ℕ → Option ℕ → Flocks → Flocks × Status
unfolding get_new_flock
grant current has_memory i op new t =
    let ff : Flock = record { inode = i; type = op % 256; proc = current } in
    let created : Flocks × Status = elim (get_new_flock has_memory ff t) [
      | none ↦ (t, fail nolck)
      | some t' ↦ (t', success)
    ] in
    elim new [
      | none ↦ created
      | some k ↦ (record t { flock_file_table = set t.flock_file_table k ff }, success)
    ]

-- How a sleep of `flock_inode` ends: whether by a signal, and the table then.
pub record Woken : Type 0 where
  pub is_signal : Bool
  pub table : Flocks

-- From the label `loop` on, with how each sleep ends; `none` is a process that still sleeps.
unfoldable pub lock : ℕ → Bool → ℕ → ℕ → List Woken → Flocks → Option (Flocks × Status)
unfolding scan grant
lock current has_memory i op [] t = elim (scan current i op 0 none t.flock_file_table) [
  | granted new ↦ some (grant current has_memory i op new t)
  | blocked ↦ if has_bits op lock_nb then some (t, fail again) else none
]
lock current has_memory i op (w ∷ wakes) t = elim (scan current i op 0 none t.flock_file_table) [
  | granted new ↦ some (grant current has_memory i op new t)
  | blocked ↦
      let later = lock current has_memory i op wakes w.table in
      if has_bits op lock_nb
      then some (t, fail again)
      else if w.is_signal
      then some (w.table, fail intr)
      else later
]

unfoldable pub flock_inode : ℕ → Bool → ℕ → ℕ → List Woken → Flocks → Option (Flocks × Status)
unfolding lock unlock
flock_inode current has_memory i op wakes t =
    let locked = lock current has_memory i op wakes t in
    if has_bits op lock_un then some (unlock i current t, success) else locked

-- `cmd` and `l_type` of `posix_lock`
pub data LockCmd : Type 0 where
  f_getlk f_setlk f_setlkw : LockCmd

abbrev pub f_rdlck : ℕ
f_rdlck = 0

abbrev pub f_wrlck : ℕ
f_wrlck = 1

abbrev pub f_unlck : ℕ
f_unlck = 2

-- The first entry for the inode.
unfoldable pub first_of_inode : ℕ → List Flock → Option Flock
first_of_inode i [] = none
first_of_inode i (ff ∷ rest) =
    let later = first_of_inode i rest in if ff.inode == i then some ff else later

-- The new `l_type`, and the process whose pid F_GETLK stores.
unfoldable pub getlk : ℕ → Flocks → ℕ × Option ℕ
unfolding first_of_inode
getlk i t = elim (first_of_inode i t.flock_file_table) [
  | none ↦ (f_unlck, none)
  | some ff ↦ ((if has_bits ff.type lock_sh then f_rdlck else f_wrlck), some ff.proc)
]

abbrev pub lock_of : ℕ → Option ℕ
lock_of l_type =
    if l_type == f_rdlck
    then some lock_sh
    else if l_type == f_wrlck
    then some lock_ex
    else if l_type == f_unlck
    then some lock_un
    else none

-- `posix_lock` on the inode of the descriptor, with what F_GETLK stores. F_SETLKW is the one that
-- does not wait.
unfoldable pub posix_lock :
    ℕ
    → Bool
    → ℕ
    → LockCmd
    → ℕ
    → List Woken
    → Flocks
    → Option (Flocks × Status × Option (ℕ × Option ℕ))
unfolding getlk flock_inode
posix_lock current has_memory i f_getlk l_type wakes t = some (t, success, some (getlk i t))
posix_lock current has_memory i f_setlk l_type wakes t = elim (lock_of l_type) [
  | none ↦ some (t, fail inval, none)
  | some type ↦ elim (flock_inode current has_memory i type wakes t) [
    | none ↦ none
    | some (t', s) ↦ some (t', s, none)
  ]
]
posix_lock current has_memory i f_setlkw l_type wakes t = elim (lock_of l_type) [
  | none ↦ some (t, fail inval, none)
  | some type ↦ elim (flock_inode current has_memory i (bit_or type lock_nb) wakes t) [
    | none ↦ none
    | some (t', s) ↦ some (t', s, none)
  ]
]
