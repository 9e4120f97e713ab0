-- ===== src/Fd.antt =====
-- fs/fd.c, kernel/syscalls/dup.c, dup2.c, close.c, fcntl.c and flock.c: the descriptors of a process
-- and the table of open files. `fd_resource` is not part of the model.
pub mod Counts
pub mod Keep
pub mod Close
pub mod Seek
pub mod Position
mod Tests
use fiwix_arm.Base.{
  Bool, List, Option, bit_and, bit_or, false, if◌then◌else◌, leb, ltb, min, none, not, some, true,
  ℕ, ◌+◌, ◌-◌, ◌==◌, ◌^◌, ◌||◌,
}
use fiwix_arm.Base.Search.{first_index}
use fiwix_arm.Lock.{posix_lock, flock_release_inode, flock_inode, Flocks, Woken, LockCmd}
use fiwix_arm.Base.Store.{update, Store}
use fiwix_arm.Base.Errno.{success, inval, badf, mfile, fail, done, Errno, Status, Result}
use fiwix_arm.Base.Bits.{u16}

abbrev pub open_max : ℕ
open_max = 256

abbrev pub nr_opens : ℕ
nr_opens = 1024

abbrev pub fd_cloexec : ℕ
fd_cloexec = 1

-- O_APPEND | O_NONBLOCK
abbrev pub settable_flags : ℕ
settable_flags = 3072

-- `struct fd`; `flags` and `count` are unsigned shorts.
pub record Fd : Type 0 where
  pub inode : ℕ
  pub flags : ℕ
  pub count : ℕ
  pub offset : ℕ
  pub private_data : ℕ

-- `fd_table`, and `fd` and `fd_flags` of the process that runs. `fd` is an array of unsigned shorts,
-- of OPEN_MAX entries; an entry past its end is what is in memory there.
pub record Files : Type 0 where
  pub fd_table : Store Fd
  pub fd : Store ℕ
  pub fd_flags : Store ℕ

-- -1 in `fd`: a descriptor that has been taken and not been filled yet
abbrev pub fd_taken : ℕ
fd_taken = 65535

unfoldable pub get_new_fd : ℕ → Files → Option (ℕ × Files)
get_new_fd i st = elim (first_index (λ n. (st.fd_table n).count == 0) 1 1 (nr_opens - 1)) [
  | none ↦ none
  | some n ↦
      let new : Fd = record { inode = i; flags = 0; count = 1; offset = 0; private_data = 0 } in
      some (n, record st { fd_table = update st.fd_table n new })
]

unfoldable pub release_fd : ℕ → Files → Files
release_fd n st = record st {
  fd_table = update st.fd_table n (record (st.fd_table n) { count = 0 });
}

-- The lowest free descriptor from `ufd` on, below OPEN_MAX and below RLIMIT_NOFILE.
unfoldable pub get_new_user_fd : ℕ → ℕ → Files → Option (ℕ × Files)
get_new_user_fd limit ufd st =
    elim (first_index (λ n. st.fd n == 0) ufd 1 (min open_max limit - ufd)) [
      | none ↦ none
      | some n ↦
          some (n, record st { fd = update st.fd n fd_taken; fd_flags = update st.fd_flags n 0 })
    ]

unfoldable pub release_user_fd : ℕ → Files → Files
release_user_fd ufd st = record st { fd = update st.fd ufd 0 }

-- CHECK_UFD, where it refuses
abbrev pub is_bad : Files → ℕ → Bool
is_bad st ufd = ltb (open_max - 1) ufd || (st.fd ufd == 0)

-- `current->fd[new_ufd] = current->fd[ufd]` and `fd_table[current->fd[new_ufd]].count++`
unfoldable pub fill : ℕ → ℕ → Files → Files
fill ufd new_ufd st =
    let n = st.fd ufd in
    let file = st.fd_table n in
    record st {
      fd = update st.fd new_ufd n;
      fd_table = update st.fd_table n (record file { count = u16 (file.count + 1) });
    }

unfoldable pub dup_from : ℕ → ℕ → ℕ → Files → Files × Result ℕ
unfolding get_new_user_fd fill
dup_from limit start ufd st = elim (get_new_user_fd limit start st) [
  | none ↦ (st, fail mfile)
  | some (n, st') ↦ (fill ufd n st', done n)
]

unfoldable pub sys_dup : ℕ → ℕ → Files → Files × Result ℕ
unfolding dup_from
sys_dup limit ufd st =
    let duped = dup_from limit 0 ufd st in if is_bad st ufd then (st, fail badf) else duped

-- What a close leaves: the files, the locks, and the inode that has been closed and put, if one has.
pub record Closed : Type 0 where
  pub files : Files
  pub locks : Flocks
  pub put : Option ℕ

-- `has_close` says which inodes have a `close` operation.
unfoldable pub sys_close : (ℕ → Bool) → ℕ → ℕ → Files → Flocks → Closed × Status
unfolding release_user_fd release_fd
sys_close has_close current ufd st t =
    let n = st.fd ufd in
    let file = st.fd_table n in
    let count : ℕ = u16 (file.count + 2 ^ 16 - 1) in
    let less = record (release_user_fd ufd st) {
      fd_table = update st.fd_table n (record file { count = count });
    } in
    let t' = flock_release_inode file.inode current t in
    let kept : Closed = record { files = st; locks = t; put = none } in
    let shared : Closed = record { files = less; locks = t; put = none } in
    let last : Closed = record { files = release_fd n less; locks = t'; put = some file.inode } in
    let stuck : Closed = record { files = less; locks = t'; put = none } in
    if is_bad st ufd
    then (kept, fail badf)
    else if not (count == 0)
    then (shared, success)
    else if has_close file.inode
    then (last, success)
    else (stuck, fail inval)

-- A descriptor that is in use is closed first, even where no descriptor is then to be had.
unfoldable pub sys_dup2 : (ℕ → Bool) → ℕ → ℕ → ℕ → ℕ → Files → Flocks → Closed × Result ℕ
unfolding sys_close dup_from
sys_dup2 has_close current limit old_ufd new_ufd st t =
    let kept : Closed = record { files = st; locks = t; put = none } in
    let closed : Closed =
      if st.fd new_ufd == 0 then kept else (sys_close has_close current new_ufd st t).0 in
    let (st', r) = dup_from limit new_ufd old_ufd closed.files in
    if is_bad st old_ufd
    then (kept, fail badf)
    else if ltb open_max new_ufd
    then (kept, fail inval)
    else if old_ufd == new_ufd
    then (kept, done new_ufd)
    else (record closed { files = st' }, r)

-- The commands of `sys_fcntl`, with their argument; for a lock what `check_user_area` answers, and
-- the `l_type` of the user's structure.
pub data FcntlCmd : Type 0 where
  f_dupfd f_dupfd_cloexec f_setfd f_setfl : ℕ → FcntlCmd
  f_getfd f_getfl unknown : FcntlCmd
  f_lock : Option Errno → LockCmd → ℕ → FcntlCmd

-- How `sys_fcntl` ends: the files, the locks, the result, and what F_GETLK stores.
abbrev pub Fcntl : Type 0
Fcntl = Files × Flocks × Result ℕ × Option (ℕ × Option ℕ)

abbrev pub result_of : Status → Result ℕ
result_of s = elim s [ done _ ↦ done 0 | fail e ↦ fail e ]

-- F_DUPFD and F_DUPFD_CLOEXEC
unfoldable pub dup_above : Bool → ℕ → ℕ → ℕ → Files → Files × Result ℕ
unfolding dup_from
dup_above is_cloexec limit start ufd st =
    let (st', r) = dup_from limit start ufd st in
    let flagged : Files × Result ℕ = elim r [
      | fail e ↦ (st', fail e)
      | done n ↦
          let flags = update st'.fd_flags n (bit_or (st'.fd_flags n) fd_cloexec) in
          ((if is_cloexec then record st' { fd_flags = flags } else st'), done n)
    ] in
    if leb open_max start then (st, fail inval) else flagged

unfoldable pub set_fl : ℕ → ℕ → Files → Files
set_fl arg ufd st =
    let n = st.fd ufd in
    let file = st.fd_table n in
    let flags : ℕ =
      bit_or (bit_and file.flags (2 ^ 16 - 1 - settable_flags)) (bit_and arg settable_flags) in
    record st { fd_table = update st.fd_table n (record file { flags = flags }) }

unfoldable pub fcntl_command :
    ℕ → Bool → ℕ → ℕ → FcntlCmd → List Woken → Files → Flocks → Option Fcntl
unfolding dup_above set_fl
fcntl_command current has_memory limit ufd (f_dupfd arg) wakes st t =
    let (st', r) = dup_above false limit arg ufd st in some (st', t, r, none)
fcntl_command current has_memory limit ufd (f_dupfd_cloexec arg) wakes st t =
    let (st', r) = dup_above true limit arg ufd st in some (st', t, r, none)
fcntl_command current has_memory limit ufd f_getfd wakes st t =
    some (st, t, done (bit_and (st.fd_flags ufd) fd_cloexec), none)
fcntl_command current has_memory limit ufd (f_setfd arg) wakes st t =
    some (record st { fd_flags = update st.fd_flags ufd (bit_and arg fd_cloexec) }, t, done 0, none)
fcntl_command current has_memory limit ufd f_getfl wakes st t =
    some (st, t, done (st.fd_table (st.fd ufd)).flags, none)
fcntl_command current has_memory limit ufd (f_setfl arg) wakes st t =
    some (set_fl arg ufd st, t, done 0, none)
fcntl_command current has_memory limit ufd (f_lock (some e) cmd l_type) wakes st t =
    some (st, t, fail e, none)
fcntl_command current has_memory limit ufd (f_lock none cmd l_type) wakes st t =
    elim (posix_lock current has_memory (st.fd_table (st.fd ufd)).inode cmd l_type wakes t) [
      | none ↦ none
      | some (t', s, out) ↦ some (st, t', result_of s, out)
    ]
fcntl_command current has_memory limit ufd unknown wakes st t = some (st, t, fail inval, none)

unfoldable pub sys_fcntl : ℕ → Bool → ℕ → ℕ → FcntlCmd → List Woken → Files → Flocks → Option Fcntl
unfolding fcntl_command
sys_fcntl current has_memory limit ufd cmd wakes st t =
    let run = fcntl_command current has_memory limit ufd cmd wakes st t in
    if is_bad st ufd then some (st, t, fail badf, none) else run

unfoldable pub sys_flock : ℕ → Bool → ℕ → ℕ → List Woken → Files → Flocks → Option (Flocks × Status)
sys_flock current has_memory ufd op wakes st t =
    let locked = flock_inode current has_memory (st.fd_table (st.fd ufd)).inode op wakes t in
    if is_bad st ufd then some (t, fail badf) else locked
