-- ===== src/Session.antt =====
-- Process groups and sessions, kernel/syscalls/setpgid.c, setsid.c, getpgid.c, getpgrp.c and getsid.c,
-- and the permissions of files, kernel/syscalls.c. The table of processes is the list behind its
-- head, in which `current` is the process that runs; a pointer to a process is its slot.
pub mod Groups
mod Tests
use fiwix_arm.Base.Int.{◌==ℤ◌}
use fiwix_arm.Base.{
  Bool, List, Option, [], bit_and, false, if◌then◌else◌, none, not, some, true, ℕ, ◌&&◌, ◌/◌, ◌==◌,
  ◌||◌, ◌∷◌,
}
use fiwix_arm.Process.{pf_pexec, pf_usereal, is_superuser, pg_leader, Proc, has_bits}
use fiwix_arm.Base.Errno.{inval, success, done, acces, perm, srch, fail, Status, Result}
use fiwix_arm.Base.Int.{pos, ltb_ℤ, pos_part, ℤ}

unfoldable pub get_proc_by_pid : ℕ → List Proc → Option Proc
get_proc_by_pid pid [] = none
get_proc_by_pid pid (p ∷ ps) =
    let later = get_proc_by_pid pid ps in if p.pid == pid then some p else later

-- A process of the group in another session
unfoldable pub in_other_session : ℕ → ℕ → List Proc → Bool
in_other_session pgid sid [] = false
in_other_session pgid sid (p ∷ ps) =
    let later = in_other_session pgid sid ps in
    if p.pgid == pgid && not (p.sid == sid) then true else later

-- The table with a change of the process in one slot
unfoldable pub at_slot : ℕ → (Proc → Proc) → List Proc → List Proc
at_slot slot f [] = []
at_slot slot f (p ∷ ps) =
    let later = at_slot slot f ps in if p.slot == slot then f p ∷ later else p ∷ later

-- The tests and the change, for the process `p` and the group `pgid`
unfoldable pub move_to : Proc → Proc → ℕ → List Proc → List Proc × Status
unfolding in_other_session at_slot
move_to current p pgid table =
    let is_other = not (p.slot == current.slot) in
    if is_other && not (p.ppid == current.slot)
    then (table, fail srch)
    else if p.sid == p.pid || not (p.sid == current.sid)
    then (table, fail perm)
    else if in_other_session pgid current.sid table
    then (table, fail perm)
    else if is_other && has_bits p.flags pf_pexec
    then (table, fail acces)
    else (at_slot p.slot (λ q. record q { pgid = pgid }) table, success)

unfoldable pub sys_setpgid : Proc → ℤ → ℤ → List Proc → List Proc × Status
unfolding get_proc_by_pid move_to
sys_setpgid current pid pgid table =
    let of : ℕ = if pid ==ℤ pos 0 then current.pid else pos_part pid in
    let moved : List Proc × Status = elim (get_proc_by_pid of table) [
      | none ↦ (table, fail inval)
      | some p ↦ move_to current p (if pgid ==ℤ pos 0 then p.pid else pos_part pgid) table
    ] in
    if ltb_ℤ pid (pos 0) || ltb_ℤ pgid (pos 0) then (table, fail inval) else moved

-- Another process in the group of this number
unfoldable pub has_other_in : Proc → ℕ → List Proc → Bool
has_other_in current pgid [] = false
has_other_in current pgid (p ∷ ps) =
    let later = has_other_in current pgid ps in
    if not (p.slot == current.slot) && p.pgid == pgid then true else later

unfoldable pub sys_setsid : Proc → List Proc → List Proc × Result ℕ
unfolding has_other_in at_slot
sys_setsid current table =
    let leads : Proc → Proc = λ p. record p { sid = p.pid; pgid = p.pid; ctty = none } in
    if pg_leader current || has_other_in current current.pid table
    then (table, fail perm)
    else (at_slot current.slot leads table, done current.pid)

unfoldable pub sys_getpgid : Proc → ℤ → List Proc → Result ℕ
unfolding get_proc_by_pid
sys_getpgid current pid table =
    let found : Result ℕ = elim (get_proc_by_pid (pos_part pid) table) [
      | none ↦ fail srch
      | some p ↦ done p.pgid
    ] in
    if ltb_ℤ pid (pos 0) then fail inval else if pid ==ℤ pos 0 then done current.pgid else found

unfoldable pub sys_getpgrp : Proc → ℕ
sys_getpgrp current = current.pgid

unfoldable pub sys_getsid : Proc → ℤ → List Proc → Result ℕ
unfolding get_proc_by_pid
sys_getsid current pid table =
    let found : Result ℕ = elim (get_proc_by_pid (pos_part pid) table) [
      | none ↦ fail srch
      | some p ↦ done p.sid
    ] in
    if ltb_ℤ pid (pos 0) then fail inval else if pid ==ℤ pos 0 then done current.sid else found

-- The fields of `struct inode` that the permissions read
pub record Inode : Type 0 where
  pub i_mode : ℕ
  pub i_uid : ℕ
  pub i_gid : ℕ

-- Whether the process may not do what only the owner may
unfoldable pub check_user_permission : Proc → Inode → Bool
check_user_permission current i =
    if is_superuser current then false else not (current.euid == i.i_uid)

unfoldable pub is_member : List (Option ℕ) → ℕ → Bool
is_member [] gid = false
is_member (none ∷ gs) gid = false
is_member (some g ∷ gs) gid = let later = is_member gs gid in if g == gid then true else later

-- Whether the group of the inode is none of the process, which the source returns as 1
unfoldable pub check_group : Proc → Inode → Bool
unfolding is_member
check_group current i =
    let gid : ℕ = if has_bits current.flags pf_usereal then current.gid else current.egid in
    if i.i_gid == gid then false else not (is_member current.groups i.i_gid)

abbrev pub to_exec : ℕ
to_exec = 1

-- S_IXUSR | S_IXGRP | S_IXOTH
abbrev pub any_exec : ℕ
any_exec = 73

-- Whether three bits of a mode grant all that is asked for
abbrev pub grants : ℕ → ℕ → Bool
grants bits mask = bit_and (bit_and bits 7) mask == mask

unfoldable pub check_permission : Proc → ℕ → Inode → Status
unfolding check_group
check_permission current mask i =
    let uid : ℕ = if has_bits current.flags pf_usereal then current.uid else current.euid in
    if has_bits mask to_exec && not (has_bits i.i_mode any_exec)
    then fail acces
    else if uid == 0
    then success
    else if i.i_uid == uid && grants (i.i_mode / 64) mask
    then success
    else if not (check_group current i) && grants (i.i_mode / 8) mask
    then success
    else if grants i.i_mode mask
    then success
    else fail acces
