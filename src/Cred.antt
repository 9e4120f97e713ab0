-- ===== src/Cred.antt =====
-- kernel/syscalls/setuid.c, setgid.c, setreuid.c, setregid.c and umask.c: the calls by which a
-- process changes its own identity. Each takes the process that runs and returns it changed.
pub mod Confined
pub mod Setreuid
mod Tests
use fiwix_arm.Base.{ℕ, Bool, ◌&&◌, ◌||◌, not, ◌==◌, if◌then◌else◌, bit_and, List, [], ◌∷◌}
use fiwix_arm.Base.Errno.{Status, success, fail, perm}
use fiwix_arm.Process.{Proc, is_superuser}

-- `(__uid_t)-1`: an ID is an unsigned short.
abbrev pub no_id : ℕ
no_id = 0xffff

pub sys_setuid : Proc → ℕ → Proc × Status
sys_setuid current uid =
    if is_superuser current
    then (record current { uid = uid; suid = uid; euid = uid }, success)
    else if not (current.uid == uid) && not (current.suid == uid)
    then (current, fail perm)
    else (record current { euid = uid }, success)

pub sys_setgid : Proc → ℕ → Proc × Status
sys_setgid current gid =
    if is_superuser current
    then (record current { gid = gid; egid = gid; sgid = gid }, success)
    else if current.gid == gid || current.sgid == gid
    then (record current { egid = gid }, success)
    else (current, fail perm)

-- The block that both branches of `sys_setreuid` share; `current->euid >= 0` always holds, the
-- field being unsigned.
pub set_euid : Proc → ℕ → ℕ → Proc
set_euid current uid euid =
    if not (uid == no_id) || not (current.uid == euid)
    then record current { suid = euid; euid = euid }
    else record current { euid = euid }

pub setreuid_root : Proc → ℕ → ℕ → Proc
unfolding set_euid
setreuid_root current uid euid =
    let c = if euid == no_id then current else set_euid current uid euid in
    if uid == no_id then c else record c { uid = uid }

-- Without privilege the second test comes after `euid` is stored.
pub setreuid_user : Proc → ℕ → ℕ → Proc × Status
unfolding set_euid
setreuid_user current uid euid =
    if not (euid == no_id) && (current.uid == euid || current.euid == euid || current.suid == euid)
    then (let c = set_euid current uid euid in
        if not (uid == no_id) && (c.uid == uid || c.euid == uid)
        then (record c { uid = uid }, success)
        else (c, fail perm))
    else (current, fail perm)

pub sys_setreuid : Proc → ℕ → ℕ → Proc × Status
unfolding setreuid_root setreuid_user
sys_setreuid current uid euid =
    if is_superuser current
    then (setreuid_root current uid euid, success)
    else setreuid_user current uid euid

pub set_egid : Proc → ℕ → ℕ → Proc
set_egid current gid egid =
    if not (gid == no_id) || not (current.gid == egid)
    then record current { sgid = egid; egid = egid }
    else record current { egid = egid }

pub setregid_root : Proc → ℕ → ℕ → Proc
unfolding set_egid
setregid_root current gid egid =
    let c = if egid == no_id then current else set_egid current gid egid in
    if gid == no_id then c else record c { gid = gid }

pub setregid_user : Proc → ℕ → ℕ → Proc × Status
unfolding set_egid
setregid_user current gid egid =
    if not (egid == no_id) && (current.gid == egid || current.egid == egid || current.sgid == egid)
    then (let c = set_egid current gid egid in
        if not (gid == no_id) && (c.gid == gid || c.egid == gid)
        then (record c { gid = gid }, success)
        else (c, fail perm))
    else (current, fail perm)

pub sys_setregid : Proc → ℕ → ℕ → Proc × Status
unfolding setregid_root setregid_user
sys_setregid current gid egid =
    if is_superuser current
    then (setregid_root current gid egid, success)
    else setregid_user current gid egid

-- The new process and the mask that it had.
pub sys_umask : Proc → ℕ → Proc × ℕ
sys_umask current mask = (record current { umask = bit_and mask 0x1ff }, current.umask)

-- A process's calls, in the order in which it makes them.
pub data Call : Type 0 where
  setuid : ℕ → Call
  setgid : ℕ → Call
  setreuid : ℕ → ℕ → Call
  setregid : ℕ → ℕ → Call

pub call : Proc → Call → Proc
call p (setuid u) = (sys_setuid p u).0
call p (setgid g) = (sys_setgid p g).0
call p (setreuid r e) = (sys_setreuid p r e).0
call p (setregid r e) = (sys_setregid p r e).0

pub calls : Proc → List Call → Proc
calls p [] = p
calls p (c ∷ cs) = calls (call p c) cs
