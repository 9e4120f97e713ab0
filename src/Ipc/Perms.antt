-- ===== src/Ipc/Perms.antt =====
-- Who may use an IPC object.
use fiwix_arm.Base.{arith, bit_and, false, not, refl, true, ℕ, ◌==◌, ◌≡◌, ◌≢◌}
use fiwix_arm.Ipc.{ipc_r, IpcPerm, Proc, ipc_has_perms}

-- An object with mode 0600 whose owner is not its creator: a process of the owner, without
-- privilege and in another group, may not read it.
pub owner_denied :
    (current : Proc) (perm : IpcPerm)
    → current.euid ≢ 0
    → current.euid ≡ perm.uid
    → perm.cuid ≢ perm.uid
    → current.egid ≢ perm.gid
    → perm.mode ≡ 384
    → ipc_has_perms current perm ipc_r ≡ false
unfolding ipc_has_perms
owner_denied current perm user owner creator group mode = rw mode (ground arith)

-- A process without privilege that is both owner and creator may read an object if the object's
-- mode has the owner's read bit, and may not if it has not; the creator in the group of the
-- object, and nobody else, goes by the other bits.
pub owner_reads :
    (current : Proc) (perm : IpcPerm)
    → current.euid ≢ 0
    → current.euid ≡ perm.uid
    → current.euid ≡ perm.cuid
    → ipc_has_perms current perm ipc_r ≡ not (bit_and perm.mode ipc_r == 0)
unfolding ipc_has_perms
owner_reads current perm user owner creator = ground arith

pub ipc_has_perms_root :
    (current : Proc) (perm : IpcPerm) (mode : ℕ)
    → current.euid ≡ 0
    → ipc_has_perms current perm mode ≡ true
unfolding ipc_has_perms
ipc_has_perms_root current perm mode root = rw root refl
