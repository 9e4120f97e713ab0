-- ===== src/Cred/Setreuid.antt =====
-- What `sys_setreuid` does to a process without privilege, on every branch.
use fiwix_arm.Base.{ℕ, ◌≡◌, ◌≢◌, ◌⊎◌, arith}
use fiwix_arm.Base.Errno.{success, fail, perm}
use fiwix_arm.Process.{Proc}
use fiwix_arm.Cred.{sys_setreuid, no_id}
use fiwix_arm.Cred.Confined.{Holds}

-- A process without privilege that names two IDs, the effective one among its three and the real one
-- equal to its real ID or to the new effective one, succeeds: both are set, and the new effective
-- ID is saved as well.
pub setreuid_success :
    (p : Proc) (uid euid : ℕ)
    → p.euid ≢ 0
    → uid ≢ no_id
    → euid ≢ no_id
    → Holds p euid
    → (uid ≡ p.uid) ⊎ (uid ≡ euid)
    → sys_setreuid p uid euid ≡ (record p { uid = uid; euid = euid; suid = euid }, success)
unfolding sys_setreuid
setreuid_success p uid euid user nu ne held real = ground arith

-- The usual swap of real and effective ID, asked for by a process without privilege whose two IDs
-- differ, fails with EPERM, and yet the effective and the saved ID are overwritten.
pub setreuid_swap_lost :
    (p : Proc)
    → p.euid ≢ 0
    → p.uid ≢ p.euid
    → p.uid ≢ no_id
    → p.euid ≢ no_id
    → sys_setreuid p p.euid p.uid ≡ (record p { euid = p.uid; suid = p.uid }, fail perm)
unfolding sys_setreuid
setreuid_swap_lost p user differ nu ne = ground arith

-- A process without privilege that leaves one ID alone, by passing -1 for it, always gets EPERM;
-- with -1 for the real ID and a held effective ID the effective ID is set all the same.
pub setreuid_no_id :
    (p : Proc) (x : ℕ)
    → p.euid ≢ 0
    → (sys_setreuid p x no_id ≡ (p, fail perm))
      × ((sys_setreuid p no_id x).1 ≡ fail perm)
      × (x ≢ no_id → Holds p x → (sys_setreuid p no_id x).0.euid ≡ x)
unfolding sys_setreuid
setreuid_no_id p x user = (ground arith, ground arith, λ nx held. ground arith)
