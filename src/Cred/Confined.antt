-- ===== src/Cred/Confined.antt =====
-- A process without privilege keeps to the identities that it holds.
use fiwix_arm.Base.{ℕ, ◌≡◌, ◌≢◌, refl, ◌⊎◌, inl, inr, List, [], ◌∷◌, arith}
use fiwix_arm.Base.Errno.{success}
use fiwix_arm.Process.{Proc}
use fiwix_arm.Cred.{
  sys_setuid, sys_setgid, sys_setreuid, sys_setregid, Call, setuid, setgid, setreuid, setregid,
  call, calls,
}

-- `x` is one of the three user IDs of `p`.
abbrev pub Holds : Proc → ℕ → Type 0
Holds p x = (x ≡ p.uid) ⊎ ((x ≡ p.euid) ⊎ (x ≡ p.suid))

-- `x` is one of the three group IDs of `p`.
abbrev pub HoldsGroup : Proc → ℕ → Type 0
HoldsGroup p x = (x ≡ p.gid) ⊎ ((x ≡ p.egid) ⊎ (x ≡ p.sgid))

-- The user IDs of `q` are among those of `p`.
pub record Within (p q : Proc) : Type 0 where
  pub uid_held : Holds p q.uid
  pub euid_held : Holds p q.euid
  pub suid_held : Holds p q.suid

-- None of the user IDs is 0.
pub record IsUnprivileged (p : Proc) : Type 0 where
  pub uid_set : p.uid ≢ 0
  pub euid_set : p.euid ≢ 0
  pub suid_set : p.suid ≢ 0

pub Within-refl : (p : Proc) → Within p p
Within-refl p = record {
  uid_held = inl refl;
  euid_held = inr (inl refl);
  suid_held = inr (inr refl);
}

Holds-trans : (p q : Proc) (x : ℕ) → Within p q → Holds q x → Holds p x
Holds-trans p q x w h = ground arith

pub Within-trans : (p q r : Proc) → Within p q → Within q r → Within p r
Within-trans p q r w v = record {
  uid_held = Holds-trans p q r.uid w v.uid_held;
  euid_held = Holds-trans p q r.euid w v.euid_held;
  suid_held = Holds-trans p q r.suid w v.suid_held;
}

pub call-Within : (p : Proc) (c : Call) → p.euid ≢ 0 → Within p (call p c)
unfolding call sys_setuid sys_setgid sys_setreuid sys_setregid
call-Within p (setuid u) h = ground arith
call-Within p (setgid g) h = ground arith
call-Within p (setreuid r e) h = ground arith
call-Within p (setregid r e) h = ground arith

call-IsUnprivileged : (p : Proc) (c : Call) → IsUnprivileged p → IsUnprivileged (call p c)
call-IsUnprivileged p c u =
    let w = call-Within p c u.euid_set in
    record {
      uid_set = λ z. ground (arith, w.uid_held, u.uid_set);
      euid_set = λ z. ground (arith, w.euid_held, u.euid_set);
      suid_set = λ z. ground (arith, w.suid_held, u.suid_set);
    }

-- Whatever sequence of setuid, setgid, setreuid and setregid a process makes, with nothing else
-- between these calls that changes its IDs: if none of its user IDs is 0, then its user IDs stay among
-- the three that it began with, and none of them becomes 0.
pub calls-Within :
    (cs : List Call) (p : Proc)
    → IsUnprivileged p
    → Within p (calls p cs) × IsUnprivileged (calls p cs)
unfolding calls
calls-Within [] p u = (Within-refl p, u)
calls-Within (c ∷ cs) p u =
    let step = call-Within p c u.euid_set in
    let rest = calls-Within cs (call p c) (call-IsUnprivileged p c u) in
    (Within-trans p (call p c) (calls (call p c) cs) step rest.0, rest.1)

-- When the superuser sets a user ID other than 0, the call succeeds and no later sequence of these four
-- calls gives the process the user ID 0 back, as real, effective or saved ID.
pub setuid_drops_for_good :
    (p : Proc) (uid : ℕ) (cs : List Call)
    → p.euid ≡ 0
    → uid ≢ 0
    → ((sys_setuid p uid).1 ≡ success) × IsUnprivileged (calls (sys_setuid p uid).0 cs)
setuid_drops_for_good p uid cs root nz =
    (dropped.0, (calls-Within cs (sys_setuid p uid).0 dropped.1).1)
  where
    dropped : ((sys_setuid p uid).1 ≡ success) × IsUnprivileged (sys_setuid p uid).0
    dropped = unfold sys_setuid in ground arith

-- One of the two calls that change the group IDs, made without privilege, leaves each group ID at
-- one of the three that the process had, and leaves the user IDs alone.
pub setgid_confined :
    (p : Proc) (c : Call) (g h : ℕ)
    → p.euid ≢ 0
    → (c ≡ setgid g) ⊎ (c ≡ setregid g h)
    → ((call p c).uid ≡ p.uid)
      × ((call p c).euid ≡ p.euid)
      × ((call p c).suid ≡ p.suid)
      × HoldsGroup p (call p c).gid
      × HoldsGroup p (call p c).egid
      × HoldsGroup p (call p c).sgid
unfolding call sys_setgid sys_setregid
setgid_confined p c g h user made = ground arith
