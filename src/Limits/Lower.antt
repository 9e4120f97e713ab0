-- ===== src/Limits/Lower.antt =====
-- What the calls on limits can do.
use fiwix_arm.Base.{
  ==_iff, Bool, List, Option, [], ap, arith, differs, false, if-cases, inl, inr, leb, ltb, none,
  not, not_le→leb, not_lt→ltb, refl, some, true, ℕ, ◌&&◌, ◌<◌, ◌==◌, ◌∷◌, ◌≡◌, ◌≢◌, ◌≤◌, ◌⊎◌,
}
use fiwix_arm.Base.Store.{update_ne, update_self, Store, update}
use fiwix_arm.Base.Errno.{Errno, Status, success, fail, inval}
use fiwix_arm.Limits.{Rlimit, moved, sys_setrlimit, sys_getrlimit, rlim_nlimits}

-- The soft limit of every resource is at most its hard limit.
abbrev pub AreLimited : Store Rlimit → Type 0
AreLimited rlim = (r : ℕ) → moved (rlim r).rlim_cur ≤ moved (rlim r).rlim_max

-- No hard limit is above what it was.
abbrev pub AreLower : Store Rlimit → Store Rlimit → Type 0
AreLower old new = (r : ℕ) → moved (new r).rlim_max ≤ moved (old r).rlim_max

-- A call of an ordinary process: the resource, the limits and the answer of `check_user_area`.
abbrev pub Call : Type 0
Call = ℕ × Rlimit × Option Errno

abbrev pub after_calls : List Call → Store Rlimit → Store Rlimit
after_calls [] rlim = rlim
after_calls ((resource, new, area) ∷ cs) rlim =
    after_calls cs (sys_setrlimit false resource new area rlim).0

-- Both, of the limits that a call leaves
abbrev IsLower : Store Rlimit → Store Rlimit × Status → Type 0
IsLower rlim r = AreLimited r.0 × AreLower rlim r.0

not_ltb : (a b : ℕ) → ltb a b ≡ false → b ≤ a
not_ltb a b e = ground (arith, e)

update-IsLower :
    (resource : ℕ) (new : Rlimit) (rlim : Store Rlimit)
    → AreLimited rlim
    → moved new.rlim_cur ≤ moved new.rlim_max
    → moved new.rlim_max ≤ moved (rlim resource).rlim_max
    → IsLower rlim (update rlim resource new, success)
update-IsLower resource new rlim ok le lower = (
  λ r.
      if-cases (λ (x : Rlimit). moved x.rlim_cur ≤ moved x.rlim_max) (resource == r) (λ e. le)
        (λ e. ok r),
  λ r.
      if-cases (λ (x : Rlimit). moved x.rlim_max ≤ moved (rlim r).rlim_max) (resource == r)
        (λ e.
          let same = ap (λ (n : ℕ). moved (rlim n).rlim_max) ((==_iff resource r).0 e) in
          omega (arith, lower, same))
        (λ e. omega arith),
)

call-IsLower :
    (resource : ℕ) (new : Rlimit) (area : Option Errno) (rlim : Store Rlimit)
    → AreLimited rlim
    → IsLower rlim (sys_setrlimit false resource new area rlim)
unfolding sys_setrlimit
call-IsLower resource new (some e) rlim ok = (ok, λ r. omega arith)
call-IsLower resource new none rlim ok =
    let kept : IsLower rlim (rlim, fail inval) = (ok, λ r. omega arith) in
    if-cases (IsLower rlim) (leb rlim_nlimits resource) (λ e. kept)
      (λ e.
        if-cases (IsLower rlim) (ltb (moved new.rlim_max) (moved new.rlim_cur)) (λ e. kept)
          (λ e.
            if-cases (IsLower rlim) (ltb (moved (rlim resource).rlim_max) (moved new.rlim_max))
              (λ f. kept)
              (λ f. update-IsLower resource new rlim ok (not_ltb _ _ e) (not_ltb _ _ f))))

-- Whatever calls of setrlimit a process without privilege makes: where every soft limit is at most the
-- hard one, it stays so, and no hard limit is raised.
pub after_calls-AreLower :
    (cs : List Call) (rlim : Store Rlimit)
    → AreLimited rlim
    → AreLimited (after_calls cs rlim) × AreLower rlim (after_calls cs rlim)
after_calls-AreLower [] rlim ok = (ok, λ r. omega arith)
after_calls-AreLower ((resource, new, area) ∷ cs) rlim ok =
    let (ok', lower) = call-IsLower resource new area rlim ok in
    let (ok'', lower') =
      after_calls-AreLower cs (sys_setrlimit false resource new area rlim).0 ok' in
    (ok'', λ r. omega (arith, lower r, lower' r))

is_allowed :
    (is_superuser : Bool) (old new : ℕ)
    → (is_superuser ≡ true) ⊎ (new ≤ old)
    → not is_superuser && ltb old new ≡ false
is_allowed true old new h = refl
is_allowed false old new (inl e) = absurd (differs e refl)
is_allowed false old new (inr le) = not_lt→ltb old new le

sys_setrlimit_allowed :
    (is_superuser : Bool) (resource : ℕ) (new : Rlimit) (rlim : Store Rlimit)
    → resource < rlim_nlimits
    → moved new.rlim_cur ≤ moved new.rlim_max
    → (is_superuser ≡ true) ⊎ (moved new.rlim_max ≤ moved (rlim resource).rlim_max)
    → sys_setrlimit is_superuser resource new none rlim ≡ (update rlim resource new, success)
unfolding sys_setrlimit
sys_setrlimit_allowed is_superuser resource new rlim lt le allowed =
    rw (not_le→leb rlim_nlimits resource lt) (
      rw (not_lt→ltb (moved new.rlim_max) (moved new.rlim_cur) le) (
        rw (is_allowed is_superuser (moved (rlim resource).rlim_max) (moved new.rlim_max) allowed)
          refl))

-- After a setrlimit that is allowed, getrlimit shows the new limits for this resource, and what it
-- showed before for every other.
pub getrlimit-setrlimit :
    (is_superuser : Bool) (resource other : ℕ) (new : Rlimit) (rlim : Store Rlimit)
    → resource < rlim_nlimits
    → moved new.rlim_cur ≤ moved new.rlim_max
    → (is_superuser ≡ true) ⊎ (moved new.rlim_max ≤ moved (rlim resource).rlim_max)
    → resource ≢ other
    → let (rlim', status) = sys_setrlimit is_superuser resource new none rlim in
      (status ≡ success)
      × (sys_getrlimit resource none rlim' ≡ (some new, success))
      × (sys_getrlimit other none rlim' ≡ sys_getrlimit other none rlim)
unfolding sys_getrlimit
getrlimit-setrlimit is_superuser resource other new rlim lt le allowed ne =
    rw (sys_setrlimit_allowed is_superuser resource new rlim lt le allowed) (
      refl,
      rw (not_le→leb rlim_nlimits resource lt)
          (ap (λ (r : Rlimit). (some r, success)) (update_self rlim resource new)),
      rw (update_ne rlim resource other new ne) refl,
    )
