-- ===== src/Session/Tests.antt =====
-- Runs of the calls on groups and sessions and of the permissions, and the theorem about the calls at
-- a concrete table.
use fiwix_arm.Base.{ap, List, [], arith, inl, inr, refl, sym, ◌∙◌, ◌∷◌, ◌≡◌}
use fiwix_arm.Session.{
  perm, done, fail, success, check_permission, sys_setsid, pos, Proc, sys_setpgid,
}
use fiwix_arm.Session.Groups.{AreApart, AreGrouped, IsTable, group_calls-IsTable}
use fiwix_arm.Process.Sample.{a_user}

-- A shell, which leads its session, and a child of it in a group of its own.
abbrev shell : Proc
shell = a_user

abbrev child : Proc
child = record a_user { slot = 6; ppid = 5; pid = 41; pgid = 41 }

abbrev procs : List Proc
procs = shell ∷ child ∷ []

-- The shell takes the child into its own group.
joins :
    sys_setpgid shell (pos 41) (pos 40) procs ≡ (shell ∷ record child { pgid = 40 } ∷ [], success)
unfolding sys_setpgid
joins = refl

-- A group that does not exist is made, though it does not have the number of the process.
makes_group : (sys_setpgid shell (pos 41) (pos 500) procs).1 ≡ success
unfolding sys_setpgid
makes_group = refl

-- A leader gets no session of its own; in another group the child does.
leader_refused : (sys_setsid shell procs).1 ≡ fail perm
unfolding sys_setsid
leader_refused = refl

child_leads :
    (sys_setsid (record child { pgid = 40 }) (shell ∷ record child { pgid = 40 } ∷ [])).1 ≡ done 41
unfolding sys_setsid
child_leads = refl

-- The owner of a file is refused by the bits of the owner and then let in by those of the others.
owner_let_in : check_permission a_user 4 (record { i_mode = 4; i_uid = 1000; i_gid = 7 }) ≡ success
unfolding check_permission
owner_let_in = refl

procs-IsTable : IsTable procs
procs-IsTable = (grouped, apart)
  where
    grouped : AreGrouped procs
    grouped p q (inl a) (inl b) same = ap (λ (y : Proc). y.sid) (a ∙ sym b)
    grouped p q (inl a) (inr (inl b)) same =
        ap (λ (y : Proc). y.sid) a ∙ sym (ap (λ (y : Proc). y.sid) b)
    grouped p q (inr (inl a)) (inl b) same =
        ap (λ (y : Proc). y.sid) a ∙ sym (ap (λ (y : Proc). y.sid) b)
    grouped p q (inr (inl a)) (inr (inl b)) same = ap (λ (y : Proc). y.sid) (a ∙ sym b)
    grouped p q (inr (inr a)) b same = absurd a
    grouped p q (inl a) (inr (inr b)) same = absurd b
    grouped p q (inr (inl a)) (inr (inr b)) same = absurd b

    apart : AreApart procs
    apart p q (inl a) (inl b) same = a ∙ sym b
    apart p q (inl a) (inr (inl b)) same =
        absurd (omega (arith, ap (λ (y : Proc). y.slot) a, ap (λ (y : Proc). y.slot) b, same))
    apart p q (inr (inl a)) (inl b) same =
        absurd (omega (arith, ap (λ (y : Proc). y.slot) a, ap (λ (y : Proc). y.slot) b, same))
    apart p q (inr (inl a)) (inr (inl b)) same = a ∙ sym b
    apart p q (inr (inr a)) b same = absurd a
    apart p q (inl a) (inr (inr b)) same = absurd b
    apart p q (inr (inl a)) (inr (inr b)) same = absurd b

group_calls-IsTable_example :
    IsTable (sys_setpgid child (pos 41) (pos 40) procs).0 × IsTable (sys_setsid child procs).0
group_calls-IsTable_example =
    group_calls-IsTable child (pos 41) (pos 40) procs procs-IsTable (inr (inl refl))
