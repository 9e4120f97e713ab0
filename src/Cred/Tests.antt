-- ===== src/Cred/Tests.antt =====
-- Runs of the identity calls on a small process.
use fiwix_arm.Base.{List, [], arith, refl, ◌∷◌, ◌≡◌, ◌≢◌}
use fiwix_arm.Cred.Confined.{Holds, calls-Within, Within, IsUnprivileged}
use fiwix_arm.Process.{Proc}
use fiwix_arm.Cred.{perm, calls, setreuid, no_id, fail, setuid, sys_setreuid, Call}
use fiwix_arm.Process.Sample.{a_root, a_user}
use fiwix_arm.Cred.Setreuid.{setreuid_no_id}

a_user-IsUnprivileged : IsUnprivileged a_user
a_user-IsUnprivileged = record { uid_set = λ e. cc; euid_set = λ e. cc; suid_set = λ e. cc }

-- A set-user-ID program of user 1000, owned by user 2000.
abbrev set_id_program : Proc
set_id_program = record a_user { euid = 2000; suid = 2000 }

abbrev tries : List Call
tries = setuid 0 ∷ setreuid 0 0 ∷ setreuid 1000 1000 ∷ setuid 0 ∷ []

calls-Within_example : Within a_user (calls a_user tries) × IsUnprivileged (calls a_user tries)
calls-Within_example = calls-Within tries a_user a_user-IsUnprivileged

setreuid_no_id_example :
    (sys_setreuid set_id_program 1000 no_id ≡ (set_id_program, fail perm))
    × ((sys_setreuid set_id_program no_id 1000).1 ≡ fail perm)
    × (1000 ≢ no_id
        → Holds set_id_program 1000
        → (sys_setreuid set_id_program no_id 1000).0.euid ≡ 1000)
setreuid_no_id_example = setreuid_no_id set_id_program 1000 (omega arith)

-- The superuser can become anyone.
root_setreuid : (sys_setreuid a_root 5 6).0.euid ≡ 6
unfolding sys_setreuid
root_setreuid = refl
