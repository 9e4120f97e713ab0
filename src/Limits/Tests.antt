-- ===== src/Limits/Tests.antt =====
-- Runs of the calls on limits, and the theorems about them at concrete limits.
use fiwix_arm.Base.{List, [], arith, false, none, refl, true, ℕ, ◌∷◌, ◌≡◌}
use fiwix_arm.Base.Store.{Store}
use fiwix_arm.Base.Errno.{fail, inval, perm}
use fiwix_arm.Limits.{Rlimit, sys_setrlimit, sys_getrlimit}
use fiwix_arm.Limits.Lower.{after_calls, after_calls-AreLower, AreLimited, AreLower, Call}

-- RLIMIT_NOFILE
abbrev files : ℕ
files = 7

abbrev limit : ℕ → ℕ → Rlimit
limit cur max_ = record { rlim_cur = cur; rlim_max = max_ }

abbrev limits : Store Rlimit
limits r = limit 256 1024

-- A soft limit above the hard one is refused to every process.
soft_above_hard : (sys_setrlimit true files (limit 20 10) none limits).1 ≡ fail inval
unfolding sys_setrlimit
soft_above_hard = refl

-- -1 as a hard limit is below every soft limit that is not negative.
minus_one : (sys_setrlimit true files (limit 0 4294967295) none limits).1 ≡ fail inval
unfolding sys_setrlimit
minus_one = refl

raise_refused : (sys_setrlimit false files (limit 20 2000) none limits).1 ≡ fail perm
unfolding sys_setrlimit
raise_refused = refl

-- -1 as a resource
no_resource : sys_getrlimit 4294967295 none limits ≡ (none, fail inval)
unfolding sys_getrlimit
no_resource = refl

-- The process lowers a hard limit, tries to raise it again and is refused.
abbrev calls : List Call
calls = (files, limit 100 100, none) ∷ (files, limit 100 1024, none) ∷ []

after_calls-AreLower_example :
    AreLimited (after_calls calls limits) × AreLower limits (after_calls calls limits)
after_calls-AreLower_example = after_calls-AreLower calls limits (λ r. omega arith)
