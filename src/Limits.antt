-- ===== src/Limits.antt =====
-- kernel/syscalls/setrlimit.c and getrlimit.c: the limits of a process. An int is its 32-bit pattern,
-- compared by its value moved by 2^31.
pub mod Lower
mod Tests
use fiwix_arm.Base.{Bool, Option, if◌then◌else◌, leb, ltb, none, not, some, ℕ, ◌&&◌, ◌+◌, ◌^◌}
use fiwix_arm.Base.Store.{Store, update}
use fiwix_arm.Base.Bits.{u32}
use fiwix_arm.Base.Errno.{Errno, Status, success, fail, inval, perm}

abbrev pub rlim_nlimits : ℕ
rlim_nlimits = 10

pub record Rlimit : Type 0 where
  pub rlim_cur : ℕ
  pub rlim_max : ℕ

-- The value of an int, moved by 2^31
abbrev pub moved : ℕ → ℕ
moved n = u32 (n + 2 ^ 31)

-- `area` is what `check_user_area` answers.
unfoldable pub sys_setrlimit :
    Bool → ℕ → Rlimit → Option Errno → Store Rlimit → Store Rlimit × Status
sys_setrlimit is_superuser resource new (some e) rlim = (rlim, fail e)
sys_setrlimit is_superuser resource new none rlim =
    if leb rlim_nlimits resource
    then (rlim, fail inval)
    else if ltb (moved new.rlim_max) (moved new.rlim_cur)
    then (rlim, fail inval)
    else if not is_superuser && ltb (moved (rlim resource).rlim_max) (moved new.rlim_max)
    then (rlim, fail perm)
    else (update rlim resource new, success)

unfoldable pub sys_getrlimit : ℕ → Option Errno → Store Rlimit → Option Rlimit × Status
sys_getrlimit resource (some e) rlim = (none, fail e)
sys_getrlimit resource none rlim =
    if leb rlim_nlimits resource then (none, fail inval) else (some (rlim resource), success)
