-- ===== src/Groups.antt =====
-- kernel/syscalls/setgroups.c and getgroups.c: the supplementary groups of a process.
-- The answer of `check_user_area` on the user's list is an argument, `none` where the area is good,
-- and the list itself is memory from the address that the user gave.
pub mod Laws
mod Tests
use fiwix_arm.Base.{
  ℕ, Bool, false, ◌+◌, Option, none, some, List, [], ◌∷◌, ◌==◌, if◌then◌else◌, not,
}
use fiwix_arm.Base.Errno.{Errno, Result, done, fail, Status, success, perm, inval}
use fiwix_arm.Base.Int.{ℤ, pos, negsuc, ltb_ℤ}
use fiwix_arm.Base.Store.{Store, update}
use fiwix_arm.Process.{Proc, is_superuser, ngroups_max}

-- The loop of `sys_setgroups`, from entry `n` on.
pub store_groups : List (Option ℕ) → ℕ → ℤ → Store ℕ → List (Option ℕ)
store_groups [] n size list = []
store_groups (_ ∷ gs) n size list =
    (if ltb_ℤ (pos n) size then some (list n) else none) ∷ store_groups gs (n + 1) size list

pub sys_setgroups : Proc → Option Errno → ℤ → Store ℕ → Proc × Status
sys_setgroups current (some e) size list = (current, fail e)
sys_setgroups current none size list =
    if not (is_superuser current)
    then (current, fail perm)
    else if ltb_ℤ (pos ngroups_max) size
    then (current, fail inval)
    else (record current { groups = store_groups current.groups 0 size list }, success)

-- The loop that counts the entries before the first -1.
pub count_groups : List (Option ℕ) → ℕ → ℕ
count_groups [] n = n
count_groups (none ∷ gs) n = n
count_groups (some g ∷ gs) n = count_groups gs (n + 1)

-- The loop that copies them out, with the user's memory.
pub copy_groups : List (Option ℕ) → ℕ → ℤ → Store ℕ → Store ℕ × Result ℕ
copy_groups [] n size list = (list, done n)
copy_groups (none ∷ gs) n size list = (list, done n)
copy_groups (some g ∷ gs) n size list =
    if ltb_ℤ size (pos n) then (list, fail inval) else copy_groups gs (n + 1) size (update list n g)

-- The test `!size`
abbrev pub is_zero : ℤ → Bool
is_zero (pos n) = n == 0
is_zero (negsuc n) = false

-- The copying call, once the area has been checked.
pub copy_out : Proc → Option Errno → ℤ → Store ℕ → Store ℕ × Result ℕ
copy_out current (some e) size list = (list, fail e)
copy_out current none size list = copy_groups current.groups 0 size list

pub sys_getgroups : Proc → Option Errno → ℤ → Store ℕ → Store ℕ × Result ℕ
unfolding copy_out
sys_getgroups current area size list =
    if is_zero size
    then (list, done (count_groups current.groups 0))
    else copy_out current area size list
