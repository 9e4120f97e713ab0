-- ===== src/Groups/Tests.antt =====
-- Runs of the group calls.
use fiwix_arm.Base.{arith, none, refl, ℕ, ◌+◌, ◌≡◌}
use fiwix_arm.Base.Store.{Store}
use fiwix_arm.Groups.{done, sys_getgroups, success, pos, sys_setgroups}
use fiwix_arm.Process.Sample.{a_root}
use fiwix_arm.Groups.Laws.{getgroups-setgroups, filled}

abbrev gids : Store ℕ
gids n = 100 + n

abbrev blank : Store ℕ
blank n = 0

getgroups-setgroups_example :
    let (q, r) = sys_setgroups a_root none (pos 3) gids in
    (r ≡ success)
    × (sys_getgroups q none (pos 0) blank ≡ (blank, done 3))
    × (sys_getgroups q none (pos 8) blank ≡ (filled 0 3 gids blank, done 3))
getgroups-setgroups_example =
    getgroups-setgroups a_root 3 8 gids blank refl refl (omega arith) (omega arith) (omega arith)
