-- ===== src/Groups/Laws.antt =====
-- What is set can be read back, and how far a read goes.
use native.Mathlib.Decide.{dec_lt, ℕ_discrete}
use fiwix_arm.Base.{
  ap, lt→ltb, not_lt→ltb, ℕ, ◌+◌, ◌≤◌, ◌<◌, ◌≡◌, refl, Option, none, List, [], ◌∷◌, length, ltb,
  if◌then◌else◌, arith, fun_ext, ◌∙◌,
}
use fiwix_arm.Base.Errno.{done, success}
use fiwix_arm.Base.Int.{pos}
use fiwix_arm.Base.Store.{Store, update}
use fiwix_arm.Process.{Proc, ngroups_max}
use fiwix_arm.Groups.{store_groups, sys_setgroups, count_groups, copy_groups, sys_getgroups}

-- Memory whose cells from `n` up to `k` are those of `list`, and the others those of `mem`.
abbrev pub filled : ℕ → ℕ → Store ℕ → Store ℕ → Store ℕ
filled n k list mem j = if ltb j n then mem j else if ltb j k then list j else mem j

count-store_groups :
    (gs : List (Option ℕ)) (n k : ℕ) (list : Store ℕ)
    → n ≤ k
    → k ≤ n + length gs
    → count_groups (store_groups gs n (pos k) list) n ≡ k
unfolding count_groups store_groups
count-store_groups [] n k list lo hi = omega arith
count-store_groups (g ∷ gs) n k list lo hi = ground (arith, count-store_groups gs (n + 1) k list)

filled_end : (n k : ℕ) (list mem : Store ℕ) → k ≤ n → filled n k list mem ≡ mem
filled_end n k list mem h = fun_ext λ j. ground arith

filled_step :
    (n k : ℕ) (list mem : Store ℕ)
    → n < k
    → filled (n + 1) k list (update mem n (list n)) ≡ filled n k list mem
filled_step n k list mem h = fun_ext λ j. elim (dec_lt j n) [
  | yes p ↦ ground arith
  | no p ↦ elim (ℕ_discrete n j) [ yes e ↦ ground (arith, ap list e) | no ne ↦ ground arith ]
]

copy-store_groups :
    (gs : List (Option ℕ)) (n k s : ℕ) (list mem : Store ℕ)
    → n ≤ k
    → k ≤ n + length gs
    → k ≤ s + 1
    → copy_groups (store_groups gs n (pos k) list) n (pos s) mem ≡ (filled n k list mem, done k)
unfolding copy_groups store_groups
copy-store_groups [] n k s list mem lo hi fits =
    let e : n ≡ k = omega arith in rw (filled_end n k list mem (omega arith), e)
copy-store_groups (g ∷ gs) n k s list mem lo hi fits = elim (dec_lt n k) [
  | yes p ↦
      rw (lt→ltb (n + 0) (k + 0) (omega arith), not_lt→ltb (s + 0) (n + 0) (omega arith))
        (rw (← filled_step n k list mem p) (
          copy-store_groups gs (n + 1) k s list (update mem n (list n)) (omega arith) (omega arith)
            fits))
  | no p ↦
      let e : n ≡ k = omega arith in
      rw (not_lt→ltb (n + 0) (k + 0) (omega arith), filled_end n k list mem (omega arith), e)
]

setgroups_root :
    (p : Proc) (k : ℕ) (list : Store ℕ)
    → p.euid ≡ 0
    → k ≤ ngroups_max
    → sys_setgroups p none (pos k) list
      ≡ (record p { groups = store_groups p.groups 0 (pos k) list }, success)
unfolding sys_setgroups
setgroups_root p k list root small = ground arith

getgroups_read :
    (p : Proc) (k s : ℕ) (list mem : Store ℕ)
    → k ≤ length p.groups
    → k ≤ s + 1
    → 0 < s
    → sys_getgroups (record p { groups = store_groups p.groups 0 (pos k) list }) none (pos s) mem
      ≡ (filled 0 k list mem, done k)
unfolding sys_getgroups
getgroups_read p k s list mem len fits room =
    ground (arith, copy-store_groups p.groups 0 k s list mem (omega arith) (omega arith) fits)

getgroups_count :
    (p : Proc) (k : ℕ) (list mem : Store ℕ)
    → k ≤ length p.groups
    → sys_getgroups (record p { groups = store_groups p.groups 0 (pos k) list }) none (pos 0) mem
      ≡ (mem, done k)
unfolding sys_getgroups
getgroups_count p k list mem len =
    ground (arith, count-store_groups p.groups 0 k list (omega arith) (omega arith))

-- After the superuser has set `k` groups, at most 32 of them, a call with size 0 counts `k`, and
-- one with room for `s` of them, `s` at least `k` and not 0, returns `k`, copies exactly the `k`
-- groups that were set and writes nothing else.
pub getgroups-setgroups :
    (p : Proc) (k s : ℕ) (list mem : Store ℕ)
    → p.euid ≡ 0
    → length p.groups ≡ ngroups_max
    → k ≤ ngroups_max
    → k ≤ s
    → 0 < s
    → let (q, r) = sys_setgroups p none (pos k) list in
      (r ≡ success)
      × (sys_getgroups q none (pos 0) mem ≡ (mem, done k))
      × (sys_getgroups q none (pos s) mem ≡ (filled 0 k list mem, done k))
getgroups-setgroups p k s list mem root len small fits room =
    rw (setgroups_root p k list root small) (
      refl,
      getgroups_count p k list mem (omega arith),
      getgroups_read p k s list mem (omega arith) (omega arith) room,
    )

-- A call with room for `s` groups, `s` not 0, on a process whose superuser set `s + 1` of them,
-- at most 32, does not fail: it returns `s + 1` and writes one entry past the room given.
pub getgroups_overrun :
    (p : Proc) (s : ℕ) (list mem : Store ℕ)
    → p.euid ≡ 0
    → length p.groups ≡ ngroups_max
    → 0 < s
    → s < ngroups_max
    → let q = (sys_setgroups p none (pos (s + 1)) list).0 in
      ((sys_getgroups q none (pos s) mem).1 ≡ done (s + 1))
      × ((sys_getgroups q none (pos s) mem).0 s ≡ list s)
getgroups_overrun p s list mem root len room small =
    rw (setgroups_root p (s + 1) list root (omega arith))
      (ap (λ r. r.1) read, ap (λ r. r.0 s) read ∙ written)
  where
    read :
        sys_getgroups
          (record p { groups = store_groups p.groups 0 (pos (s + 1)) list })
          none
          (pos s)
          mem
        ≡ (filled 0 (s + 1) list mem, done (s + 1))
    read = getgroups_read p (s + 1) s list mem (omega arith) (omega arith) room

    written : filled 0 (s + 1) list mem s ≡ list s
    written = ground arith
