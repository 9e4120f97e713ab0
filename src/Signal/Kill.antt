-- ===== src/Signal/Kill.antt =====
-- kernel/signal.c, `kill_pid` and `kill_pgrp`, and kernel/syscalls/kill.c. A loop goes through the
-- slots that the table has when it begins: a signal adds no process, and one that has been removed
-- is passed over, so the next slot that is left is what `p->next` points to.
pub mod Changes
pub mod Reach
use fiwix_arm.Base.{
  Bool, List, Option, [], false, if◌then◌else◌, ltb, map, none, not, some, true, ℕ, ◌&&◌, ◌+◌, ◌==◌,
  ◌||◌, ◌∷◌,
}
use fiwix_arm.Process.{init_pid, Proc, is_zombie}
use fiwix_arm.Signal.{nsig, send_sig, success, fail, can_signal, Status}
use fiwix_arm.Signal.Reap.{Procs, reap}
use fiwix_arm.Base.Int.{pos, negsuc, ℤ}
use fiwix_arm.Base.Errno.{inval, perm, srch}

-- KERNEL or USER
pub data Sender : Type 0 where
  kernel user : Sender

-- The sender may signal `p`.
abbrev pub allows : Sender → Proc → Proc → Bool
allows kernel current p = true
allows user current p = can_signal current p

-- The process of a slot.
abbrev pub proc_in : ℕ → List Proc → Option Proc
proc_in slot [] = none
proc_in slot (p ∷ ps) = if p.slot == slot then some p else proc_in slot ps

abbrev pub set_proc : ℕ → Proc → List Proc → List Proc
set_proc slot q [] = []
set_proc slot q (p ∷ ps) = if p.slot == slot then q ∷ ps else p ∷ set_proc slot q ps

abbrev pub slots : List Proc → List ℕ
slots ps = map (λ (p : Proc). p.slot) ps

-- What `send_sig` does to the process `p` of the table, the reaping of children included.
unfoldable pub post_to : Proc → ℕ → Proc → ℕ → Procs → Procs
unfolding reap
post_to current slot p signum st =
    let sent = send_sig p signum in
    let st' = record st { table = set_proc slot sent.receiver st.table } in
    if sent.reaps then reap current.slot st' else st'

-- The slot of the process that `kill_pid` looks for.
abbrev pub find_pid : ℕ → List Proc → Option ℕ
find_pid pid [] = none
find_pid pid (p ∷ ps) =
    let rest = find_pid pid ps in
    if p.pid == pid && not (is_zombie p.state) then some p.slot else rest

-- What `kill_pid` does with the process that it has found.
unfoldable pub kill_found : Proc → ℕ → Sender → ℕ → Proc → Procs → Procs × Status
unfolding post_to
kill_found current signum sender slot p st =
    let sent = send_sig p signum in
    if allows sender current p
    then (post_to current slot p signum st, sent.status)
    else (st, fail perm)

unfoldable pub kill_pid : Proc → ℕ → ℕ → Sender → Procs → Procs × Status
unfolding kill_found
kill_pid current pid signum sender st = elim (find_pid pid st.table) [
  | none ↦ (st, fail srch)
  | some slot ↦ elim (proc_in slot st.table) [
    | none ↦ (st, fail srch)
    | some p ↦ kill_found current signum sender slot p st
  ]
]

-- A process that `kill_pgrp` signals.
abbrev pub in_group : Proc → ℕ → Sender → Proc → Bool
in_group current pgid sender p =
    p.pgid == pgid && not (is_zombie p.state) && allows sender current p

-- The loop of `kill_pgrp`; `found` as it stands before the slot.
unfoldable pub kill_group : Proc → ℕ → ℕ → Sender → Bool → List ℕ → Procs → Procs × Status
unfolding post_to
kill_group current pgid signum sender found [] st = (st, (if found then success else fail srch))
kill_group current pgid signum sender found (slot ∷ rest) st =
    let miss = kill_group current pgid signum sender found rest st in
    elim (proc_in slot st.table) [
      | none ↦ miss
      | some p ↦
          let hit =
            kill_group current pgid signum sender true rest (post_to current slot p signum st) in
          if in_group current pgid sender p then hit else miss
    ]

unfoldable pub kill_pgrp : Proc → ℕ → ℕ → Sender → Procs → Procs × Status
unfolding kill_group
kill_pgrp current pgid signum sender st =
    kill_group current pgid signum sender false (slots st.table) st

-- A process that `kill(-1)` passes over.
abbrev pub is_spared : Proc → Proc → Bool
is_spared current p = p.pid == init_pid || p.slot == current.slot || not (can_signal current p)

-- The loop of `sys_kill` for the process ID -1. It does not pass over zombies: where the signal reaps
-- the very zombie that it is sent to, `p->next` leads into the chain of free slots, whose fields are
-- 0; SIGCHLD does nothing to these, so the loop ends with what there is, and has counted the zombie.
unfoldable pub kill_all : Proc → ℕ → ℕ → List ℕ → Procs → Procs × Status
unfolding post_to
kill_all current signum counted [] st = (st, (if counted == 0 then fail srch else success))
kill_all current signum counted (slot ∷ rest) st =
    let miss = kill_all current signum counted rest st in
    elim (proc_in slot st.table) [
      | none ↦ miss
      | some p ↦
          let st' = post_to current slot p signum st in
          let hit = kill_all current signum (counted + 1) rest st' in
          let signalled : Procs × Status = elim (proc_in slot st'.table) [
            | none ↦ (st', success)
            | some _ ↦ hit
          ] in
          if is_spared current p then miss else signalled
    ]

unfoldable pub sys_kill : Proc → ℤ → ℕ → Procs → Procs × Status
unfolding kill_all kill_pgrp kill_pid
sys_kill current (negsuc n) signum st =
    let all = kill_all current signum 0 (slots st.table) st in
    let group = kill_pgrp current (n + 1) signum user st in
    if ltb nsig signum then (st, fail inval) else if n == 0 then all else group
sys_kill current (pos n) signum st =
    let group = kill_pgrp current current.pgid signum user st in
    let one = kill_pid current n signum user st in
    if ltb nsig signum then (st, fail inval) else if n == 0 then group else one
