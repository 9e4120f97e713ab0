-- ===== src/Signal/Reap.antt =====
-- kernel/syscalls/wait4.c and `remove_zombie` of kernel/process.c, as `send_sig` calls them where
-- SIGCHLD is ignored: for any child, without a status and without sleeping. The table is the list of
-- processes behind `proc_table_head`, in its order; process IDs are not 0. The sums of the times of
-- children are not modelled.
pub mod Ends
use fiwix_arm.Base.{
  Bool, List, Option, [], false, if◌then◌else◌, length, none, not, some, suc, true, zero, ℕ, ◌-◌,
  ◌==◌, ◌∷◌,
}
use fiwix_arm.Process.{Proc, is_zombie}
use fiwix_arm.Signal.{is_stopped}

-- The processes, and the number of children of the process that runs.
pub record Procs : Type 0 where
  pub table : List Proc
  pub children : ℕ

abbrev pub is_child : ℕ → Proc → Bool
is_child current p = p.ppid == current

abbrev pub reported : Proc → Proc
reported p = record p { exit_code = 0 }

-- The loop over the processes: the first child that has stopped and not been reported is reported,
-- or the first zombie removed, whichever comes first; with whether one was removed.
unfoldable pub wait_scan : ℕ → List Proc → Option (Bool × List Proc)
wait_scan current [] = none
wait_scan current (p ∷ ps) =
    let rest : Option (Bool × List Proc) = elim (wait_scan current ps) [
      | none ↦ none
      | some (removed, ps') ↦ some (removed, p ∷ ps')
    ] in
    if not (is_child current p)
    then rest
    else if is_stopped p.state
    then (if p.exit_code == 0 then rest else some (false, reported p ∷ ps))
    else if is_zombie p.state
    then some (true, ps)
    else rest

-- `sys_waitpid(-1, NULL, WNOHANG)`, which returns a process ID, or `none` for 0 and -ECHILD.
unfoldable pub sys_waitpid : ℕ → Procs → Option Procs
unfolding wait_scan
sys_waitpid current st =
    let waited : Option Procs = elim (wait_scan current st.table) [
      | none ↦ none
      | some (removed, ps) ↦
          some (record { table = ps; children = if removed then st.children - 1 else st.children })
    ] in
    if st.children == 0 then none else waited

-- The loop of `send_sig` around the call, with fuel.
unfoldable pub reap_loop : ℕ → ℕ → Procs → Procs
unfolding sys_waitpid
reap_loop zero current st = st
reap_loop (suc fuel) current st = elim (sys_waitpid current st) [
  | none ↦ st
  | some st' ↦ reap_loop fuel current st'
]

-- No process is waited for twice.
unfoldable pub reap : ℕ → Procs → Procs
unfolding reap_loop
reap current st = reap_loop (length st.table) current st
