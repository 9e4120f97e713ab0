-- ===== src/Signal/Tests.antt =====
-- Runs of the signal calls.
use fiwix_arm.Base.{List, [], arith, inl, none, refl, some, suc, zero, ℕ, ◌∷◌, ◌≡◌, ◌≤◌}
use fiwix_arm.Process.{State, Proc, Sigaction}
use fiwix_arm.Signal.Discard.{send_sig-IsConsistent, IsConsistent}
use fiwix_arm.Signal.{dispose, update, force_fault, sig_bit, sigstop, discard, sigkill, send_sig}
use fiwix_arm.Base.Bits.{testbit}
use fiwix_arm.Signal.Mask.Blocked.{
  ssetmask, action, signal, mask_calls-IsKillable, mask_calls, procmask, IsKillable, MaskCall,
}
use fiwix_arm.Signal.Issig.{issig_lowest, issig, Scanned}
use fiwix_arm.Signal.Kill.{sys_kill}
use fiwix_arm.Signal.Reap.{Procs}
use fiwix_arm.Base.Errno.{success}
use fiwix_arm.Base.Int.{negsuc}
use fiwix_arm.Signal.{sigchld}
use fiwix_arm.Process.Sample.{all_default, a_root, an_init, a_user}
use fiwix_arm.Signal.Pending.{in_mask}
use fiwix_arm.Signal.Mask.{block}
use fiwix_arm.Base.Int.{pos}

-- A process with SIGSTOP pending, that catches signal 10.
abbrev catching : Sigaction
catching = record { sa_handler = 4096; sa_mask = 0; sa_flags = 0 }

abbrev a_catcher : Proc
a_catcher = record a_user {
  state = State.sleeping;
  sigpending = sig_bit sigstop;
  sigaction = update all_default 9 catching;
}

a_user-IsConsistent : IsConsistent a_user
unfolding testbit
a_user-IsConsistent s stop = inl refl

send_sig-IsConsistent_example : IsConsistent (send_sig a_user sigstop).receiver
send_sig-IsConsistent_example = send_sig-IsConsistent a_user sigstop a_user-IsConsistent

-- Killing a sleeping process wakes it with the signal pending.
kill_runs :
    let q = (send_sig a_catcher sigkill).receiver in
    (q.state ≡ State.running) × (q.sigpending ≡ sig_bit sigkill)
unfolding send_sig discard force_fault dispose
kill_runs = (refl, refl)

a_user-IsKillable : IsKillable a_user
unfolding testbit
a_user-IsKillable = record { kill_open = refl; kill_default = refl; stop_default = refl }

abbrev defences : List MaskCall
defences =
    procmask block (some 0xffff_ffff) none none
    ∷ signal sigkill 1 none
    ∷ action sigstop (some catching) none none
    ∷ ssetmask 0xffff_ffff
    ∷ []

mask_calls-IsKillable_example : IsKillable (mask_calls a_user defences)
mask_calls-IsKillable_example = mask_calls-IsKillable defences a_user a_user-IsKillable

-- Signals 2 and 10 pending, 2 blocked, both caught.
abbrev half_blocked : Proc
half_blocked = record a_user { sigpending = 0x202; sigblocked = 3; sigaction = λ n. catching }

issig_lowest_example : Scanned 1 half_blocked (issig half_blocked)
issig_lowest_example = issig_lowest half_blocked refl

low_blocked : (n : ℕ) → 1 ≤ n → n ≤ 2 → in_mask half_blocked.sigblocked n ≡ 1
unfolding testbit
low_blocked zero lo hi = absurd (omega arith)
low_blocked (suc zero) lo hi = refl
low_blocked (suc (suc zero)) lo hi = refl
low_blocked (suc (suc (suc n))) lo hi = absurd (omega arith)

-- A user that ignores SIGCHLD, with a zombie child that it may not signal, and two others.
abbrev ignoring : Sigaction
ignoring = record { sa_handler = 1; sa_mask = 0; sa_flags = 0 }

abbrev a_parent : Proc
a_parent = record a_user { sigaction = λ n. ignoring }

abbrev a_zombie : Proc
a_zombie = record a_root {
  slot = 6;
  ppid = 5;
  pid = 41;
  sid = 41;
  state = State.zombie;
  sigaction = λ n. ignoring;
}

abbrev another : Proc
another = record a_catcher { slot = 7; pid = 42 }

abbrev family : Procs
family = record { table = an_init ∷ a_parent ∷ a_zombie ∷ another ∷ []; children = 1 }

-- SIGCHLD that the parent sends to itself takes the zombie out of the table.
parent_reaps :
    sys_kill a_parent (pos 40) sigchld family
    ≡ (record { table = an_init ∷ a_parent ∷ another ∷ []; children = 0 }, success)
unfolding sys_kill fiwix_arm.Signal.can_signal send_sig dispose force_fault discard
parent_reaps = refl

-- Sent to all by a superuser, SIGCHLD reaps the zombie that it is sent to, and the process behind it
-- is not reached.
abbrev root_family : Procs
root_family = record {
  table = an_init ∷ record a_parent { euid = 0 } ∷ a_zombie ∷ another ∷ [];
  children = 1;
}

walk_ends_early : sys_kill (record a_parent { euid = 0 }) (negsuc 0) sigchld root_family ≡ (
  record { table = an_init ∷ record a_parent { euid = 0 } ∷ another ∷ []; children = 0 },
  success,
)
unfolding sys_kill fiwix_arm.Signal.can_signal send_sig dispose force_fault discard
walk_ends_early = refl
