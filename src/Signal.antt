-- ===== src/Signal.antt =====
-- kernel/signal.c, `can_signal` and `send_sig`, with `runnable` and `wakeup_proc` of kernel/sleep.c as
-- far as they change the state of the process. A signal set is a mask: signal `n` is bit n - 1.
pub mod Pending
pub mod Discard
pub mod Delivery
pub mod Mask
pub mod Reap
pub mod Kill
pub mod Issig
mod Tests
use fiwix_arm.Base.{
  ℕ, ◌+◌, ◌-◌, ◌≡◌, Bool, true, false, not, ◌&&◌, ◌||◌, ◌==◌, ltb, if◌then◌else◌, bit_and, bit_or,
}
use fiwix_arm.Base.Bits.{shl1, not32}
use fiwix_arm.Base.Errno.{Status, success, fail, inval}
use fiwix_arm.Base.Store.{update}
use fiwix_arm.Process.{
  Proc, State, Sigaction, running, sleeping, stopped, pf_kproc, pf_notinterrupt, init_pid, has_bits,
  is_superuser,
}

abbrev pub nsig : ℕ
nsig = 32

abbrev pub sigfpe : ℕ
sigfpe = 8

abbrev pub sigkill : ℕ
sigkill = 9

abbrev pub sigsegv : ℕ
sigsegv = 11

abbrev pub sigchld : ℕ
sigchld = 17

abbrev pub sigcont : ℕ
sigcont = 18

abbrev pub sigstop : ℕ
sigstop = 19

abbrev pub sigtstp : ℕ
sigtstp = 20

abbrev pub sigttin : ℕ
sigttin = 21

abbrev pub sigttou : ℕ
sigttou = 22

abbrev pub sigurg : ℕ
sigurg = 23

abbrev pub sigwinch : ℕ
sigwinch = 28

abbrev pub sig_dfl : ℕ
sig_dfl = 0

abbrev pub sig_ign : ℕ
sig_ign = 1

abbrev pub sig_bit : ℕ → ℕ
sig_bit signum = shl1 (signum - 1)

-- SIG_MASK
abbrev pub sig_mask : ℕ → ℕ
sig_mask signum = not32 (sig_bit signum)

-- The handler of a signal.
abbrev pub handler : Proc → ℕ → ℕ
handler p signum = (p.sigaction (signum - 1)).sa_handler

abbrev pub is_stop : ℕ → Bool
is_stop signum = signum == sigstop || signum == sigtstp || signum == sigttin || signum == sigttou

pub can_signal : Proc → Proc → Bool
can_signal current p =
    not (not (is_superuser current) && not (current.euid == p.euid) && not (current.sid == p.sid))

abbrev pub is_stopped : State → Bool
is_stopped stopped = true
is_stopped _ = false

abbrev pub is_asleep : State → Bool
is_asleep sleeping = true
is_asleep _ = false

pub runnable : Proc → Proc
runnable p = record p { state = running }

pub wakeup_proc : Proc → Proc
unfolding runnable
wakeup_proc p =
    if not (is_asleep p.state) && not (is_stopped p.state)
    then p
    else if has_bits p.flags pf_notinterrupt
    then p
    else runnable p

-- The first `switch`: a signal discards what it contradicts.
abbrev pub discard_stops : ℕ → ℕ
discard_stops pending =
    bit_and
      (bit_and (bit_and (bit_and pending (sig_mask sigstop)) (sig_mask sigtstp)) (sig_mask sigttin))
      (sig_mask sigttou)

pub discard : Proc → ℕ → Proc
unfolding runnable
discard p signum =
    if signum == sigkill || signum == sigcont
    then record (if is_stopped p.state then runnable p else p) {
      sigpending = discard_stops p.sigpending;
    }
    else if is_stop signum
    then record p { sigpending = bit_and p.sigpending (sig_mask sigcont) }
    else p

-- The second `switch`: a fault cannot be ignored.
abbrev pub default_action : Sigaction → Sigaction
default_action a = record a { sa_handler = sig_dfl }

pub force_fault : Proc → ℕ → Proc
force_fault p signum =
    if (signum == sigfpe || signum == sigsegv) && handler p signum == sig_ign
    then record p {
      sigaction = update p.sigaction (signum - 1) (default_action (p.sigaction (signum - 1)));
    }
    else p

-- Signals that SIG_DFL drops.
abbrev pub dropped_by_default : ℕ → Bool
dropped_by_default signum =
    signum == sigcont || signum == sigwinch || signum == sigchld || signum == sigurg

pub post : Proc → ℕ → Proc
unfolding wakeup_proc
post p signum =
    let q = record p {
      sigpending = bit_or p.sigpending (sig_bit signum);
      nsignals = p.nsignals + 1;
    } in
    if not (has_bits q.sigblocked (sig_bit signum)) then wakeup_proc q else q

-- What a sent signal did: the receiver, whether the loop around `sys_waitpid` is run, which reaps
-- children of the running process (Reap has it, and Kill runs it on the table), and what the call
-- returned.
pub record Sent : Type 0 where
  pub receiver : Proc
  pub reaps : Bool
  pub status : Status

abbrev pub quiet : Proc → Sent
quiet p = record { receiver = p; reaps = false; status = success }

-- The end of `send_sig`, once the receiver's other signals and handlers have been adjusted.
pub dispose : Proc → ℕ → Sent
unfolding post
dispose p signum =
    if handler p signum == sig_dfl && (p.pid == init_pid || dropped_by_default signum)
    then quiet p
    else if handler p signum == sig_ign
    then record (quiet p) { reaps = signum == sigchld }
    else quiet (post p signum)

pub send_sig : Proc → ℕ → Sent
send_sig p signum =
    if ltb nsig signum
    then record { receiver = p; reaps = false; status = fail inval }
    else if has_bits p.flags pf_kproc || signum == 0
    then quiet p
    else dispose (force_fault (discard p signum) signum) signum
