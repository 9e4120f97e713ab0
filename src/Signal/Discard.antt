-- ===== src/Signal/Discard.antt =====
-- A stop signal and SIGCONT are never pending together.
use fiwix_arm.Base.{
  inr, inl, ◌&&◌, Bool-cases, false, bit_or, not, Bool, ℕ, ◌≡◌, true, ◌||◌, ◌==◌, if◌then◌else◌,
  arith, ◌⊎◌, bit_and,
}
use fiwix_arm.Process.{Proc, has_bits, pf_kproc, init_pid}
use fiwix_arm.Signal.{
  nsig, sig_ign, dropped_by_default, sig_dfl, sig_bit, handler, send_sig, dispose, post,
  force_fault, sigkill, sigcont, sigstop, sigtstp, sigttin, sigttou, is_stop, sig_mask,
  discard_stops, discard,
}
use fiwix_arm.Signal.Pending.{in_mask_set, in_mask, IsSignal, in_mask_clear}
use native.Mathlib.Decide.{dec_le}

abbrev pub pending : Proc → ℕ → ℕ
pending p signum = in_mask p.sigpending signum

-- While SIGCONT is pending no stop signal is.
abbrev pub IsConsistent : Proc → Type 0
IsConsistent p = (s : ℕ) → is_stop s ≡ true → pending p sigcont ≡ 0 ⊎ pending p s ≡ 0

in_mask-discard_stops :
    (m n : ℕ) → IsSignal n → in_mask (discard_stops m) n ≡ (if is_stop n then 0 else in_mask m n)
in_mask-discard_stops m n h = ground (
  arith,
  in_mask_clear
      (bit_and (bit_and (bit_and m (sig_mask sigstop)) (sig_mask sigtstp)) (sig_mask sigttin))
      sigttou n (omega arith) h,
  in_mask_clear (bit_and (bit_and m (sig_mask sigstop)) (sig_mask sigtstp)) sigttin n (omega arith)
      h,
  in_mask_clear (bit_and m (sig_mask sigstop)) sigtstp n (omega arith) h,
  in_mask_clear m sigstop n (omega arith) h,
)

-- What is pending after the first `switch` of `send_sig`.
pub pending-discard :
    (p : Proc) (signum n : ℕ)
    → IsSignal n
    → pending (discard p signum) n ≡ (
        if signum == sigkill || signum == sigcont
        then (if is_stop n then 0 else pending p n)
        else if is_stop signum
        then (if sigcont == n then 0 else pending p n)
        else pending p n)
unfolding discard
pending-discard p signum n h = ground (
  arith,
  in_mask-discard_stops p.sigpending n h,
  in_mask_clear p.sigpending sigcont n (omega arith) h,
)

stop_IsSignal : (s : ℕ) → is_stop s ≡ true → IsSignal s
stop_IsSignal s h = ground arith

-- Whether a signal that is not 0 becomes pending at a process outside the kernel.
abbrev pub is_taken : Proc → ℕ → Bool
is_taken p signum =
    not (handler p signum == sig_dfl && (p.pid == init_pid || dropped_by_default signum))
    && not (handler p signum == sig_ign)

pub pending-force_fault : (p : Proc) (signum : ℕ) → (force_fault p signum).sigpending ≡ p.sigpending
unfolding force_fault
pending-force_fault p signum = ground arith

pub sigpending-post :
    (p : Proc) (signum : ℕ) → (post p signum).sigpending ≡ bit_or p.sigpending (sig_bit signum)
unfolding post
sigpending-post p signum = ground arith

sigpending-dispose :
    (p : Proc) (signum : ℕ)
    → (dispose p signum).receiver.sigpending
      ≡ (if is_taken p signum then bit_or p.sigpending (sig_bit signum) else p.sigpending)
unfolding dispose
sigpending-dispose p signum = ground (arith, sigpending-post p signum)

-- Outside the kernel a signal from 1 to 32 runs through all three stages.
pub send_sig_stages :
    (p : Proc) (signum : ℕ)
    → has_bits p.flags pf_kproc ≡ false
    → IsSignal signum
    → send_sig p signum ≡ dispose (force_fault (discard p signum) signum) signum
unfolding send_sig
send_sig_stages p signum user h = ground arith

-- Sending a signal from 1 to 32 to a process outside the kernel: which signals are pending then.
-- The first `switch` takes its share away, and the signal itself is added exactly if the handler
-- that is then in force takes it.
pub send_sig-pending :
    (p : Proc) (signum n : ℕ)
    → has_bits p.flags pf_kproc ≡ false
    → IsSignal signum
    → IsSignal n
    → pending (send_sig p signum).receiver n ≡ (
        if is_taken (force_fault (discard p signum) signum) signum && signum == n
        then 1
        else pending (discard p signum) n)
send_sig-pending p signum n user hs hn = rw (send_sig_stages p signum user hs) (
    ground (
      arith,
      sigpending-dispose (force_fault (discard p signum) signum) signum,
      pending-force_fault (discard p signum) signum,
      in_mask_set (discard p signum).sigpending signum n hs hn,
    ))

-- `send_sig` never leaves SIGCONT and a stop signal pending together, whatever the signal number,
-- the receiver and its handlers, if they were not so before.
pub send_sig-IsConsistent :
    (p : Proc) (signum : ℕ) → IsConsistent p → IsConsistent (send_sig p signum).receiver
send_sig-IsConsistent p signum ok s stop = elim (Bool-cases (has_bits p.flags pf_kproc)) [
  | inl kernel ↦ unfold send_sig in ground (arith, ok s stop)
  | inr user ↦ elim (dec_le 1 signum) [
    | no none ↦ unfold send_sig in ground (arith, ok s stop)
    | yes some ↦ elim (dec_le signum nsig) [
      | no big ↦ unfold send_sig in ground (arith, ok s stop)
      | yes small ↦ ground (
        arith,
        ok s stop,
        send_sig-pending p signum sigcont user (some, small) (omega arith),
        send_sig-pending p signum s user (some, small) (stop_IsSignal s stop),
        pending-discard p signum sigcont (omega arith),
        pending-discard p signum s (stop_IsSignal s stop),
      )
    ]
  ]
]
