-- ===== src/Signal/Delivery.antt =====
-- Who gets a signal: the kernel's processes and INIT are protected, a handler is woken for.
use fiwix_arm.Base.{inr, ◌⊎◌, inl, Bool-cases, ◌∙◌, ◌+◌, ◌≤◌, ◌<◌, false, true, ◌≢◌, arith, ◌≡◌, ℕ}
use fiwix_arm.Signal.{
  quiet, post, sigcont, sigkill, sig_bit, sig_dfl, sig_ign, handler, dispose, force_fault, discard,
  send_sig,
}
use fiwix_arm.Process.{
  running, stopped, sleeping, pf_notinterrupt, init_pid, pf_kproc, has_bits, Proc,
}
use fiwix_arm.Signal.Pending.{in_mask_set, IsSignal}
use fiwix_arm.Signal.Discard.{
  sigpending-post, pending-discard, pending-force_fault, send_sig_stages, pending,
}

-- A process of the kernel is left as it is, whatever the signal.
pub send_sig_kernel :
    (p : Proc) (signum : ℕ) → has_bits p.flags pf_kproc ≡ true → (send_sig p signum).receiver ≡ p
unfolding send_sig
send_sig_kernel p signum kernel = ground arith

handler-discard : (p : Proc) (signum : ℕ) → handler (discard p signum) signum ≡ handler p signum
unfolding discard
handler-discard p signum = ground arith

pid-discard : (p : Proc) (signum : ℕ) → (discard p signum).pid ≡ p.pid
unfolding discard
pid-discard p signum = ground arith

pid-force_fault : (p : Proc) (signum : ℕ) → (force_fault p signum).pid ≡ p.pid
unfolding force_fault
pid-force_fault p signum = ground arith

handler-force_fault :
    (p : Proc) (signum : ℕ)
    → handler p signum ≢ sig_ign
    → handler (force_fault p signum) signum ≡ handler p signum
unfolding force_fault
handler-force_fault p signum h = ground arith

nsignals-discard : (p : Proc) (signum : ℕ) → (discard p signum).nsignals ≡ p.nsignals
unfolding discard
nsignals-discard p signum = ground arith

nsignals-force_fault : (p : Proc) (signum : ℕ) → (force_fault p signum).nsignals ≡ p.nsignals
unfolding force_fault
nsignals-force_fault p signum = ground arith

dispose_init :
    (p : Proc) (signum : ℕ)
    → p.pid ≡ init_pid
    → handler p signum ≡ sig_dfl
    → (dispose p signum).receiver ≡ p
unfolding dispose
dispose_init p signum init dfl = ground arith

-- The process INIT never gets a signal from 1 to 32 for which it has no handler: nothing becomes
-- pending at it that was not, and no delivery is counted.
pub send_sig_init :
    (p : Proc) (signum n : ℕ)
    → IsSignal signum
    → IsSignal n
    → p.pid ≡ init_pid
    → handler p signum ≡ sig_dfl
    → (pending (send_sig p signum).receiver n ≤ pending p n)
      × ((send_sig p signum).receiver.nsignals ≡ p.nsignals)
send_sig_init p signum n hs hn init dfl = elim (Bool-cases (has_bits p.flags pf_kproc)) [
  | inl kernel ↦ ground (arith, send_sig_kernel p signum kernel)
  | inr user ↦ ground (
    arith,
    send_sig_stages p signum user hs,
    dispose_init (force_fault (discard p signum) signum) signum same_pid same_handler,
    pending-force_fault (discard p signum) signum,
    pending-discard p signum n hn,
    nsignals-force_fault (discard p signum) signum,
    nsignals-discard p signum,
  )
]
  where
    same_pid : (force_fault (discard p signum) signum).pid ≡ init_pid
    same_pid = pid-force_fault (discard p signum) signum ∙ pid-discard p signum ∙ init

    same_handler : handler (force_fault (discard p signum) signum) signum ≡ sig_dfl
    same_handler =
        handler-force_fault (discard p signum) signum (λ e. cc (e, dfl, handler-discard p signum))
        ∙ handler-discard p signum
        ∙ dfl

-- What `discard` leaves alone.
kept-discard :
    (p : Proc) (signum : ℕ)
    → let q = discard p signum in
      (q.sigblocked ≡ p.sigblocked)
      × (q.flags ≡ p.flags)
      × ((q.state ≡ p.state) ⊎ ((p.state ≡ stopped) × (q.state ≡ running)))
      × (signum ≢ sigkill → signum ≢ sigcont → q.state ≡ p.state)
unfolding discard
kept-discard p signum = ground arith

nsignals-post : (p : Proc) (signum : ℕ) → (post p signum).nsignals ≡ p.nsignals + 1
unfolding post
nsignals-post p signum = ground arith

post_wakes :
    (p : Proc) (signum : ℕ)
    → has_bits p.sigblocked (sig_bit signum) ≡ false
    → has_bits p.flags pf_notinterrupt ≡ false
    → (p.state ≡ sleeping) ⊎ ((p.state ≡ stopped) ⊎ (p.state ≡ running))
    → (post p signum).state ≡ running
unfolding post
post_wakes p signum unblocked able asleep = ground arith

post_blocked :
    (p : Proc) (signum : ℕ)
    → has_bits p.sigblocked (sig_bit signum) ≡ true
    → (post p signum).state ≡ p.state
unfolding post
post_blocked p signum blocked = ground arith

dispose_caught :
    (p : Proc) (signum : ℕ) → 1 < handler p signum → dispose p signum ≡ quiet (post p signum)
unfolding dispose
dispose_caught p signum h = ground arith

force_fault_caught : (p : Proc) (signum : ℕ) → 1 < handler p signum → force_fault p signum ≡ p
unfolding force_fault
force_fault_caught p signum h = ground arith

send_sig_posts :
    (p : Proc) (signum : ℕ)
    → has_bits p.flags pf_kproc ≡ false
    → IsSignal signum
    → 1 < handler p signum
    → (send_sig p signum).receiver ≡ post (discard p signum) signum
send_sig_posts p signum user hs caught = rw (
  send_sig_stages p signum user hs,
  force_fault_caught (discard p signum) signum h,
  dispose_caught (discard p signum) signum h,
)
  where
    h : 1 < handler (discard p signum) signum
    h = omega (arith, handler-discard p signum)

-- A signal from 1 to 32, sent to a process outside the kernel that has a handler of its own for
-- it, becomes pending and is counted once. If the receiver does not block it and sleeps
-- interruptibly, or is stopped and interruptible, then it runs; if the receiver blocks the signal,
-- and the signal is neither SIGKILL nor SIGCONT, its state stays.
pub send_sig_caught :
    (p : Proc) (signum : ℕ)
    → has_bits p.flags pf_kproc ≡ false
    → IsSignal signum
    → 1 < handler p signum
    → let q = (send_sig p signum).receiver in
      (pending q signum ≡ 1)
      × (q.nsignals ≡ p.nsignals + 1)
      × (has_bits p.sigblocked (sig_bit signum) ≡ false
          → has_bits p.flags pf_notinterrupt ≡ false
          → (p.state ≡ sleeping) ⊎ (p.state ≡ stopped)
          → q.state ≡ running)
      × (has_bits p.sigblocked (sig_bit signum) ≡ true
          → signum ≢ sigkill
          → signum ≢ sigcont
          → q.state ≡ p.state)
send_sig_caught p signum user hs caught = rw (send_sig_posts p signum user hs caught) (
  ground (
    arith,
    sigpending-post (discard p signum) signum,
    in_mask_set (discard p signum).sigpending signum signum hs hs,
  ),
  ground (arith, nsignals-post (discard p signum) signum, nsignals-discard p signum),
  λ open_ able asleep.
      post_wakes (discard p signum) signum (ground (arith, kept-discard p signum))
        (ground (arith, kept-discard p signum)) (ground (arith, kept-discard p signum)),
  λ blocked nk nc. ground (arith, post_blocked (discard p signum) signum, kept-discard p signum),
)
