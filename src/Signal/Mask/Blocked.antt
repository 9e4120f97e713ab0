-- ===== src/Signal/Mask/Blocked.antt =====
-- What a process can block: each call by signal number, and SIGKILL never.
use fiwix_arm.Base.{
  List, Option, [], arith, bit_and, if◌then◌else◌, max, none, refl, set, some, true, ℕ, ◌-◌, ◌<◌,
  ◌==◌, ◌^◌, ◌∷◌, ◌≡◌,
}
use fiwix_arm.Signal.Pending.{bit-sig_bit, in_mask_set, in_mask, IsSignal}
use fiwix_arm.Signal.Mask.{
  sa_resethand, handler_area, install, store_old, sys_signal, is_settable, sigstop, sys_sigaction,
  Errno, sig_mask, apply_set, Sigaction, sig_dfl, sys_ssetmask, set_action, handler,
  sys_sigprocmask, How, not32, setmask, unblock, block, sigkill, sig_blockable, Proc, change_mask,
}
use fiwix_arm.Base.Bits.{
  bit_and-le_right, testbit-not32, testbit-le, testbit-bit_or, testbit-bit_and,
}
use fiwix_arm.Signal.{success, sig_bit}

blockable : (n : ℕ) → IsSignal n → in_mask sig_blockable n ≡ (if n == sigkill then 0 else 1)
blockable n h = ground (
  arith,
  in_mask_set (sig_mask sigkill) sigstop n (omega arith) h,
  testbit-not32 (n - 1) (sig_bit sigkill) (omega arith) (omega arith),
  bit-sig_bit sigkill n (omega arith) h,
)

in_mask-asked :
    (set n : ℕ)
    → IsSignal n
    → in_mask (bit_and set sig_blockable) n ≡ (if n == sigkill then 0 else in_mask set n)
in_mask-asked set n h =
    ground (arith, testbit-bit_and (n - 1) set sig_blockable, blockable n h, testbit-le (n - 1) set)

in_mask-not_asked :
    (set n : ℕ)
    → IsSignal n
    → in_mask (not32 (bit_and set sig_blockable)) n ≡ 1 - in_mask (bit_and set sig_blockable) n
in_mask-not_asked set n h = testbit-not32 (n - 1) (bit_and set sig_blockable) small (omega arith)
  where
    small : bit_and set sig_blockable < 2 ^ 32
    small = omega (arith, bit_and-le_right set sig_blockable)

-- Signal by signal, from 1 to 32: SIG_BLOCK adds the set to the blocked signals, SIG_UNBLOCK takes
-- it away, SIG_SETMASK puts it in their place, and SIGKILL is left out of the set each time.
pub sigprocmask_law :
    (p : Proc) (set n : ℕ)
    → IsSignal n
    → let asked = if n == sigkill then 0 else in_mask set n in
      (in_mask (change_mask p block set).0.sigblocked n ≡ max (in_mask p.sigblocked n) asked)
      × (in_mask (change_mask p unblock set).0.sigblocked n ≡ in_mask p.sigblocked n - asked)
      × (in_mask (change_mask p setmask set).0.sigblocked n ≡ asked)
unfolding change_mask
sigprocmask_law p set n h = (
  ground (
    arith,
    testbit-bit_or (n - 1) p.sigblocked (bit_and set sig_blockable),
    in_mask-asked set n h,
  ),
  ground (
    arith,
    testbit-bit_and (n - 1) p.sigblocked (not32 (bit_and set sig_blockable)),
    in_mask-not_asked set n h,
    in_mask-asked set n h,
    testbit-le (n - 1) p.sigblocked,
    testbit-le (n - 1) set,
  ),
  in_mask-asked set n h,
)

-- A process's calls on its own masks and handlers.
pub data MaskCall : Type 0 where
  procmask : How → Option ℕ → Option Errno → Option (Option Errno) → MaskCall
  ssetmask : ℕ → MaskCall
  action : ℕ → Option Sigaction → Option Errno → Option (Option Errno) → MaskCall
  signal : ℕ → ℕ → Option Errno → MaskCall

pub mask_call : Proc → MaskCall → Proc
mask_call p (procmask how set area old) = (sys_sigprocmask p how set area old).0
mask_call p (ssetmask new) = (sys_ssetmask p new).0
mask_call p (action s new area old) = (sys_sigaction p s new area old).0
mask_call p (signal s h area) = (sys_signal p s h area).0

pub mask_calls : Proc → List MaskCall → Proc
mask_calls p [] = p
mask_calls p (c ∷ cs) = mask_calls (mask_call p c) cs

-- SIGKILL is neither blocked nor caught nor ignored, and SIGSTOP neither caught nor ignored.
pub record IsKillable (p : Proc) : Type 0 where
  pub kill_open : in_mask p.sigblocked sigkill ≡ 0
  pub kill_default : handler p sigkill ≡ sig_dfl
  pub stop_default : handler p sigstop ≡ sig_dfl

apply_set-IsKillable :
    (p : Proc) (how : How) (set : Option ℕ) (area : Option Errno)
    → IsKillable p
    → IsKillable (apply_set p how set area).0
apply_set-IsKillable p how none area k = unfold apply_set in k
apply_set-IsKillable p how (some set) (some e) k = unfold apply_set in k
apply_set-IsKillable p How.other (some set) none k = unfold apply_set change_mask in k
apply_set-IsKillable p how (some set) none k =
    unfold apply_set change_mask in ground (arith, k, sigprocmask_law p set sigkill (omega arith))

set_action-IsKillable :
    (p : Proc) (s : ℕ) (a : Sigaction)
    → is_settable s ≡ true
    → IsKillable p
    → IsKillable (set_action p s a)
unfolding set_action
set_action-IsKillable p s a ok k = ground arith

store_old-IsKillable :
    (p : Proc) (s : ℕ) (a : Option Sigaction) (area : Option Errno) (old : Option (Option Errno))
    → is_settable s ≡ true
    → IsKillable p
    → IsKillable (store_old p s a area old).0
unfolding store_old
store_old-IsKillable p s none area none ok k = k
store_old-IsKillable p s none area (some none) ok k = k
store_old-IsKillable p s a area (some (some e)) ok k = k
store_old-IsKillable p s (some a) (some e) none ok k = k
store_old-IsKillable p s (some a) (some e) (some none) ok k = k
store_old-IsKillable p s (some a) none none ok k = set_action-IsKillable p s a ok k
store_old-IsKillable p s (some a) none (some none) ok k = set_action-IsKillable p s a ok k

install-IsKillable :
    (p : Proc) (s h : ℕ) (area : Option Errno)
    → is_settable s ≡ true
    → IsKillable p
    → IsKillable (install p s h area).0
unfolding install
install-IsKillable p s h (some e) ok k = k
install-IsKillable p s h none ok k =
    set_action-IsKillable p s (record { sa_handler = h; sa_mask = 0; sa_flags = sa_resethand }) ok k

mask_call-IsKillable : (p : Proc) (c : MaskCall) → IsKillable p → IsKillable (mask_call p c)
unfolding mask_call
mask_call-IsKillable p (procmask how set area none) k =
    unfold sys_sigprocmask in apply_set-IsKillable p how set area k
mask_call-IsKillable p (procmask how set area (some (some e))) k = unfold sys_sigprocmask in k
mask_call-IsKillable p (procmask how set area (some none)) k =
    unfold sys_sigprocmask in apply_set-IsKillable p how set area k
mask_call-IsKillable p (ssetmask new) k =
    unfold sys_ssetmask in ground (arith, k, in_mask-asked new sigkill (omega arith))
mask_call-IsKillable p (action s new area old) k =
    unfold sys_sigaction in ground (arith, k, store_old-IsKillable p s new area old)
mask_call-IsKillable p (signal s h area) k =
    unfold sys_signal in ground (arith, k, install-IsKillable p s h (handler_area h area))

-- Whatever sequence of sigprocmask, ssetmask, sigaction and signal a process calls: where SIGKILL is
-- unblocked and at its default action, and SIGSTOP at its default action, they stay so.
pub mask_calls-IsKillable :
    (cs : List MaskCall) (p : Proc) → IsKillable p → IsKillable (mask_calls p cs)
unfolding mask_calls
mask_calls-IsKillable [] p k = k
mask_calls-IsKillable (c ∷ cs) p k =
    mask_calls-IsKillable cs (mask_call p c) (mask_call-IsKillable p c k)

-- SIGSTOP, unlike SIGKILL, can be blocked: a call with SIG_BLOCK and a set that holds SIGSTOP
-- succeeds and leaves SIGSTOP blocked.
pub sigstop_blockable :
    (p : Proc) (set : ℕ)
    → in_mask set sigstop ≡ 1
    → let (q, old, r) = sys_sigprocmask p block (some set) none none in
      (r ≡ success) × (in_mask q.sigblocked sigstop ≡ 1)
unfolding sys_sigprocmask apply_set
sigstop_blockable p set h =
    (refl, ground (arith, sigprocmask_law p set sigstop (omega arith), testbit-le 18 p.sigblocked))
