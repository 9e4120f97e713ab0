-- ===== src/Signal/Mask.antt =====
-- kernel/syscalls/sigprocmask.c, sgetmask.c, ssetmask.c, sigpending.c, sigaction.c and signal.c: a
-- process's own masks and handlers. An answer of `check_user_area` is `none` where the area is good.
pub mod Blocked
use fiwix_arm.Base.{
  if◌then◌else◌, ◌==◌, ◌&&◌, ◌||◌, ◌-◌, none, some, ltb, not, bit_and, Option, Bool, bit_or, ℕ,
}
use fiwix_arm.Process.{Sigaction, Proc}
use fiwix_arm.Base.Bits.{shl1, not32}
use fiwix_arm.Base.Errno.{done, inval, fail, Result, success, Errno, Status}
use fiwix_arm.Base.Store.{update}
use fiwix_arm.Signal.{sig_mask, sigchld, sig_dfl, sig_ign, handler, nsig, sigstop, sigkill}

pub data How : Type 0 where
  block unblock setmask other : How

-- SIG_BLOCKABLE, as the header writes it
abbrev pub sig_blockable : ℕ
sig_blockable = bit_or (not32 (shl1 (sigkill - 1))) (shl1 (sigstop - 1))

-- The `switch` of `sys_sigprocmask`: a number that is none of the three is `other`.
pub change_mask : Proc → How → ℕ → Proc × Status
change_mask current block set =
    (record current { sigblocked = bit_or current.sigblocked (bit_and set sig_blockable) }, success)
change_mask current unblock set = (
  record current { sigblocked = bit_and current.sigblocked (not32 (bit_and set sig_blockable)) },
  success,
)
change_mask current setmask set =
    (record current { sigblocked = bit_and set sig_blockable }, success)
change_mask current other set = (current, fail inval)

-- The part of the call that reads `*set`.
pub apply_set : Proc → How → Option ℕ → Option Errno → Proc × Status
unfolding change_mask
apply_set current how none area = (current, success)
apply_set current how (some set) (some e) = (current, fail e)
apply_set current how (some set) none = change_mask current how set

-- `set` is `*set`, or `none` for a null pointer; `oldset` is the answer for the area of the old mask,
-- or `none` for a null pointer. What goes out through `oldset` comes second.
pub sys_sigprocmask :
    Proc → How → Option ℕ → Option Errno → Option (Option Errno) → Proc × Option ℕ × Status
unfolding apply_set
sys_sigprocmask current how set area none =
    let (p, r) = apply_set current how set area in (p, none, r)
sys_sigprocmask current how set area (some (some e)) = (current, none, fail e)
sys_sigprocmask current how set area (some none) =
    let (p, r) = apply_set current how set area in (p, some current.sigblocked, r)

pub sys_sgetmask : Proc → ℕ
sys_sgetmask current = current.sigblocked

pub sys_ssetmask : Proc → ℕ → Proc × ℕ
sys_ssetmask current newmask =
    (record current { sigblocked = bit_and newmask sig_blockable }, current.sigblocked)

pub sys_sigpending : Proc → Option Errno → Option ℕ × Status
sys_sigpending current (some e) = (none, fail e)
sys_sigpending current none = (some current.sigpending, success)

-- The end of `sys_sigaction` and of `sys_signal`: the new action, and the pending signal dropped if
-- the new handler is SIG_IGN or SIG_DFL and the signal is not SIGCHLD.
pub set_action : Proc → ℕ → Sigaction → Proc
set_action current signum action =
    let p = record current { sigaction = update current.sigaction (signum - 1) action } in
    if (action.sa_handler == sig_ign || action.sa_handler == sig_dfl) && not (signum == sigchld)
    then record p { sigpending = bit_and p.sigpending (sig_mask signum) }
    else p

abbrev pub is_settable : ℕ → Bool
is_settable signum =
    not (ltb signum 1 || ltb nsig signum) && not (signum == sigkill || signum == sigstop)

-- The new action, if the pointer is not null and its area is good.
pub apply_action : Proc → ℕ → Option Sigaction → Option Errno → Proc × Status
unfolding set_action
apply_action current signum none area = (current, success)
apply_action current signum (some action) (some e) = (current, fail e)
apply_action current signum (some action) none = (set_action current signum action, success)

pub store_old :
    Proc
    → ℕ
    → Option Sigaction
    → Option Errno
    → Option (Option Errno)
    → Proc × Option Sigaction × Status
unfolding apply_action
store_old current signum newaction area none =
    let (p, r) = apply_action current signum newaction area in (p, none, r)
store_old current signum newaction area (some (some e)) = (current, none, fail e)
store_old current signum newaction area (some none) =
    let (p, r) = apply_action current signum newaction area in
    (p, some (current.sigaction (signum - 1)), r)

pub sys_sigaction :
    Proc
    → ℕ
    → Option Sigaction
    → Option Errno
    → Option (Option Errno)
    → Proc × Option Sigaction × Status
unfolding store_old
sys_sigaction current signum newaction area oldaction =
    if is_settable signum
    then store_old current signum newaction area oldaction
    else (current, none, fail inval)

abbrev pub sa_resethand : ℕ
sa_resethand = 0x80000000

-- The area of a handler that is an address.
abbrev pub handler_area : ℕ → Option Errno → Option Errno
handler_area sighandler area =
    if not (sighandler == sig_dfl) && not (sighandler == sig_ign) then area else none

pub install : Proc → ℕ → ℕ → Option Errno → Proc × Result ℕ
unfolding set_action
install current signum sighandler (some e) = (current, fail e)
install current signum sighandler none = (
  set_action current signum
      (record { sa_handler = sighandler; sa_mask = 0; sa_flags = sa_resethand }),
  done (handler current signum),
)

pub sys_signal : Proc → ℕ → ℕ → Option Errno → Proc × Result ℕ
unfolding install
sys_signal current signum sighandler area =
    if is_settable signum
    then install current signum sighandler (handler_area sighandler area)
    else (current, fail inval)
