-- ===== src/Timer/Nanosleep.antt =====
-- kernel/syscalls/nanosleep.c. An int is its 32-bit pattern, and a long has 32 bits too, as on the i386.
use fiwix_arm.Base.{
  Bool, Option, if◌then◌else◌, leb, ltb, none, some, ℕ, ◌%◌, ◌*◌, ◌+◌, ◌-◌, ◌/◌, ◌==◌, ◌^◌, ◌||◌,
}
use fiwix_arm.Base.Bits.{u32}
use fiwix_arm.Base.Errno.{Errno, Status, success, fail, inval, intr}
use fiwix_arm.Timer.{hz}

-- `struct timespec`
pub record Timespec : Type 0 where
  pub tv_sec : ℕ
  pub tv_nsec : ℕ

abbrev pub nsecs : ℕ
nsecs = 1000000000

abbrev pub is_negative : ℕ → Bool
is_negative n = leb (2 ^ 31) n

-- The quotient of an int by a positive one, rounded to 0
abbrev pub int_div : ℕ → ℕ → ℕ
int_div n d = if is_negative n then u32 (2 ^ 32 - (2 ^ 32 - n) / d) else n / d

-- The timeout of a request; each product wraps around.
unfoldable pub request_ticks : Timespec → ℕ
request_ticks req =
    let nsec : ℕ = if ltb req.tv_nsec 10000000 then req.tv_nsec * 10 else req.tv_nsec in
    u32 (req.tv_sec * hz + int_div (u32 (nsec * hz)) nsecs)

unfoldable pub remaining : ℕ → Timespec
remaining left = record { tv_sec = left / hz; tv_nsec = u32 (left % hz * nsecs) / hz }

-- `left` is what the sleep leaves of a timeout, and the `area` arguments are what `check_user_area`
-- answers; `timeout` is that of the process before. The result has its timeout and what is stored of
-- the remaining time.
unfoldable pub sys_nanosleep :
    Timespec → Bool → Option Errno → Option Errno → (ℕ → ℕ) → ℕ → ℕ × Option Timespec × Status
unfolding request_ticks remaining
sys_nanosleep req wants_rem (some e) rem_area left timeout = (timeout, none, fail e)
sys_nanosleep req wants_rem none rem_area left timeout =
    let ticks = request_ticks req in
    let rest = left ticks in
    let stored : ℕ × Option Timespec × Status = elim rem_area [
      | some e ↦ (rest, none, fail e)
      | none ↦ (rest, some (remaining rest), fail intr)
    ] in
    if is_negative req.tv_sec || leb nsecs req.tv_nsec  -- a negative one is at least 2^31
    then (timeout, none, fail inval)
    else if ticks == 0
    then (timeout, none, success)
    else if rest == 0
    then (0, none, success)
    else if wants_rem
    then stored
    else (rest, none, fail intr)
