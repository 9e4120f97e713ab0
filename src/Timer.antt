-- ===== src/Timer.antt =====
-- kernel/timer.c: interval timers, the accounting of a tick and the calendar, with
-- kernel/syscalls/setitimer.c, getitimer.c and alarm.c. Times of a user are not negative. The callouts
-- are in Callout.
pub mod Accounting
pub mod Calendar
pub mod Nanosleep
pub mod Periods
pub mod Sleeping
mod Tests
use fiwix_arm.Base.{
  Bool, List, Option, [], false, get_or, if◌then◌else◌, leb, ltb, none, not, set, some, suc, true,
  zero, ℕ, ◌%◌, ◌&&◌, ◌*◌, ◌++◌, ◌+◌, ◌-◌, ◌/◌, ◌==◌, ◌^◌, ◌||◌, ◌∷◌,
}
use fiwix_arm.Base.Errno.{inval, fail, success, Status, Errno}
use fiwix_arm.Base.Bits.{u32}

abbrev pub hz : ℕ
hz = 100

-- TICK, in microseconds
abbrev pub tick_usecs : ℕ
tick_usecs = 10000

abbrev pub usecs : ℕ
usecs = 1000000

-- Its seconds stay below 2 ^ 31.
pub record Timeval : Type 0 where
  pub tv_sec : ℕ
  pub tv_usec : ℕ

-- `struct itimerval`
pub record Itimerval : Type 0 where
  pub it_interval : Timeval
  pub it_value : Timeval

-- One of the timers of a process, in ticks
pub record Itimer : Type 0 where
  pub interval : ℕ
  pub value : ℕ

pub record Itimers : Type 0 where
  pub real : Itimer
  pub virt : Itimer
  pub prof : Itimer

pub data Which : Type 0 where
  itimer_real itimer_virtual itimer_prof other : Which

-- For microseconds below 21474837, where the product stays in an int; the result wraps around. A timer
-- of 2 ^ 31 ticks and more, which `ticks2tv` takes as negative, is not modelled.
unfoldable pub tv2ticks : Timeval → ℕ
tv2ticks tv = u32 (tv.tv_sec * hz + tv.tv_usec * hz / usecs)

unfoldable pub ticks2tv : ℕ → Timeval
ticks2tv ticks = record { tv_sec = ticks / hz; tv_usec = ticks % hz * usecs / hz }

unfoldable pub shown : Itimer → Itimerval
unfolding ticks2tv
shown t = record { it_interval = ticks2tv t.interval; it_value = ticks2tv t.value }

unfoldable pub armed : Itimerval → Itimer
unfolding tv2ticks
armed v = record { interval = tv2ticks v.it_interval; value = tv2ticks v.it_value }

-- With what is stored for the old timer, if it is asked for.
unfoldable pub setitimer : Which → Itimerval → Bool → Itimers → Itimers × Option Itimerval × Status
unfolding shown armed
setitimer itimer_real new wants_old t =
    (record t { real = armed new }, (if wants_old then some (shown t.real) else none), success)
setitimer itimer_virtual new wants_old t =
    (record t { virt = armed new }, (if wants_old then some (shown t.virt) else none), success)
setitimer itimer_prof new wants_old t =
    (record t { prof = armed new }, (if wants_old then some (shown t.prof) else none), success)
setitimer other new wants_old t = (t, none, fail inval)

-- `area` is what `check_user_area` answers.
unfoldable pub sys_setitimer :
    Which → Itimerval → Bool → Option Errno → Itimers → Itimers × Option Itimerval × Status
unfolding setitimer
sys_setitimer which new wants_old area t =
    let set = setitimer which new wants_old t in
    let checked : Itimers × Option Itimerval × Status = elim area [
      | none ↦ set
      | some e ↦ (t, none, fail e)
    ] in
    if wants_old then checked else set

unfoldable pub sys_getitimer : Which → Option Errno → Itimers → Option Itimerval × Status
unfolding shown
sys_getitimer which (some e) t = (none, fail e)
sys_getitimer itimer_real none t = (some (shown t.real), success)
sys_getitimer itimer_virtual none t = (some (shown t.virt), success)
sys_getitimer itimer_prof none t = (some (shown t.prof), success)
sys_getitimer other none t = (none, fail inval)

-- The seconds left, rounded up.
unfoldable pub sys_alarm : ℕ → Itimers → Itimers × ℕ
unfolding setitimer
sys_alarm secs t =
    let zero_time : Timeval = record { tv_sec = 0; tv_usec = 0 } in
    let new : Itimerval = record {
      it_interval = zero_time;
      it_value = record { tv_sec = secs; tv_usec = 0 };
    } in
    let old = (shown t.real).it_value in
    (
      (setitimer itimer_real new true t).0,
      (if not (old.tv_usec == 0) then old.tv_sec + 1 else old.tv_sec),
    )

-- One tick of a timer, and whether its signal is sent.
unfoldable pub count : Itimer → Itimer × Bool
count t =
    if ltb 0 t.value
    then (if t.value - 1 == 0
        then (record t { value = t.interval }, true)
        else (record t { value = t.value - 1 }, false))
    else (t, false)

-- What `irq_timer_bh` changes of the process that runs.
pub record Account : Type 0 where
  pub utime : Timeval
  pub stime : Timeval
  pub timers : Itimers

unfoldable pub add_tick : Timeval → Timeval
add_tick tv =
    let sum = tv.tv_usec + tick_usecs in
    if leb usecs sum
    then record { tv_sec = tv.tv_sec + 1; tv_usec = sum - usecs }
    else record tv { tv_usec = sum }

abbrev pub sigalrm : ℕ
sigalrm = 14

abbrev pub sigxcpu : ℕ
sigxcpu = 24

abbrev pub sigvtalrm : ℕ
sigvtalrm = 26

abbrev pub sigprof : ℕ
sigprof = 27

-- A signal that is sent, or not.
abbrev pub sent : Bool → ℕ → List ℕ
sent b signum = if b then signum ∷ [] else []

-- The part of `irq_timer_bh` for the process that runs, with the limit of its time and the signals
-- that it is sent. The virtual timer counts in user mode only.
unfoldable pub charge : Bool → ℕ → Account → Account × List ℕ
unfolding add_tick count
charge is_kernel limit a =
    let (virt, virt_fires) = if is_kernel then (a.timers.virt, false) else count a.timers.virt in
    let (prof, prof_fires) = count a.timers.prof in
    let utime : Timeval = if is_kernel then a.utime else add_tick a.utime in
    let stime : Timeval = if is_kernel then add_tick a.stime else a.stime in
    let a' : Account = record {
      utime = utime;
      stime = stime;
      timers = record a.timers { virt = virt; prof = prof };
    } in
    (
      a',
      sent virt_fires sigvtalrm
          ++ sent (ltb limit (utime.tv_sec + stime.tv_sec)) sigxcpu
          ++ sent prof_fires sigprof,
    )

abbrev pub infinite_wait : ℕ
infinite_wait = 2 ^ 32 - 1

-- Its part for every process: the timeout, with whether the process is woken, and the real timer,
-- with whether SIGALRM is sent.
unfoldable pub count_timeout : ℕ → ℕ × Bool
count_timeout timeout =
    if ltb 0 timeout && ltb timeout infinite_wait
    then (timeout - 1, timeout - 1 == 0)
    else (timeout, false)

-- `struct mt`
pub record Mt : Type 0 where
  pub mt_sec : ℕ
  pub mt_min : ℕ
  pub mt_hour : ℕ
  pub mt_day : ℕ
  pub mt_month : ℕ
  pub mt_year : ℕ

abbrev pub secs_per_day : ℕ
secs_per_day = 86400

abbrev pub secs_per_hour : ℕ
secs_per_hour = 3600

abbrev pub unix_epoch : ℕ
unix_epoch = 1970

unfoldable pub leap_year : ℕ → Bool
leap_year y = y % 4 == 0 && (not (y % 100 == 0) || y % 400 == 0)

unfoldable pub days_per_year : ℕ → ℕ
unfolding leap_year
days_per_year y = if leap_year y then 366 else 365

-- The table `month`; the code stays within it.
unfoldable pub month : ℕ → ℕ
month n = get_or (31 ∷ 28 ∷ 31 ∷ 30 ∷ 31 ∷ 30 ∷ 31 ∷ 31 ∷ 30 ∷ 31 ∷ 30 ∷ 31 ∷ []) n 0

-- The first loop of `mktime`, over `k` years from `n` on.
unfoldable pub year_days : ℕ → ℕ → ℕ
unfolding days_per_year
year_days n zero = 0
year_days n (suc k) = days_per_year n + year_days (n + 1) k

-- The second loop, over `k` months from `n` on, where January is 0.
unfoldable pub month_days : ℕ → ℕ → ℕ → ℕ
unfolding month leap_year
month_days y n zero = 0
month_days y n (suc k) =
    let leap : ℕ = if leap_year y then 1 else 0 in
    month n + (if n == 1 then leap else 0) + month_days y (n + 1) k

unfoldable pub mktime : Mt → ℕ
unfolding year_days month_days
mktime mt =
    let total_days =
      year_days unix_epoch (mt.mt_year - unix_epoch)
      + month_days mt.mt_year 0 (mt.mt_month - 1)
      + (mt.mt_day - 1) in
    u32 (total_days * secs_per_day + mt.mt_hour * secs_per_hour + mt.mt_min * 60 + mt.mt_sec)
