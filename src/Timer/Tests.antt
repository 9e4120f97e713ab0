-- ===== src/Timer/Tests.antt =====
-- Runs of the timer calls, of `mktime` and of nanosleep, and the theorems about them at concrete values.
use fiwix_arm.Base.{ℕ, [], arith, false, none, refl, some, true, ◌*◌, ◌+◌, ◌∷◌, ◌≡◌}
use fiwix_arm.Timer.{
  Account, Timeval, Itimer, Itimers, Mt, mktime, sys_alarm, sys_setitimer, charge, itimer_real,
  other, u32, secs_per_day, tv2ticks,
}
use fiwix_arm.Timer.Nanosleep.{Timespec, request_ticks, sys_nanosleep, remaining}
use fiwix_arm.Timer.Sleeping.{
  sys_nanosleep_lem, nanosleep_forever, undisturbed, signalled_after, counted,
}
use fiwix_arm.Timer.Calendar.{mktime-next_day, next_day}
use fiwix_arm.Timer.Periods.{ticks_on, ticks_on_lem}
use fiwix_arm.Base.Errno.{intr, success, inval, fault, fail}
use fiwix_arm.Timer.Accounting.{charges_lem, in_usecs, IsTime, charges}

abbrev off : Itimer
off = record { interval = 0; value = 0 }

-- The real timer has 2.5 seconds left, the profiling timer one tick.
abbrev running : Itimers
running = record {
  real = record { interval = 100; value = 250 };
  virt = off;
  prof = record { interval = 5; value = 1 };
}

-- The seconds that are left are rounded up, and the new value is in ticks.
alarm_rounds_up :
    sys_alarm 4 running ≡ (record running { real = record { interval = 0; value = 400 } }, 3)
unfolding sys_alarm
alarm_rounds_up = refl

abbrev half : Timeval
half = record { tv_sec = 0; tv_usec = 500000 }

-- A bad address for the old value leaves the timers alone.
bad_area :
    sys_setitimer itimer_real
      (record { it_interval = half; it_value = half })
      true
      (some fault)
      running
    ≡ (running, none, fail fault)
unfolding sys_setitimer
bad_area = refl

unknown_timer :
    sys_setitimer other (record { it_interval = half; it_value = half }) false none running
    ≡ (running, none, fail inval)
unfolding sys_setitimer
unknown_timer = refl

-- A value below one tick stands for no time at all, so the timer does not run.
below_a_tick : tv2ticks (record { tv_sec = 0; tv_usec = 9999 }) ≡ 0
unfolding tv2ticks
below_a_tick = refl

-- In user mode: the microseconds carry, the limit of one second is passed, the profiling timer runs
-- out and starts again.
tick_of_user :
    charge false 0
      (record { utime = record { tv_sec = 0; tv_usec = 990000 }; stime = half; timers = running })
    ≡ (
      record {
        utime = record { tv_sec = 1; tv_usec = 0 };
        stime = half;
        timers = record running { prof = record { interval = 5; value = 5 } };
      },
      24 ∷ 27 ∷ [],
    )
unfolding charge
tick_of_user = refl

abbrev epoch : Mt
epoch = record { mt_sec = 0; mt_min = 0; mt_hour = 0; mt_day = 1; mt_month = 1; mt_year = 1970 }

-- The last day of February of a leap year, at noon
abbrev leap_day : Mt
leap_day = record {
  mt_sec = 0;
  mt_min = 0;
  mt_hour = 12;
  mt_day = 29;
  mt_month = 2;
  mt_year = 2000;
}

mktime-epoch : mktime epoch ≡ 0
unfolding mktime
mktime-epoch = refl

mktime-leap_day : mktime leap_day ≡ 951825600
unfolding mktime
mktime-leap_day = refl

mktime-next_day_example : mktime (next_day leap_day) ≡ u32 (mktime leap_day + secs_per_day)
mktime-next_day_example =
    mktime-next_day leap_day (omega arith, omega arith, omega arith, omega arith, omega arith)

ticks_on_lem_example :
    (ticks_on 3 (record { interval = 2; value = 4 }) ≡ (record { interval = 2; value = 1 }, 0))
    × (ticks_on (4 + 5 * 2) (record { interval = 2; value = 4 })
        ≡ (record { interval = 2; value = 2 }, 5 + 1))
ticks_on_lem_example = ticks_on_lem 3 5 2 4 (omega arith) (omega arith)

charges_lem_example :
    let a : Account = record { utime = half; stime = half; timers = running } in
    let r = charges (true ∷ false ∷ true ∷ []) 9 a in
    IsTime r.utime
    × IsTime r.stime
    × (in_usecs r.utime ≡ 500000 + 1 * 10000)
    × (in_usecs r.stime ≡ 500000 + 2 * 10000)
charges_lem_example =
    charges_lem (true ∷ false ∷ true ∷ []) 9
      (record { utime = half; stime = half; timers = running }) (omega arith) (omega arith)

abbrev secs_nsecs : ℕ → ℕ → Timespec
secs_nsecs secs n = record { tv_sec = secs; tv_nsec = n }

-- Half a second is a timeout without end as well, and a request below 1 ms is no sleep at all.
half_second : request_ticks (secs_nsecs 0 500000000) ≡ 4294967295
unfolding request_ticks
half_second = refl

below_1ms : sys_nanosleep (secs_nsecs 0 999999) true none none (λ t. t) 0 ≡ (0, none, success)
unfolding sys_nanosleep
below_1ms = refl

-- Of 5 ticks that are left, 50 ms, some 7 ms are stored.
remaining_50ms : remaining 5 ≡ secs_nsecs 0 7050327
unfolding remaining
remaining_50ms = refl

abbrev two_ticks : Timespec
two_ticks = secs_nsecs 3 20000000

sys_nanosleep_lem_example :
    (sys_nanosleep two_ticks false none none undisturbed 0 ≡ (0, none, success))
    × (counted 302 (request_ticks two_ticks) ≡ (0, 1))
    × (sys_nanosleep two_ticks false none none (signalled_after 200) 0 ≡ (102, none, fail intr))
sys_nanosleep_lem_example =
    sys_nanosleep_lem two_ticks 200 0 (omega arith, omega arith, omega arith) (omega arith)

abbrev ms30 : Timespec
ms30 = secs_nsecs 0 30000000

nanosleep_forever_example :
    (request_ticks ms30 ≡ 4294967295)
    × (counted 9 (request_ticks ms30) ≡ (4294967295, 0))
    × (sys_nanosleep ms30 false none none (signalled_after 9) 0 ≡ (4294967295, none, fail intr))
nanosleep_forever_example = nanosleep_forever ms30 9 0 refl (omega arith) (omega arith)
