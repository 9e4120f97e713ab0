-- ===== src/Timer/Calendar.antt =====
-- `mktime` counts days like the calendar.
use fiwix_arm.Base.{
  Bool, ap, arith, false, if-cases, if◌then◌else◌, ltb, refl, suc, sym, true, zero, ℕ, ◌%◌, ◌*◌,
  ◌+◌, ◌-◌, ◌<◌, ◌==◌, ◌||◌, ◌∙◌, ◌≡◌, ◌≤◌,
}
use fiwix_arm.Base.Bits.{u32}
use fiwix_arm.Timer.{
  secs_per_hour, secs_per_day, mktime, unix_epoch, days_per_year, month_days, year_days, leap_year,
  Mt, month,
}

-- The calendar, independent of the tables of the code: how many days a month has, in order of the
-- month's number, and the day after a day.
abbrev pub is_leap : ℕ → Bool
is_leap y = if y % 400 == 0 then true else if y % 100 == 0 then false else y % 4 == 0

abbrev pub days_in : ℕ → ℕ → ℕ
days_in y m =
    if m == 2
    then (if is_leap y then 29 else 28)
    else if m == 4 || m == 6 || m == 9 || m == 11
    then 30
    else 31

abbrev pub next_day : Mt → Mt
next_day t =
    if ltb t.mt_day (days_in t.mt_year t.mt_month)
    then record t { mt_day = t.mt_day + 1 }
    else if ltb t.mt_month 12
    then record t { mt_day = 1; mt_month = t.mt_month + 1 }
    else record t { mt_day = 1; mt_month = 1; mt_year = t.mt_year + 1 }

leap_year-is_leap : (y : ℕ) → leap_year y ≡ is_leap y
unfolding leap_year
leap_year-is_leap y = ground arith

year_days-suc : (n k : ℕ) → year_days n (suc k) ≡ year_days n k + days_per_year (n + k)
unfolding year_days
year_days-suc n zero = let e : n ≡ n + 0 = omega arith in omega (arith, ap days_per_year e)
year_days-suc n (suc k) =
    let e : n + 1 + k ≡ n + suc k = omega arith in
    omega (arith, year_days-suc (n + 1) k, ap days_per_year e)

-- The days that the second loop adds for month `n`.
abbrev days_of : ℕ → ℕ → ℕ
days_of y n = month n + (if n == 1 then (if leap_year y then 1 else 0) else 0)

month_days-suc : (y n k : ℕ) → month_days y n (suc k) ≡ month_days y n k + days_of y (n + k)
unfolding month_days
month_days-suc y n zero = let e : n ≡ n + 0 = omega arith in omega (arith, ap (days_of y) e)
month_days-suc y n (suc k) =
    let e : n + 1 + k ≡ n + suc k = omega arith in
    omega (arith, month_days-suc y (n + 1) k, ap (days_of y) e)

february : (y : ℕ) → 28 + (if leap_year y then 1 else 0) ≡ (if is_leap y then 29 else 28)
february y = rw (leap_year-is_leap y) (of (is_leap y))
  where
    of : (b : Bool) → 28 + (if b then 1 else 0) ≡ (if b then 29 else 28)
    of true = refl
    of false = refl

days_of-days_in : (y n : ℕ) → n < 12 → days_of y n ≡ days_in y (n + 1)
unfolding month
days_of-days_in y zero lt = refl
days_of-days_in y (suc zero) lt = february y
days_of-days_in y (suc (suc zero)) lt = refl
days_of-days_in y (suc (suc (suc zero))) lt = refl
days_of-days_in y (suc (suc (suc (suc zero)))) lt = refl
days_of-days_in y (suc (suc (suc (suc (suc zero))))) lt = refl
days_of-days_in y (suc (suc (suc (suc (suc (suc zero)))))) lt = refl
days_of-days_in y (suc (suc (suc (suc (suc (suc (suc zero))))))) lt = refl
days_of-days_in y (suc (suc (suc (suc (suc (suc (suc (suc zero)))))))) lt = refl
days_of-days_in y (suc (suc (suc (suc (suc (suc (suc (suc (suc zero))))))))) lt = refl
days_of-days_in y (suc (suc (suc (suc (suc (suc (suc (suc (suc (suc zero)))))))))) lt = refl
days_of-days_in y (suc (suc (suc (suc (suc (suc (suc (suc (suc (suc (suc zero))))))))))) lt = refl
days_of-days_in y (suc (suc (suc (suc (suc (suc (suc (suc (suc (suc (suc (suc n)))))))))))) lt =
    absurd (omega (arith, lt))

-- The months of a year are its days.
year_length : (y : ℕ) → month_days y 0 12 ≡ days_per_year y
unfolding month_days month days_per_year
year_length y = of (leap_year y)
  where
    of :
        (b : Bool)
        → 31
            + 0
            + (28
                + (if b then 1 else 0)
                + (31
                    + 0
                    + (30
                        + 0
                        + (31
                            + 0
                            + (30
                                + 0
                                + (31
                                    + 0
                                    + (31 + 0 + (30 + 0 + (31 + 0 + (30 + 0 + (31 + 0 + 0)))))))))))
          ≡ (if b then 366 else 365)
    of true = refl
    of false = refl

-- The days that `mktime` counts before a day.
abbrev total_days : Mt → ℕ
total_days t =
    year_days unix_epoch (t.mt_year - unix_epoch)
    + month_days t.mt_year 0 (t.mt_month - 1)
    + (t.mt_day - 1)

abbrev pub IsDate : Mt → Type 0
IsDate t =
    (unix_epoch ≤ t.mt_year)
    × (1 ≤ t.mt_month)
    × (t.mt_month ≤ 12)
    × (1 ≤ t.mt_day)
    × (t.mt_day ≤ days_in t.mt_year t.mt_month)

none_before : (x : ℕ) → month_days x 0 0 ≡ 0
unfolding month_days
none_before x = refl

not_ltb : (a b : ℕ) → ltb a b ≡ false → b ≤ a
not_ltb a b e = ground (arith, e)

-- The last day of a month: the days before it and the day are the days of one month more.
month_end :
    (t : Mt)
    → IsDate t
    → ltb t.mt_day (days_in t.mt_year t.mt_month) ≡ false
    → month_days t.mt_year 0 (t.mt_month - 1) + t.mt_day ≡ month_days t.mt_year 0 t.mt_month
month_end t (epoch, low, high, first, last) e =
    let y = t.mt_year in
    let k = t.mt_month - 1 in
    let m : t.mt_month ≡ suc k = omega (arith, low) in
    let at : 0 + k + 1 ≡ t.mt_month = omega (arith, low) in
    let more = month_days-suc y 0 k in
    let days = days_of-days_in y (0 + k) (omega (arith, high, low)) ∙ ap (days_in y) at in
    let full = not_ltb t.mt_day (days_in y t.mt_month) e in
    omega (arith, more, days, full, last, ap (month_days y 0) m)

total_days-next_day : (t : Mt) → IsDate t → total_days (next_day t) ≡ total_days t + 1
total_days-next_day t date =
    let (epoch, low, high, first, last) = date in
    let y = t.mt_year in
    if-cases (λ (r : Mt). total_days r ≡ total_days t + 1) (ltb t.mt_day (days_in y t.mt_month))
      (λ e. omega (arith, first))
      (λ e.
        if-cases (λ (r : Mt). total_days r ≡ total_days t + 1) (ltb t.mt_month 12)
          (λ f.
            let m : t.mt_month + 1 - 1 ≡ t.mt_month = omega arith in
            omega (arith, month_end t date e, ap (month_days y 0) m, first))
          (λ f.
            let m : t.mt_month ≡ 12 = omega (arith, not_ltb t.mt_month 12 f, high) in
            let k = y - unix_epoch in
            let next : y + 1 - unix_epoch ≡ suc k = omega (arith, epoch) in
            let this : unix_epoch + k ≡ y = omega (arith, epoch) in
            omega (
              arith,
              month_end t date e,
              ap (month_days y 0) m,
              year_length y,
              first,
              ap (year_days unix_epoch) next,
              year_days-suc unix_epoch k,
              ap days_per_year this,
              none_before (y + 1),
            )))

-- The seconds of a day so far
abbrev day_secs : Mt → ℕ
day_secs t = t.mt_hour * secs_per_hour + t.mt_min * 60 + t.mt_sec

mktime_lem : (t : Mt) → mktime t ≡ u32 (total_days t * secs_per_day + day_secs t)
unfolding mktime
mktime_lem t = omega arith

day_secs-next_day : (t : Mt) → day_secs (next_day t) ≡ day_secs t
day_secs-next_day t =
    let P : Mt → Type 0 = λ r. day_secs r ≡ day_secs t in
    if-cases P (ltb t.mt_day (days_in t.mt_year t.mt_month)) (λ e. refl)
      (λ e. if-cases P (ltb t.mt_month 12) (λ f. refl) (λ f. refl))

wrapped :
    (days days' secs secs' : ℕ)
    → days' ≡ days + 1
    → secs' ≡ secs
    → u32 (days' * secs_per_day + secs') ≡ u32 (u32 (days * secs_per_day + secs) + secs_per_day)
wrapped days days' secs secs' e f = omega (arith, e, f)

-- `mktime` of the day after a date from 1970 on is a day of seconds more, on 32 bits, for the
-- calendar in which a year is a leap year when it divides by 400, or by 4 and not by 100.
pub mktime-next_day : (t : Mt) → IsDate t → mktime (next_day t) ≡ u32 (mktime t + secs_per_day)
mktime-next_day t date =
    mktime_lem (next_day t)
    ∙ wrapped (total_days t) (total_days (next_day t)) (day_secs t) (day_secs (next_day t))
        (total_days-next_day t date) (day_secs-next_day t)
    ∙ ap (λ n. u32 (n + secs_per_day)) (sym (mktime_lem t))
