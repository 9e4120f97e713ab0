-- ===== src/Timer/Periods.antt =====
-- When an interval timer sends its signal.
use fiwix_arm.Base.{
  Bool, ap, arith, false, if◌then◌else◌, lt→ltb, refl, suc, sym, true, zero, ℕ, ◌*◌, ◌+◌, ◌-◌, ◌<◌,
  ◌==◌, ◌∙◌, ◌≡◌,
}
use fiwix_arm.Timer.{Itimer, count}

-- `n` ticks, with the number of signals.
abbrev pub ticks_on : ℕ → Itimer → Itimer × ℕ
ticks_on zero t = (t, 0)
ticks_on (suc n) t =
    let (t', fires) = count t in
    let (t'', more) = ticks_on n t' in (t'', (if fires then 1 else 0) + more)

abbrev timer : ℕ → ℕ → Itimer
timer interval value = record { interval = interval; value = value }

count_on :
    (interval value : ℕ)
    → 1 < value
    → count (timer interval value) ≡ (timer interval (value - 1), false)
unfolding count
count_on interval value lt =
    rw (lt→ltb 0 value (omega (arith, lt))) (later (value - 1) (omega (arith, lt)))
  where
    later :
        (n : ℕ)
        → 0 < n
        → ◌≡◌ {A = Itimer × Bool}
            (if n == 0 then (timer interval interval, true) else (timer interval n, false))
            (timer interval n, false)
    later n h = ground (arith, h)

count_last :
    (interval value : ℕ)
    → value ≡ 1
    → count (timer interval value) ≡ (timer interval interval, true)
unfolding count
count_last interval value e = rw e refl

-- What the ticks after the first make of its outcome.
abbrev after : Itimer × ℕ → ℕ → Itimer × ℕ
after r n = (r.0, n + r.1)

ticks_on-suc :
    (n : ℕ) (t t' : Itimer) (fires : Bool)
    → count t ≡ (t', fires)
    → ticks_on (suc n) t ≡ after (ticks_on n t') (if fires then 1 else 0)
ticks_on-suc n t t' fires e =
    ap (λ (r : Itimer × Bool). after (ticks_on n r.0) (if r.1 then 1 else 0)) e

before_time :
    (n interval value : ℕ)
    → n < value
    → ticks_on n (timer interval value) ≡ (timer interval (value - n), 0)
before_time zero interval value lt = ap (λ v. (timer interval v, 0)) (omega arith)
before_time (suc n) interval value lt =
    let first = count_on interval value (omega (arith, lt)) in
    let rest = before_time n interval (value - 1) (omega (arith, lt)) in
    let e : value - 1 - n ≡ value - suc n = omega arith in
    ticks_on-suc n (timer interval value) (timer interval (value - 1)) false first
    ∙ ap (λ r. after r 0) rest
    ∙ ap (λ v. (timer interval v, 0)) e

at_time :
    (n interval value : ℕ)
    → suc n ≡ value
    → ticks_on (suc n) (timer interval value) ≡ (timer interval interval, 1)
at_time zero interval value e =
    ticks_on-suc 0 (timer interval value) (timer interval interval) true
      (count_last interval value (sym e))
at_time (suc n) interval value e =
    let first = count_on interval value (omega (arith, e)) in
    ticks_on-suc (suc n) (timer interval value) (timer interval (value - 1)) false first
    ∙ ap (λ r. after r 0) (at_time n interval (value - 1) (omega (arith, e)))

ticks_on_add :
    (m n : ℕ) (t : Itimer)
    → ticks_on (m + n) t
      ≡ (let (t', x) = ticks_on m t in let (t'', y) = ticks_on n t' in (t'', x + y))
ticks_on_add zero n t =
    let e : 0 + n ≡ n = omega arith in
    let e' : (ticks_on n t).1 ≡ 0 + (ticks_on n t).1 = omega arith in
    ap (λ k. ticks_on k t) e ∙ ap (λ x. ((ticks_on n t).0, x)) e'
ticks_on_add (suc m) n t =
    let signals : ℕ = if (count t).1 then 1 else 0 in
    let first = ticks_on m (count t).0 in
    let rest = ticks_on n first.0 in
    let e : suc m + n ≡ suc (m + n) = omega arith in
    let assoc : signals + (first.1 + rest.1) ≡ signals + first.1 + rest.1 = omega arith in
    ap (λ k. ticks_on k t) e
    ∙ ap (λ r. after r signals) (ticks_on_add m n (count t).0)
    ∙ ap (λ x. (rest.0, x)) assoc

-- The timer counts a value down and then the interval `k` times.
over_intervals :
    (k interval value : ℕ)
    → 0 < value
    → 0 < interval
    → ticks_on (value + k * interval) (timer interval value) ≡ (timer interval interval, k + 1)
over_intervals zero interval value on every =
    let e : value + 0 * interval ≡ suc (value - 1) = omega (arith, on) in
    ap (λ j. ticks_on j (timer interval value)) e
    ∙ at_time (value - 1) interval value (omega (arith, on))
over_intervals (suc k) interval value on every =
    let e : value + suc k * interval ≡ suc (value - 1) + (interval + k * interval) =
      omega (arith, on) in
    let first = at_time (value - 1) interval value (omega (arith, on)) in
    let rest = over_intervals k interval interval every every in
    let more : 1 + (k + 1) ≡ suc k + 1 = omega arith in
    ap (λ j. ticks_on j (timer interval value)) e
    ∙ ticks_on_add (suc (value - 1)) (interval + k * interval) (timer interval value)
    ∙ ap (λ (r : Itimer × ℕ). after (ticks_on (interval + k * interval) r.0) r.1) first
    ∙ ap (λ r. after r 1) rest
    ∙ ap (λ x. (timer interval interval, x)) more

-- An interval timer that is set to a value and an interval, neither of them 0: it sends nothing
-- in `n` ticks for `n` below the value, and after the value and `k` intervals more it has sent exactly
-- `k` + 1 signals and is set to the interval again.
pub ticks_on_lem :
    (n k interval value : ℕ)
    → n < value
    → 0 < interval
    → let t : Itimer = record { interval = interval; value = value } in
      (ticks_on n t ≡ (record { interval = interval; value = value - n }, 0))
      × (ticks_on (value + k * interval) t
          ≡ (record { interval = interval; value = interval }, k + 1))
ticks_on_lem n k interval value before every = (
  before_time n interval value before,
  over_intervals k interval value (omega (arith, before)) every,
)
