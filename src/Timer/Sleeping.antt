-- ===== src/Timer/Sleeping.antt =====
-- How long nanosleep sleeps: its timeout and the ticks that count it down.
use fiwix_arm.Base.{
  ap, Bool, arith, false, if◌then◌else◌, le→leb, lt→ltb, none, not_le→leb, not_lt→ltb, refl, suc,
  sym, true, zero, ℕ, ◌*◌, ◌+◌, ◌-◌, ◌/◌, ◌<◌, ◌==◌, ◌^◌, ◌∙◌, ◌≡◌, ◌≤◌,
}
use fiwix_arm.Base.Errno.{success, fail, intr}
use fiwix_arm.Timer.{u32, count_timeout, hz, infinite_wait}
use fiwix_arm.Timer.Nanosleep.{sys_nanosleep, request_ticks, Timespec, nsecs}

-- A timeout after `n` ticks, with how often its process has been woken.
abbrev pub counted : ℕ → ℕ → ℕ × ℕ
counted zero timeout = (timeout, 0)
counted (suc n) timeout =
    let (timeout', wakes) = count_timeout timeout in
    let (timeout'', more) = counted n timeout' in (timeout'', (if wakes then 1 else 0) + more)

-- The sleep that a signal ends after `n` ticks
abbrev pub signalled_after : ℕ → ℕ → ℕ
signalled_after n timeout = (counted n timeout).0

-- The sleep that no signal ends
abbrev pub undisturbed : ℕ → ℕ
undisturbed timeout = (counted timeout timeout).0

counted-infinite_wait : (n : ℕ) → counted n infinite_wait ≡ (infinite_wait, 0)
unfolding count_timeout
counted-infinite_wait zero = refl
counted-infinite_wait (suc n) = ap (λ (r : ℕ × ℕ). (r.0, 0 + r.1)) (counted-infinite_wait n)

zero_is : (n : ℕ) → n ≡ 0 → (n == 0) ≡ true
zero_is n e = ground (arith, e)

not_zero : (n : ℕ) → 0 < n → (n == 0) ≡ false
not_zero n h = ground (arith, h)

count_timeout_on :
    (timeout : ℕ)
    → 1 < timeout
    → timeout < infinite_wait
    → count_timeout timeout ≡ (timeout - 1, false)
unfolding count_timeout
count_timeout_on timeout low high =
    rw (lt→ltb 0 timeout (omega (arith, low))) (
      rw (lt→ltb timeout infinite_wait high)
        (rw (not_zero (timeout - 1) (omega (arith, low))) refl))

-- The result of ticks after the first one
abbrev after : ℕ → ℕ × ℕ → ℕ × ℕ
after wakes r = (r.0, wakes + r.1)

counted-suc :
    (n timeout : ℕ) (r : ℕ × Bool)
    → count_timeout timeout ≡ r
    → counted (suc n) timeout ≡ after (if r.1 then 1 else 0) (counted n r.0)
counted-suc n timeout r e = ap (λ (x : ℕ × Bool). after (if x.1 then 1 else 0) (counted n x.0)) e

counted_before :
    (n timeout : ℕ) → n < timeout → timeout < infinite_wait → counted n timeout ≡ (timeout - n, 0)
counted_before zero timeout low high = ap (λ t. (t, 0)) (omega arith)
counted_before (suc n) timeout low high =
    let first = count_timeout_on timeout (omega (arith, low)) high in
    let rest = counted_before n (timeout - 1) (omega (arith, low)) (omega (arith, high)) in
    let e : timeout - 1 - n ≡ timeout - suc n = omega arith in
    counted-suc n timeout (timeout - 1, false) first ∙ ap (after 0) rest ∙ ap (λ t. (t, 0)) e

counted_through :
    (n timeout : ℕ) → suc n ≡ timeout → timeout < infinite_wait → counted (suc n) timeout ≡ (0, 1)
unfolding count_timeout
counted_through zero timeout e high = rw (sym e) refl
counted_through (suc n) timeout e high =
    let first = count_timeout_on timeout (omega (arith, e)) high in
    counted-suc (suc n) timeout (timeout - 1, false) first
    ∙ ap (after 0) (counted_through n (timeout - 1) (omega (arith, e)) (omega (arith, high)))

-- The seconds and nanoseconds that the arithmetic of nanosleep can count.
abbrev pub IsCounted : Timespec → Type 0
IsCounted req = (req.tv_sec < 21474836) × (10000000 ≤ req.tv_nsec) × (req.tv_nsec ≤ 21474836)

request_ticks_lem :
    (req : Timespec) → IsCounted req → request_ticks req ≡ req.tv_sec * hz + req.tv_nsec / 10000000
unfolding request_ticks
request_ticks_lem req (secs, low, high) =
    let whole : u32 (req.tv_nsec * hz) ≡ req.tv_nsec * hz = omega (arith, high) in
    rw (not_lt→ltb req.tv_nsec 10000000 low) (
      rw whole (
        rw (not_le→leb (2 ^ 31) (req.tv_nsec * hz) (omega (arith, high)))
          (omega (arith, secs, low, high))))

-- A request that is in order and takes some ticks.
sleep_of :
    (req : Timespec) (left : ℕ → ℕ) (timeout : ℕ)
    → req.tv_sec < 2 ^ 31
    → req.tv_nsec < nsecs
    → 0 < request_ticks req
    → let rest = left (request_ticks req) in
      sys_nanosleep req false none none left timeout
      ≡ (if rest == 0 then (0, none, success) else (rest, none, fail intr))
unfolding sys_nanosleep
sleep_of req left timeout secs nsec some_ticks =
    rw (not_le→leb (2 ^ 31) req.tv_sec secs)
      (rw (not_le→leb nsecs req.tv_nsec nsec) (rw (not_zero (request_ticks req) some_ticks) refl))

-- A request, without a `rem`, of at least 10 ms and at most 21474836 ns, and fewer than 21474836
-- seconds: while no signal comes, nanosleep sleeps for as many ticks as the request has 10 ms, is woken
-- once, by the last of them, and succeeds; where a signal ends the sleep after fewer ticks, it fails
-- with -EINTR, and the ticks that are left stay in the timeout.
pub sys_nanosleep_lem :
    (req : Timespec) (n timeout : ℕ)
    → IsCounted req
    → n < req.tv_sec * hz + req.tv_nsec / 10000000
    → let ticks : ℕ = req.tv_sec * hz + req.tv_nsec / 10000000 in
      (sys_nanosleep req false none none undisturbed timeout ≡ (0, none, success))
      × (counted ticks (request_ticks req) ≡ (0, 1))
      × (sys_nanosleep req false none none (signalled_after n) timeout
          ≡ (ticks - n, none, fail intr))
sys_nanosleep_lem req n timeout ok lt =
    let ticks = request_ticks req in
    let (secs, low, high) = ok in
    let e = request_ticks_lem req ok in
    let whole_secs : req.tv_sec < 2 ^ 31 = omega (arith, secs) in
    let short : req.tv_nsec < nsecs = omega (arith, high) in
    let small : ticks < infinite_wait = omega (arith, e, secs, high) in
    let positive : 0 < ticks = omega (arith, e, lt) in
    let k : suc (ticks - 1) ≡ ticks = omega (arith, positive) in
    let woken : counted ticks ticks ≡ (0, 1) =
      ap (λ m. counted m ticks) (sym k) ∙ counted_through (ticks - 1) ticks k small in
    let cut = counted_before n ticks (omega (arith, e, lt)) small in
    let rest : (counted n ticks).0 ≡ ticks - n = ap (λ (r : ℕ × ℕ). r.0) cut in
    (
      sleep_of req undisturbed timeout whole_secs short positive
          ∙ rw (zero_is (counted ticks ticks).0 (ap (λ (r : ℕ × ℕ). r.0) woken)) refl,
      ap (λ m. counted m ticks) (sym e) ∙ woken,
      sleep_of req (signalled_after n) timeout whole_secs short positive
          ∙ rw (not_zero (counted n ticks).0 (omega (arith, rest, e, lt)))
              (ap (λ (m : ℕ). (m, none, fail intr)) (rest ∙ ap (λ m. m - n) e)),
    )

endless :
    (req : Timespec)
    → req.tv_sec ≡ 0
    → 22949673 ≤ req.tv_nsec
    → req.tv_nsec ≤ 32949672
    → request_ticks req ≡ infinite_wait
unfolding request_ticks
endless req secs low high =
    let whole : u32 (req.tv_nsec * hz) ≡ req.tv_nsec * hz = omega (arith, high) in
    rw (not_lt→ltb req.tv_nsec 10000000 (omega (arith, low))) (
      rw whole (
        rw (le→leb (2 ^ 31) (req.tv_nsec * hz) (omega (arith, low)))
          (omega (arith, secs, low, high))))

-- A request of 0 seconds and between 22949673 and 32949672 ns, without a `rem`, never ends by itself:
-- nanosleep sets the timeout to INFINITE_WAIT; any number `n` of ticks leaves that timeout as it is and
-- wakes nobody; and a signal after `n` ticks makes the call fail with -EINTR, with the whole of
-- INFINITE_WAIT left.
pub nanosleep_forever :
    (req : Timespec) (n timeout : ℕ)
    → req.tv_sec ≡ 0
    → 22949673 ≤ req.tv_nsec
    → req.tv_nsec ≤ 32949672
    → (request_ticks req ≡ infinite_wait)
      × (counted n (request_ticks req) ≡ (infinite_wait, 0))
      × (sys_nanosleep req false none none (signalled_after n) timeout
          ≡ (infinite_wait, none, fail intr))
nanosleep_forever req n timeout secs low high =
    let e = endless req secs low high in
    let wait = ap (counted n) e ∙ counted-infinite_wait n in
    let rest = ap (λ (r : ℕ × ℕ). r.0) wait in
    (
      e,
      wait,
      sleep_of req (signalled_after n) timeout (omega (arith, secs)) (omega (arith, high))
            (omega (arith, e))
          ∙ rw rest refl,
    )
