-- ===== src/Timer/Accounting.antt =====
-- What a process is charged for its ticks.
use fiwix_arm.Base.{
  if-cases, Bool, List, [], arith, false, if◌then◌else◌, leb, true, ℕ, ◌*◌, ◌+◌, ◌<◌, ◌∷◌, ◌≡◌,
}
use fiwix_arm.Timer.{Timeval, Account, charge, add_tick, usecs, tick_usecs}

-- The time in microseconds
abbrev pub in_usecs : Timeval → ℕ
in_usecs tv = tv.tv_sec * usecs + tv.tv_usec

abbrev pub IsTime : Timeval → Type 0
IsTime tv = tv.tv_usec < usecs

-- The ticks of a list, each with whether it found the process in the kernel.
abbrev pub charges : List Bool → ℕ → Account → Account
charges [] limit a = a
charges (k ∷ ks) limit a = charges ks limit (charge k limit a).0

-- How many of the ticks are of one kind.
abbrev pub ticks_in : Bool → List Bool → ℕ
ticks_in kind [] = 0
ticks_in kind (k ∷ ks) =
    (if kind then (if k then 1 else 0) else if k then 0 else 1) + ticks_in kind ks

add_tick_lem :
    (tv : Timeval)
    → IsTime tv
    → IsTime (add_tick tv) × (in_usecs (add_tick tv) ≡ in_usecs tv + tick_usecs)
unfolding add_tick
add_tick_lem tv ok =
    if-cases (λ (r : Timeval). IsTime r × (in_usecs r ≡ in_usecs tv + tick_usecs))
      (leb usecs (tv.tv_usec + tick_usecs)) (λ e. (ground (arith, e, ok), ground (arith, e, ok)))
      (λ e. (ground (arith, e, ok), ground (arith, e, ok)))

-- However the ticks of a process are spread over user and kernel mode: the microseconds of both times
-- stay below a second, and each time grows by the length of a tick for each tick in its mode.
pub charges_lem :
    (ks : List Bool) (limit : ℕ) (a : Account)
    → IsTime a.utime
    → IsTime a.stime
    → let r = charges ks limit a in
      IsTime r.utime
      × IsTime r.stime
      × (in_usecs r.utime ≡ in_usecs a.utime + ticks_in false ks * tick_usecs)
      × (in_usecs r.stime ≡ in_usecs a.stime + ticks_in true ks * tick_usecs)
unfolding charge
charges_lem [] limit a u s = (u, s, omega arith, omega arith)
charges_lem (true ∷ ks) limit a u s =
    let (ok, more) = add_tick_lem a.stime s in
    let (u', s', user, kernel) = charges_lem ks limit (charge true limit a).0 u ok in
    (u', s', omega (arith, user), omega (arith, kernel, more))
charges_lem (false ∷ ks) limit a u s =
    let (ok, more) = add_tick_lem a.utime u in
    let (u', s', user, kernel) = charges_lem ks limit (charge false limit a).0 ok s in
    (u', s', omega (arith, user, more), omega (arith, kernel))
