-- ===== src/Signal/Issig.antt =====
-- kernel/signal.c, `issig`: which pending signal a process is to act on.
use fiwix_arm.Base.{
  Bool, Bool-cases, ap, arith, bit_and, false, if◌then◌else◌, inl, inr, not, refl, suc, true, zero,
  ℕ, ◌&&◌, ◌+◌, ◌-◌, ◌<◌, ◌==◌, ◌^◌, ◌||◌, ◌∙◌, ◌≡◌, ◌≢◌, ◌≤◌,
}
use fiwix_arm.Signal.{sig_dfl, sig_ign, sig_bit, handler, nsig, has_bits, not32, sigchld, Proc}
use native.Mathlib.Decide.{ℕ_discrete}
use fiwix_arm.Signal.Discard.{pending}
use fiwix_arm.Signal.Pending.{ne_zero_of_testbit, in_mask, has_bits-sig_bit, in_mask_clear}
use fiwix_arm.Base.Bits.{testbit-not32, testbit-bit_and, testbit-le}

-- The process afterwards, whether its zombies were reaped, and the signal, 0 for none.
pub record Issig : Type 0 where
  pub current : Proc
  pub reaps : Bool
  pub signum : ℕ

-- The pending signal is returned, not dropped.
abbrev pub is_acted_on : Proc → ℕ → Bool
is_acted_on p signum =
    if signum == sigchld
    then not (handler p signum == sig_ign) && not (handler p signum == sig_dfl)
    else not (handler p signum == sig_ign)

abbrev pub is_reaping : Proc → ℕ → Bool
is_reaping p signum = signum == sigchld && handler p signum == sig_ign

abbrev pub drop_signal : Proc → ℕ → Proc
drop_signal p signum = record p { sigpending = bit_and p.sigpending (not32 (sig_bit signum)) }

-- The loop, with `fuel` signals left to look at.
pub issig_loop : ℕ → ℕ → Proc → Bool → Issig
issig_loop zero signum p reaps = record { current = p; reaps = reaps; signum = 0 }
issig_loop (suc fuel) signum p reaps =
    let skip = issig_loop fuel (signum + 1) p reaps in
    let drop = issig_loop fuel (signum + 1) (drop_signal p signum) (reaps || is_reaping p signum) in
    if has_bits p.sigpending (sig_bit signum)
    then (if is_acted_on p signum
        then record { current = p; reaps = reaps; signum = signum }
        else drop)
    else skip

-- `signum` runs from 1 to NSIG - 1.
pub issig : Proc → Issig
issig current =
    if has_bits current.sigpending (not32 current.sigblocked)
    then issig_loop 31 1 current false
    else record { current = current; reaps = false; signum = 0 }

-- What the scan of `p` from `s` on returns: the first signal below NSIG that is pending and acted on,
-- or 0 if there is none, and then no signal from `s` on is pending any more.
pub record Scanned (s : ℕ) (p : Proc) (out : Issig) : Type 0 where
  pub found :
      out.signum ≢ 0
      → (s ≤ out.signum)
        × (out.signum < nsig)
        × (pending p out.signum ≡ 1)
        × (is_acted_on p out.signum ≡ true)
  pub first :
      (n : ℕ)
      → s ≤ n
      → n < nsig
      → pending p n ≡ 1
      → is_acted_on p n ≡ true
      → (out.signum ≢ 0) × (out.signum ≤ n)
  pub kept : (n : ℕ) → 1 ≤ n → n < s → pending out.current n ≡ pending p n
  pub cleared : out.signum ≡ 0 → (n : ℕ) → s ≤ n → n < nsig → pending out.current n ≡ 0

pending-drop_signal :
    (p : Proc) (s n : ℕ)
    → 1 ≤ s
    → s < nsig
    → 1 ≤ n
    → n < nsig
    → pending (drop_signal p s) n ≡ (if s == n then 0 else pending p n)
pending-drop_signal p s n hs ls hn ln =
    in_mask_clear p.sigpending s n (hs, omega arith) (hn, omega arith)

scan_skip :
    (s : ℕ) (p : Proc) (out : Issig)
    → 1 ≤ s
    → s < nsig
    → pending p s ≡ 0
    → Scanned (s + 1) p out
    → Scanned s p out
scan_skip s p out hs lt absent ih = record {
  found = λ nz. let (a, b, c, d) = ih.found nz in (omega arith, b, c, d);
  first = λ n lo hi there acts. elim (ℕ_discrete s n) [
    | yes e ↦ absurd (omega (arith, ap (λ t. pending p t) e))
    | no ne ↦ ih.first n (omega arith) hi there acts
  ];
  kept = λ n one below. ih.kept n one (omega arith);
  cleared = λ z n lo hi. elim (ℕ_discrete s n) [
    | yes e ↦ rw (← e) (ih.kept s hs (omega arith) ∙ absent)
    | no ne ↦ ih.cleared z n (omega arith) hi
  ];
}

scan_stop :
    (s : ℕ) (p : Proc) (r : Bool)
    → 1 ≤ s
    → s < nsig
    → pending p s ≡ 1
    → is_acted_on p s ≡ true
    → Scanned s p (record { current = p; reaps = r; signum = s })
scan_stop s p r hs lt there acts = record {
  found = λ nz. (omega arith, lt, there, acts);
  first = λ n lo hi _ _. (omega arith, lo);
  kept = λ n one below. refl;
  cleared = λ z n lo hi. absurd (omega arith);
}

scan_drop :
    (s : ℕ) (p : Proc) (out : Issig)
    → 1 ≤ s
    → s < nsig
    → is_acted_on p s ≡ false
    → Scanned (s + 1) (drop_signal p s) out
    → Scanned s p out
scan_drop s p out hs lt idle ih = record {
  found = λ nz.
      let (a, b, c, d) = ih.found nz in
      (
        omega arith,
        b,
        ground (arith, c, pending-drop_signal p s out.signum hs lt (omega arith) b),
        d,
      );
  first = λ n lo hi there acts. elim (ℕ_discrete s n) [
    | yes e ↦ absurd (clash n e acts)
    | no ne ↦
        ih.first n (omega arith) hi
          (ground (arith, pending-drop_signal p s n hs lt (omega arith) hi)) acts
  ];
  kept = λ n one below.
      ih.kept n one (omega arith)
      ∙ ground (arith, pending-drop_signal p s n hs lt one (omega arith));
  cleared = λ z n lo hi. elim (ℕ_discrete s n) [
    | yes e ↦
        rw (← e)
          (ih.kept s hs (omega arith) ∙ ground (arith, pending-drop_signal p s s hs lt hs lt))
    | no ne ↦ ih.cleared z n (omega arith) hi
  ];
}
  where
    clash : (n : ℕ) → s ≡ n → is_acted_on p n ≡ true → ⊥
    clash n e acts = cc (acts, idle, ap (λ t. is_acted_on p t) e)

issig_loop-Scanned :
    (fuel s : ℕ) (p : Proc) (r : Bool)
    → 1 ≤ s
    → s + fuel ≡ nsig
    → Scanned s p (issig_loop fuel s p r)
unfolding issig_loop
issig_loop-Scanned zero s p r hs e = record {
  found = λ nz. absurd (nz refl);
  first = λ n lo hi there acts. absurd (omega arith);
  kept = λ n one below. refl;
  cleared = λ z n lo hi. absurd (omega arith);
}
issig_loop-Scanned (suc fuel) s p r hs e = elim (Bool-cases (has_bits p.sigpending (sig_bit s))) [
  | inr absent ↦ rw absent (
      scan_skip s p _ hs (omega arith)
        (ground (arith, has_bits-sig_bit p.sigpending s, testbit-le (s - 1) p.sigpending))
        (issig_loop-Scanned fuel (s + 1) p r (omega arith) (omega arith)))
  | inl there ↦ elim (Bool-cases (is_acted_on p s)) [
    | inl acts ↦
        rw (there, acts)
          (scan_stop s p r hs (omega arith) (ground (arith, has_bits-sig_bit p.sigpending s)) acts)
    | inr idle ↦
        rw (there, idle)
          (scan_drop s p _ hs (omega arith) idle (
            issig_loop-Scanned fuel (s + 1) (drop_signal p s) (r || is_reaping p s) (omega arith)
              (omega arith)))
  ]
]

-- When some pending signal is not blocked, `issig` returns the lowest signal from 1 to 31 that is
-- pending and acted on, and 0 if there is none; it returns 0 only with none of the signals from 1
-- to 31 pending any more.
pub issig_lowest :
    (p : Proc) → has_bits p.sigpending (not32 p.sigblocked) ≡ true → Scanned 1 p (issig p)
unfolding issig
issig_lowest p open_ = rw open_ (issig_loop-Scanned 31 1 p false (omega arith) refl)

-- `issig` does not look at the blocked signals one by one: if a signal from 1 to 31 is pending and
-- acted on, and any pending signal is not blocked, then `issig` returns that signal or a lower one,
-- although every signal up to it be blocked.
pub issig_blocked :
    (p : Proc) (s t : ℕ)
    → 1 ≤ s
    → s < t
    → t < nsig
    → pending p s ≡ 1
    → is_acted_on p s ≡ true
    → ((n : ℕ) → 1 ≤ n → n ≤ s → in_mask p.sigblocked n ≡ 1)
    → pending p t ≡ 1
    → in_mask p.sigblocked t ≡ 0
    → p.sigblocked < 2 ^ 32
    → ((issig p).signum ≢ 0) × ((issig p).signum ≤ s) × (in_mask p.sigblocked (issig p).signum ≡ 1)
issig_blocked p s t one lt big there acts blocked tp tb word =
    (r.0, r.1, blocked (issig p).signum (omega (arith, r.0)) r.1)
  where
    seen : in_mask (bit_and p.sigpending (not32 p.sigblocked)) t ≡ 1
    seen = ground (
      arith,
      testbit-bit_and (t - 1) p.sigpending (not32 p.sigblocked),
      testbit-not32 (t - 1) p.sigblocked word (omega arith),
    )

    opened : has_bits p.sigpending (not32 p.sigblocked) ≡ true
    opened = ne_zero_of_testbit (bit_and p.sigpending (not32 p.sigblocked)) (t - 1) seen

    r : ((issig p).signum ≢ 0) × ((issig p).signum ≤ s)
    r = (issig_lowest p opened).first s one (omega arith) there acts
