-- ===== src/Signal/Kill/Changes.antt =====
-- How a table changes while signals are sent.
use fiwix_arm.Base.{
  Bool, List, [], ap, bit_or, differs, false, if-cases, inl, inr, ltb, not, refl, sym, true, ℕ,
  ◌&&◌, ◌+◌, ◌==◌, ◌||◌, ◌∙◌, ◌∷◌, ◌≡◌, ◌⊎◌,
}
use fiwix_arm.Process.{init_pid, pf_notinterrupt, pf_kproc, has_bits, State, Proc, is_zombie}
use fiwix_arm.Signal.{
  is_stop, dropped_by_default, discard_stops, sig_ign, sigcont, sig_dfl, sigsegv, sigkill,
  is_stopped, is_asleep, handler, sigfpe, runnable, sig_bit, wakeup_proc, can_signal, send_sig,
  nsig, discard, force_fault, dispose, post, Sent,
}
use fiwix_arm.Signal.Reap.{is_child, reported}
use mathlib.Core.Path.{subst}

-- A zombie that the process in a slot may remove.
abbrev pub is_reapable : ℕ → Proc → Bool
is_reapable current p = is_child current p && is_zombie p.state

-- What may become of a process: it stays in its slot, and as what it may be reaped or not; and the
-- caller may signal it, or it is as it was, or it is a child of the caller that has been reported as
-- stopped.
abbrev pub Changed : Proc → Proc → Proc → Type 0
Changed current p q =
    (q.slot ≡ p.slot)
    × (is_reapable current.slot q ≡ is_reapable current.slot p)
    × ((can_signal current p ≡ true)
        ⊎ (q ≡ p)
        ⊎ ((is_child current.slot p ≡ true) × (q ≡ reported p)))

-- A table from another, in the same order: a process is there, changed like this, or it was a zombie
-- and a child of the caller.
abbrev pub Untouched : Proc → List Proc → List Proc → Type 0
Untouched current [] new = new ≡ []
Untouched current (p ∷ ps) new =
    ((is_reapable current.slot p ≡ true) × Untouched current ps new)
    ⊎ ((q : Proc) × (qs : List Proc) × (new ≡ q ∷ qs)
        × Changed current p q
        × Untouched current ps qs)

pub Changed-refl : (current p : Proc) → Changed current p p
Changed-refl current p = (refl, refl, inr (inl refl))

pub Untouched-refl : (current : Proc) (ps : List Proc) → Untouched current ps ps
Untouched-refl current [] = refl
Untouched-refl current (p ∷ ps) =
    inr (p, ps, refl, Changed-refl current p, Untouched-refl current ps)

can_signal_same :
    (current p q : Proc)
    → q.euid ≡ p.euid
    → q.sid ≡ p.sid
    → can_signal current q ≡ can_signal current p
unfolding can_signal
can_signal_same current p q e s = rw (e, s) refl

Changed-trans :
    (current p q r : Proc) → Changed current p q → Changed current q r → Changed current p r
unfolding can_signal
Changed-trans current p q r (slot, zombie, how) (slot', zombie', how') =
    (slot' ∙ slot, zombie' ∙ zombie, both how how')
  where
    How : Proc → Proc → Type 0
    How x y =
        (can_signal current x ≡ true)
        ⊎ (y ≡ x)
        ⊎ ((is_child current.slot x ≡ true) × (y ≡ reported x))

    both : How p q → How q r → How p r
    both (inl right) k = inl right
    both (inr (inl e)) k = subst (λ x. How x r) e k
    both (inr (inr (child, e))) (inl right) = inl (sym (ap (can_signal current) e) ∙ right)
    both (inr (inr (child, e))) (inr (inl e')) = inr (inr (child, e' ∙ e))
    both (inr (inr (child, e))) (inr (inr (c, e'))) = inr (inr (child, e' ∙ ap reported e))

pub Untouched-trans :
    (current : Proc) (ps qs rs : List Proc)
    → Untouched current ps qs
    → Untouched current qs rs
    → Untouched current ps rs
Untouched-trans current [] qs rs h k = subst (λ l. Untouched current l rs) h k
Untouched-trans current (p ∷ ps) qs rs (inl (gone, h)) k =
    inl (gone, Untouched-trans current ps qs rs h k)
Untouched-trans current (p ∷ ps) qs rs (inr (q, qs', e, how, h)) k =
    elim (subst (λ l. Untouched current l rs) e k) [
      | inl (gone, k') ↦ inl (sym how.1 ∙ gone, Untouched-trans current ps qs' rs h k')
      | inr (r, rs', e', how', k') ↦ inr (
        r,
        rs',
        e',
        Changed-trans current p q r how how',
        Untouched-trans current ps qs' rs' h k',
      )
    ]

-- What a signal leaves of a process whoever it is.
abbrev Same : Proc → Proc → Type 0
Same p q = (q.slot ≡ p.slot) × (q.ppid ≡ p.ppid) × (is_zombie q.state ≡ is_zombie p.state)

Same-trans : (p q r : Proc) → Same p q → Same q r → Same p r
Same-trans p q r (a, b, c) (a', b', c') = (a' ∙ a, b' ∙ b, c' ∙ c)

woken_is_none : (s : State) → not (is_asleep s) && not (is_stopped s) ≡ false → false ≡ is_zombie s
woken_is_none State.running h = refl
woken_is_none State.sleeping h = refl
woken_is_none State.zombie h = absurd (differs refl h)
woken_is_none State.stopped h = refl
woken_is_none State.idle h = refl

stopped_is_none : (s : State) → is_stopped s ≡ true → false ≡ is_zombie s
stopped_is_none State.running h = refl
stopped_is_none State.sleeping h = refl
stopped_is_none State.zombie h = absurd (differs h refl)
stopped_is_none State.stopped h = refl
stopped_is_none State.idle h = refl

wakeup_proc-Same : (p : Proc) → Same p (wakeup_proc p)
unfolding wakeup_proc runnable
wakeup_proc-Same p =
    if-cases (Same p) (not (is_asleep p.state) && not (is_stopped p.state))
      (λ e. (refl, refl, refl))
      (λ e.
        if-cases (Same p) (has_bits p.flags pf_notinterrupt) (λ f. (refl, refl, refl))
          (λ f. (refl, refl, woken_is_none p.state e)))

post-Same : (p : Proc) (signum : ℕ) → Same p (post p signum)
unfolding post
post-Same p signum =
    let q : Proc = record p {
      sigpending = bit_or p.sigpending (sig_bit signum);
      nsignals = p.nsignals + 1;
    } in
    if-cases (Same p) (not (has_bits q.sigblocked (sig_bit signum))) (λ e. wakeup_proc-Same q)
      (λ e. (refl, refl, refl))

discard-Same : (p : Proc) (signum : ℕ) → Same p (discard p signum)
unfolding discard runnable
discard-Same p signum =
    if-cases (Same p) (signum == sigkill || signum == sigcont)
      (λ e.
        if-cases (λ (r : Proc). Same p (record r { sigpending = discard_stops p.sigpending }))
          (is_stopped p.state) (λ f. (refl, refl, stopped_is_none p.state f))
          (λ f. (refl, refl, refl)))
      (λ e. if-cases (Same p) (is_stop signum) (λ f. (refl, refl, refl)) (λ f. (refl, refl, refl)))

force_fault-Same : (p : Proc) (signum : ℕ) → Same p (force_fault p signum)
unfolding force_fault
force_fault-Same p signum =
    if-cases (Same p) ((signum == sigfpe || signum == sigsegv) && handler p signum == sig_ign)
      (λ e. (refl, refl, refl)) (λ e. (refl, refl, refl))

dispose-Same : (p : Proc) (signum : ℕ) → Same p (dispose p signum).receiver
unfolding dispose
dispose-Same p signum =
    let Kept : Sent → Type 0 = λ s. Same p s.receiver in
    if-cases Kept (handler p signum == sig_dfl && (p.pid == init_pid || dropped_by_default signum))
      (λ e. (refl, refl, refl))
      (λ e.
        if-cases Kept (handler p signum == sig_ign) (λ f. (refl, refl, refl))
          (λ f. post-Same p signum))

send_sig-Same : (p : Proc) (signum : ℕ) → Same p (send_sig p signum).receiver
unfolding send_sig
send_sig-Same p signum =
    let Kept : Sent → Type 0 = λ s. Same p s.receiver in
    let d = discard p signum in
    let f = force_fault d signum in
    if-cases Kept (ltb nsig signum) (λ e. (refl, refl, refl))
      (λ e.
        if-cases Kept (has_bits p.flags pf_kproc || signum == 0) (λ e. (refl, refl, refl))
          (λ e. Same-trans p d (dispose f signum).receiver (discard-Same p signum) (
            Same-trans d f (dispose f signum).receiver (force_fault-Same d signum)
              (dispose-Same f signum))))

pub send_sig-Changed :
    (current p : Proc) (signum : ℕ)
    → can_signal current p ≡ true
    → Changed current p (send_sig p signum).receiver
send_sig-Changed current p signum right =
    let (slot, ppid, zombie) = send_sig-Same p signum in
    (
      slot,
      ap (λ x. (x == current.slot) && is_zombie (send_sig p signum).receiver.state) ppid
          ∙ ap (λ b. (p.ppid == current.slot) && b) zombie,
      inl right,
    )
