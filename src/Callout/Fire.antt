-- ===== src/Callout/Fire.antt =====
-- Callouts are called at their time.
use fiwix_arm.Base.{
  le→leb, List, Option, Option-elim, [], ap, arith, false, if-cases, inl, inr, length, lt→ltb,
  not_lt→ltb, refl, some, suc, sym, zero, ℕ, ◌++◌, ◌+◌, ◌-◌, ◌<◌, ◌^◌, ◌∙◌, ◌∷◌, ◌≡◌, ◌≤◌, ◌⊎◌,
}
use fiwix_arm.Callout.{
  insert_free, find, is_for, add_callout, del_callout, delete_from, insert_callout, ticks_of, tick,
  Callouts, run_due, Calls, Callout,
}
use fiwix_arm.Callout.Schedule.{span, add_event, events, left_after, due_by, Event}
use native.Mathlib.Decide.{ℕ_discrete, dec_lt}
use fiwix_arm.Callout.Insert.{
  events-insert_callout, length-insert_callout, del_callout_lem, entries,
}
use mathlib.Core.Path.{subst}

-- The first entry is not due yet, which holds whenever the bottom half has run.
abbrev pub IsStarted : List Callout → Type 0
IsStarted [] = Unit
IsStarted (c ∷ rest) = 0 < c.expires

-- Functions that do not touch the table.
abbrev pub quiet : Calls
quiet fn arg t = t

due_by-later : (n base : ℕ) (q : List Callout) → n < base → due_by n (events base q) ≡ []
due_by-later n base [] h = refl
due_by-later n base (c ∷ rest) h = ground arith

left_after-later :
    (n base : ℕ) (q : List Callout) → n < base → left_after n (events base q) ≡ events (base - n) q
left_after-later n base [] h = refl
left_after-later n base (c ∷ rest) h =
    let e : base + c.expires - n ≡ base - n + c.expires = omega arith in
    ground (arith, e, left_after-later n (base + c.expires) rest)

left_after_add : (m n : ℕ) (s : List Event) → left_after (m + n) s ≡ left_after n (left_after m s)
left_after_add m n [] = refl
left_after_add m n (s ∷ rest) =
    let e : s.time - (m + n) ≡ s.time - m - n = omega arith in
    ground (arith, e, left_after_add m n rest)

due_by_shift :
    (n base m : ℕ) (q : List Callout)
    → due_by (m + n) (events (m + base) q) ≡ due_by n (events base q)
due_by_shift n base m [] = refl
due_by_shift n base m (c ∷ rest) =
    let e : m + base + c.expires ≡ m + (base + c.expires) = omega arith in
    ground (arith, e, due_by_shift n (base + c.expires) m rest)

due_by_add :
    (m n base : ℕ) (q : List Callout)
    → due_by (m + n) (events base q)
      ≡ due_by m (events base q) ++ due_by n (left_after m (events base q))
due_by_add m n base [] = refl
due_by_add m n base (c ∷ rest) = elim (dec_lt m (base + c.expires)) [
  | yes p ↦
      let k = base + c.expires - m in
      let e : base + c.expires ≡ m + k = omega arith in
      let later : due_by (m + n) (events (base + c.expires) rest) ≡ due_by n (events k rest) =
        ap (λ b. due_by (m + n) (events b rest)) e ∙ due_by_shift n k m rest in
      ground (arith, later, left_after-later m (base + c.expires) rest)
  | no np ↦ ground (arith, due_by_add m n (base + c.expires) rest)
]

run_due_zero :
    (fuel : ℕ) (c : Callout) (rest pool : List Callout) (t : Callouts) (calls : List (ℕ × ℕ))
    → c.expires ≡ 0
    → run_due fuel false quiet (record { queue = rest; pool = c ∷ pool }) ≡ some (t, calls)
    → run_due (suc fuel) false quiet (record { queue = c ∷ rest; pool = pool })
      ≡ some (t, (c.fn, c.arg) ∷ calls)
unfolding run_due
run_due_zero fuel c rest pool t calls e ran = ground (arith, e, ran)

due_by_zero :
    (c : Callout) (rest : List Callout)
    → c.expires ≡ 0
    → (due_by 0 (events 0 (c ∷ rest)) ≡ (c.fn, c.arg) ∷ due_by 0 (events 0 rest))
      × (left_after 0 (events 0 (c ∷ rest)) ≡ left_after 0 (events 0 rest))
due_by_zero c rest e =
    let z : 0 + c.expires ≡ 0 = omega (arith, e) in
    (
      ground (arith, e, ap (λ b. due_by 0 (events b rest)) z),
      ground (arith, e, ap (λ b. left_after 0 (events b rest)) z),
    )

not_due :
    (c : Callout) (rest : List Callout)
    → 0 < c.expires
    → (due_by 0 (events 0 (c ∷ rest)) ≡ [])
      × (left_after 0 (events 0 (c ∷ rest)) ≡ events 0 (c ∷ rest))
not_due c rest h =
    let later = left_after-later 0 (0 + c.expires) rest (omega (arith, h)) in
    let at : ℕ → Event = λ k. record { time = k; fn = c.fn; arg = c.arg } in
    let z : 0 + c.expires - 0 ≡ 0 + c.expires = omega arith in
    (ground (arith, h), ground (arith, h, later, ap at z, ap (λ b. events b rest) z))

-- The loop of the bottom half calls what is due now.
run_due_lem :
    (fuel : ℕ) (q pool : List Callout)
    → length q < fuel
    → let s = events 0 q in
      (q' pool' : List Callout) × (run_due fuel false quiet (record { queue = q; pool = pool })
        ≡ some (record { queue = q'; pool = pool' }, due_by 0 s))
      × (events 0 q' ≡ left_after 0 s)
      × IsStarted q'
      × (length q' ≤ length q)
unfolding run_due
run_due_lem zero q pool lt = absurd (omega (arith, lt))
run_due_lem (suc fuel) [] pool lt = ([], pool, refl, refl, tt, omega arith)
run_due_lem (suc fuel) (c ∷ rest) pool lt = elim (ℕ_discrete c.expires 0) [
  | yes e ↦
      let (q', pool', ran, view, started, len) =
        run_due_lem fuel rest (c ∷ pool) (omega (arith, lt)) in
      let (calls, left) = due_by_zero c rest e in
      let result : List (ℕ × ℕ) → Option (Callouts × List (ℕ × ℕ)) =
        λ l. some (record { queue = q'; pool = pool' }, l) in
      (
        q',
        pool',
        run_due_zero fuel c rest pool (record { queue = q'; pool = pool' })
              (due_by 0 (events 0 rest)) e ran
            ∙ ap result (sym calls),
        view ∙ sym left,
        started,
        omega (arith, len),
      )
  | no ne ↦
      let (calls, left) = not_due c rest (omega (arith, ne)) in
      let result : List (ℕ × ℕ) → Option (Callouts × List (ℕ × ℕ)) =
        λ l. some (record { queue = c ∷ rest; pool = pool }, l) in
      let ran : run_due (suc fuel) false quiet (record { queue = c ∷ rest; pool = pool })
          ≡ result [] =
        ground (arith, ne) in
      (c ∷ rest, pool, ran ∙ ap result (sym calls), sym left, omega (arith, ne), omega arith)
]

-- Counting the first entry down moves every event one tick nearer.
left_after_shift :
    (n base m : ℕ) (q : List Callout)
    → left_after (m + n) (events (m + base) q) ≡ left_after n (events base q)
left_after_shift n base m [] = refl
left_after_shift n base m (c ∷ rest) =
    let e : m + base + c.expires ≡ m + (base + c.expires) = omega arith in
    let d : m + (base + c.expires) - (m + n) ≡ base + c.expires - n = omega arith in
    ground (arith, e, d, left_after_shift n (base + c.expires) m rest)

abbrev sooner : Callout → Callout
sooner c = record c { expires = c.expires - 1 }

nearer :
    (c : Callout) (rest : List Callout)
    → 0 < c.expires
    → (due_by 1 (events 0 (c ∷ rest)) ≡ due_by 0 (events 0 (sooner c ∷ rest)))
      × (left_after 1 (events 0 (c ∷ rest)) ≡ left_after 0 (events 0 (sooner c ∷ rest)))
nearer c rest h =
    let e : 0 + c.expires ≡ 1 + (c.expires - 1) = omega (arith, h) in
    let at : ℕ → List Event = λ b. record { time = b; fn = c.fn; arg = c.arg } ∷ events b rest in
    (
      ap (λ b. due_by 1 (at b)) e ∙ due_by_shift 0 0 1 (sooner c ∷ rest),
      ap (λ b. left_after 1 (at b)) e ∙ left_after_shift 0 0 1 (sooner c ∷ rest),
    )

-- One tick from a table whose first entry is not due yet.
tick_lem :
    (fuel : ℕ) (q pool : List Callout)
    → IsStarted q
    → length q < fuel
    → let s = events 0 q in
      (q' pool' : List Callout) × (tick fuel false quiet (record { queue = q; pool = pool })
        ≡ some (record { queue = q'; pool = pool' }, due_by 1 s))
      × (events 0 q' ≡ left_after 1 s)
      × IsStarted q'
      × (length q' ≤ length q)
unfolding tick
tick_lem fuel [] pool st lt = ([], pool, refl, refl, tt, omega arith)
tick_lem fuel (c ∷ rest) pool st lt = elim (ℕ_discrete c.expires 1) [
  | yes e ↦
      let (q', pool', ran, view, started, len) =
        run_due_lem fuel (sooner c ∷ rest) pool (omega (arith, lt)) in
      let result : List (ℕ × ℕ) → Option (Callouts × List (ℕ × ℕ)) =
        λ l. some (record { queue = q'; pool = pool' }, l) in
      (
        q',
        pool',
        ground (arith, e, ran) ∙ ap result (sym (nearer c rest st).0),
        view ∙ sym (nearer c rest st).1,
        started,
        omega (arith, len),
      )
  | no ne ↦
      let (calls, left) = not_due (sooner c) rest (omega (arith, st, ne)) in
      let result : List (ℕ × ℕ) → Option (Callouts × List (ℕ × ℕ)) =
        λ l. some (record { queue = sooner c ∷ rest; pool = pool }, l) in
      let ran : tick fuel false quiet (record { queue = c ∷ rest; pool = pool }) ≡ result [] =
        ground (arith, ne, st) in
      (
        sooner c ∷ rest,
        pool,
        ran ∙ ap result (sym calls ∙ sym (nearer c rest st).0),
        sym left ∙ sym (nearer c rest st).1,
        omega (arith, st, ne),
        omega arith,
      )
]

ticks_suc :
    (fuel n : ℕ) (t t1 t2 : Callouts) (a b : List (ℕ × ℕ))
    → tick fuel false quiet t ≡ some (t1, a)
    → ticks_of fuel n quiet t1 ≡ some (t2, b)
    → ticks_of fuel (suc n) quiet t ≡ some (t2, a ++ b)
unfolding ticks_of
ticks_suc fuel n t t1 t2 a b p q = ground (arith, p, q)

none_due :
    (q : List Callout)
    → IsStarted q
    → (due_by 0 (events 0 q) ≡ []) × (left_after 0 (events 0 q) ≡ events 0 q)
none_due [] st = (refl, refl)
none_due (c ∷ rest) st = not_due c rest st

-- With functions that leave the table alone, no first entry due, and fuel for the entries, `n` ticks
-- make exactly the calls that are due by then, in the order of the schedule, and every other event
-- is `n` ticks nearer.
pub ticks_of_lem :
    (fuel n : ℕ) (q pool : List Callout)
    → IsStarted q
    → length q < fuel
    → let s = events 0 q in
      (q' pool' : List Callout) × (ticks_of fuel n quiet (record { queue = q; pool = pool })
        ≡ some (record { queue = q'; pool = pool' }, due_by n s))
      × (events 0 q' ≡ left_after n s)
unfolding ticks_of
ticks_of_lem fuel zero q pool st lt =
    let (calls, left) = none_due q st in
    let result : List (ℕ × ℕ) → Option (Callouts × List (ℕ × ℕ)) =
      λ l. some (record { queue = q; pool = pool }, l) in
    (q, pool, ap result (sym calls), sym left)
ticks_of_lem fuel (suc n) q pool st lt =
    let (q1, pool1, ran1, view1, st1, len1) = tick_lem fuel q pool st lt in
    let (q2, pool2, ran2, view2) = ticks_of_lem fuel n q1 pool1 st1 (omega (arith, lt, len1)) in
    let k : suc n ≡ 1 + n = omega arith in
    let s = events 0 q in
    let result : List (ℕ × ℕ) → Option (Callouts × List (ℕ × ℕ)) =
      λ l. some (record { queue = q2; pool = pool2 }, l) in
    let calls : due_by 1 s ++ due_by n (events 0 q1) ≡ due_by (suc n) s =
      ap (λ e. due_by 1 s ++ due_by n e) view1
      ∙ sym (due_by_add 1 n 0 q)
      ∙ ap (λ m. due_by m s) (sym k) in
    let left : left_after n (events 0 q1) ≡ left_after (suc n) s =
      ap (left_after n) view1 ∙ sym (left_after_add 1 n s) ∙ ap (λ m. left_after m s) (sym k) in
    (
      q2,
      pool2,
      ticks_suc fuel n (record { queue = q; pool = pool }) (record { queue = q1; pool = pool1 })
            (record { queue = q2; pool = pool2 }) (due_by 1 s) (due_by n (events 0 q1)) ran1 ran2
          ∙ ap result calls,
      view2 ∙ left,
    )

-- `(fn, arg)` is among the calls.
abbrev pub WasCalled : ℕ → ℕ → List (ℕ × ℕ) → Type 0
WasCalled fn arg [] = ⊥
WasCalled fn arg (c ∷ calls) = ((c.0 ≡ fn) × (c.1 ≡ arg)) ⊎ WasCalled fn arg calls

WasCalled-due_by :
    (e : Event) (s : List Event) → WasCalled e.fn e.arg (due_by e.time (add_event e s))
WasCalled-due_by e [] = ground arith
WasCalled-due_by e (s ∷ rest) = elim (dec_lt e.time s.time) [
  | yes p ↦ rw (lt→ltb e.time s.time p) (rw (le→leb e.time e.time (omega arith)) (inl (refl, refl)))
  | no np ↦
      rw (not_lt→ltb e.time s.time (omega (arith, np)), le→leb s.time e.time (omega (arith, np)))
        (inr (WasCalled-due_by e rest))
]

IsStarted-insert_callout :
    (c : Callout) (q : List Callout) → 0 < c.expires → IsStarted q → IsStarted (insert_callout c q)
unfolding insert_callout
IsStarted-insert_callout c [] h st = h
IsStarted-insert_callout c (t ∷ rest) h st = elim (dec_lt c.expires t.expires) [
  | yes p ↦ rw (lt→ltb c.expires t.expires p) h
  | no np ↦ rw (not_lt→ltb c.expires t.expires (omega (arith, np))) st
]

IsStarted-delete_from :
    (fn arg : ℕ) (q : List Callout)
    → span q < 2 ^ 31
    → IsStarted q
    → IsStarted (delete_from fn arg q)
unfolding delete_from
IsStarted-delete_from fn arg [] b st = tt
IsStarted-delete_from fn arg (c ∷ []) b st =
    if-cases IsStarted (is_for fn arg c) (λ e. tt) (λ e. st)
IsStarted-delete_from fn arg (c ∷ t ∷ rest) b st =
    if-cases IsStarted (is_for fn arg c) (λ e. omega (arith, b, st)) (λ e. st)

IsStarted-del_callout :
    (fn arg : ℕ) (t : Callouts)
    → span t.queue < 2 ^ 31
    → IsStarted t.queue
    → IsStarted (del_callout fn arg t).queue
unfolding del_callout
IsStarted-del_callout fn arg t b st =
    Option-elim (λ (r : Callouts). IsStarted r.queue) (find fn arg t.queue) st
      (λ c e. IsStarted-delete_from fn arg t.queue b st)

-- A callout that is added for `ticks` ticks from now, not 0 and below 2^31, in a table whose last
-- event is due within 2^31 ticks, while no first entry is due and an entry
-- is free, is called within that many ticks, if the functions called meanwhile leave the table alone
-- and the fuel covers the entries.
pub callout_fires :
    (fn arg ticks fuel : ℕ) (t : Callouts) (free : Callout) (pool : List Callout)
    → span t.queue < 2 ^ 31
    → IsStarted t.queue
    → 0 < ticks
    → ticks < 2 ^ 31
    → (del_callout fn arg t).pool ≡ free ∷ pool
    → entries t < fuel
    → (t' : Callouts) × (calls : List (ℕ × ℕ)) × (ticks_of fuel ticks quiet
          (add_callout fn arg ticks t)
        ≡ some (t', calls))
      × WasCalled fn arg calls
unfolding add_callout
callout_fires fn arg ticks fuel t free pool b st pos short has_free enough =
    let d = del_callout fn arg t in
    let c : Callout = record { expires = ticks; fn = fn; arg = arg } in
    let e : Event = record { time = ticks; fn = fn; arg = arg } in
    let q = insert_callout c d.queue in
    let kept : entries d ≡ entries t = (del_callout_lem fn arg t b).1 in
    let fits : length q < fuel =
      omega (arith, length-insert_callout c d.queue, kept, ap length has_free, enough) in
    let start : List Callout → Option (Callouts × List (ℕ × ℕ)) =
      λ p. ticks_of fuel ticks quiet (insert_free fn arg ticks d p) in
    let at : ℕ → Event = λ k. record { time = k; fn = fn; arg = arg } in
    let added : events 0 q ≡ add_event e (events 0 d.queue) =
      events-insert_callout 0 c d.queue
      ∙ ap (λ k. add_event (at k) (events 0 d.queue)) (omega arith) in
    let (q', pool', ran, view) =
      ticks_of_lem fuel ticks q pool
        (IsStarted-insert_callout c d.queue pos (IsStarted-del_callout fn arg t b st)) fits in
    (
      record { queue = q'; pool = pool' },
      due_by ticks (events 0 q),
      ap start has_free ∙ ran,
      subst (λ s. WasCalled fn arg (due_by ticks s)) (sym added)
          (WasCalled-due_by e (events 0 d.queue)),
    )
