-- ===== src/Callout/Insert.antt =====
-- Adding and deleting callouts changes the schedule as it should.
use fiwix_arm.Base.{
  Bool-cases, List, [], ap, ap₂, arith, inl, inr, length, none, refl, some, suc, sym, ℕ, ◌+◌, ◌-◌,
  ◌<◌, ◌^◌, ◌∙◌, ◌∷◌, ◌≡◌, ◌⊎◌,
}
use fiwix_arm.Callout.{
  insert_free, is_for, add_callout, del_callout, Callouts, find, u32, after_deleted, delete_from,
  insert_callout, Callout,
}
use fiwix_arm.Callout.Schedule.{remove_event, add_event, events, span, Event}
use native.Mathlib.Decide.{dec_lt}

pub events-insert_callout :
    (base : ℕ) (c : Callout) (q : List Callout)
    → events base (insert_callout c q)
      ≡ add_event (record { time = base + c.expires; fn = c.fn; arg = c.arg }) (events base q)
unfolding insert_callout
events-insert_callout base c [] = refl
events-insert_callout base c (t ∷ rest) = elim (dec_lt c.expires t.expires) [
  | yes p ↦
      let e : base + c.expires + (t.expires - c.expires) ≡ base + t.expires = omega arith in
      ground (arith, e)
  | no np ↦
      let e : base + t.expires + (c.expires - t.expires) ≡ base + c.expires = omega arith in
      ground (
        arith,
        e,
        events-insert_callout (base + t.expires) (record c { expires = c.expires - t.expires })
            rest,
      )
]

events-after_deleted :
    (base : ℕ) (c : Callout) (rest : List Callout)
    → c.expires + span rest < 2 ^ 31
    → events base (after_deleted c rest) ≡ events (base + c.expires) rest
events-after_deleted base c [] b = refl
events-after_deleted base c (t ∷ rest) b =
    let e : base + u32 (t.expires + c.expires) ≡ base + c.expires + t.expires = omega arith in rw e

events-delete_from :
    (base fn arg : ℕ) (q : List Callout)
    → span q < 2 ^ 31
    → events base (delete_from fn arg q) ≡ remove_event fn arg (events base q)
unfolding delete_from
events-delete_from base fn arg [] b = refl
events-delete_from base fn arg (c ∷ rest) b =
    ground
      (arith, events-after_deleted base c rest, events-delete_from (base + c.expires) fn arg rest)

delete_from-find :
    (fn arg : ℕ) (q : List Callout)
    → ((find fn arg q ≡ none) × (delete_from fn arg q ≡ q))
      ⊎ ((c : Callout) × (find fn arg q ≡ some c)
          × (length q ≡ suc (length (delete_from fn arg q))))
unfolding find delete_from
delete_from-find fn arg [] = inl (refl, refl)
delete_from-find fn arg (c ∷ rest) = elim (Bool-cases (is_for fn arg c)) [
  | inl e ↦ inr (c, rw e refl, rw e (length-after_deleted c rest))
  | inr e ↦ elim (delete_from-find fn arg rest) [
    | inl (n, same) ↦ inl (rw e n, rw e (ap (λ l. c ∷ l) same))
    | inr (d, s, len) ↦ inr (d, rw e s, rw e (ap suc len))
  ]
]
  where
    length-after_deleted :
        (d : Callout) (l : List Callout) → suc (length l) ≡ suc (length (after_deleted d l))
    length-after_deleted d [] = refl
    length-after_deleted d (t ∷ l) = refl

-- The number of entries, on the chain or free.
abbrev pub entries : Callouts → ℕ
entries t = length t.queue + length t.pool

pub del_callout_lem :
    (fn arg : ℕ) (t : Callouts)
    → span t.queue < 2 ^ 31
    → (events 0 (del_callout fn arg t).queue ≡ remove_event fn arg (events 0 t.queue))
      × (entries (del_callout fn arg t) ≡ entries t)
unfolding del_callout
del_callout_lem fn arg t b = elim (delete_from-find fn arg t.queue) [
  | inl (n, same) ↦
      rw (del_callout, n)
        (rw (← events-delete_from 0 fn arg t.queue b) (ap (events 0) (sym same), refl))
  | inr (c, s, len) ↦
      rw (del_callout, s) (events-delete_from 0 fn arg t.queue b, omega (arith, len))
]

pub length-insert_callout :
    (c : Callout) (q : List Callout) → length (insert_callout c q) ≡ suc (length q)
unfolding insert_callout
length-insert_callout c [] = refl
length-insert_callout c (t ∷ rest) =
    ground (arith, length-insert_callout (record c { expires = c.expires - t.expires }) rest)

-- Adding a callout, in a table whose last event is due within 2^31 ticks, for a time below
-- 2^31: an earlier callout with
-- the same function and argument is taken out of the schedule, and the new one is put in at its
-- time, behind the events due up to then; or no entry is free, and only the earlier callout is gone.
-- Every other event keeps its time, and no entry gets lost.
pub add_callout_lem :
    (fn arg ticks : ℕ) (t : Callouts)
    → span t.queue < 2 ^ 31
    → ticks < 2 ^ 31
    → let e : Event = record { time = ticks; fn = fn; arg = arg } in
      let left = remove_event fn arg (events 0 t.queue) in
      let r = add_callout fn arg ticks t in
      (entries r ≡ entries t)
      × (((0 < length (del_callout fn arg t).pool) × (events 0 r.queue ≡ add_event e left))
          ⊎ ((length (del_callout fn arg t).pool ≡ 0) × (events 0 r.queue ≡ left)))
unfolding add_callout
add_callout_lem fn arg ticks t b short =
    let (view, kept) = del_callout_lem fn arg t b in
    with_pool (del_callout fn arg t) (del_callout fn arg t).pool refl view kept
  where
    with_pool :
        (t' : Callouts) (pool : List Callout)
        → t'.pool ≡ pool
        → events 0 t'.queue ≡ remove_event fn arg (events 0 t.queue)
        → entries t' ≡ entries t
        → (entries (insert_free fn arg ticks t' pool) ≡ entries t)
          × (((0 < length pool)
                × (events 0 (insert_free fn arg ticks t' pool).queue
                    ≡ add_event
                        (record { time = ticks; fn = fn; arg = arg })
                        (remove_event fn arg (events 0 t.queue))))
              ⊎ ((length pool ≡ 0)
                  × (events 0 (insert_free fn arg ticks t' pool).queue
                      ≡ remove_event fn arg (events 0 t.queue))))
    with_pool t' [] e view kept = (kept, inr (refl, view))
    with_pool t' (free ∷ pool) e view kept =
        let c : Callout = record { expires = ticks; fn = fn; arg = arg } in
        let at : ℕ → Event = λ k. record { time = k; fn = fn; arg = arg } in
        (
          omega (arith, ap length e, kept, length-insert_callout c t'.queue),
          inl (
            omega arith,
            events-insert_callout 0 c t'.queue ∙ ap₂ add_event (ap at (omega arith)) view,
          ),
        )
