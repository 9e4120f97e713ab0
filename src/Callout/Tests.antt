-- ===== src/Callout/Tests.antt =====
-- Runs of the callout table, and the theorems about it at concrete tables.
use fiwix_arm.Base.{List, [], arith, length, refl, some, ℕ, ◌<◌, ◌∷◌, ◌≡◌, ◌⊎◌}
use fiwix_arm.Callout.{del_callout, ticks_of, Callouts, Callout, add_callout}
use fiwix_arm.Callout.Fire.{callout_fires, WasCalled, quiet}
use fiwix_arm.Callout.Insert.{entries, add_callout_lem}
use fiwix_arm.Callout.Schedule.{add_event, remove_event, Event, events}

abbrev at : ℕ → ℕ → ℕ → Callout
at k f a = record { expires = k; fn = f; arg = a }

-- Due in 5, 8 and 8 ticks.
abbrev three : Callouts
three = record { queue = at 5 1 0 ∷ at 3 2 0 ∷ at 0 3 7 ∷ []; pool = at 0 0 0 ∷ [] }

-- The new one goes between; the one behind it counts from it.
added_between : (add_callout 9 9 6 three).queue ≡ at 5 1 0 ∷ at 1 9 9 ∷ at 2 2 0 ∷ at 0 3 7 ∷ []
unfolding add_callout
added_between = refl

-- A callout that is added again moves.
added_again : (add_callout 1 0 20 three).queue ≡ at 8 2 0 ∷ at 0 3 7 ∷ at 12 1 0 ∷ []
unfolding add_callout
added_again = refl

ticks_run :
    ticks_of 9 8 quiet three
    ≡ some (
      record { queue = []; pool = at 0 3 7 ∷ at 0 2 0 ∷ at 0 1 0 ∷ at 0 0 0 ∷ [] },
      (1, 0) ∷ (2, 0) ∷ (3, 7) ∷ [],
    )
unfolding ticks_of
ticks_run = refl

add_callout_lem_example :
    let e : Event = record { time = 6; fn = 9; arg = 9 } in
    let left = remove_event 9 9 (events 0 three.queue) in
    let r = add_callout 9 9 6 three in
    (entries r ≡ entries three)
    × (((0 < length (del_callout 9 9 three).pool) × (events 0 r.queue ≡ add_event e left))
        ⊎ ((length (del_callout 9 9 three).pool ≡ 0) × (events 0 r.queue ≡ left)))
add_callout_lem_example = add_callout_lem 9 9 6 three (omega arith) (omega arith)

free_one : (del_callout 9 9 three).pool ≡ at 0 0 0 ∷ []
unfolding del_callout
free_one = refl

callout_fires_example :
    (t' : Callouts) × (calls : List (ℕ × ℕ)) × (ticks_of 9 6 quiet (add_callout 9 9 6 three)
      ≡ some (t', calls))
    × WasCalled 9 9 calls
callout_fires_example =
    callout_fires 9 9 6 9 three (at 0 0 0) [] (omega arith) (omega arith) (omega arith)
      (omega arith) free_one (omega arith)
