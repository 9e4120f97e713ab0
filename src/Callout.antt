-- ===== src/Callout.antt =====
-- kernel/timer.c: the table of callouts. The chain behind `callout_head` is a list, each entry with
-- the ticks that it is due after the one before, and so is the chain of free entries. A function is
-- its address; what a call of it does to the table is an argument.
pub mod Schedule
pub mod Insert
pub mod Fire
mod Tests
use fiwix_arm.Base.{
  Bool, List, Option, [], false, if◌then◌else◌, ltb, none, not, replicate, some, suc, true, zero, ℕ,
  ◌&&◌, ◌++◌, ◌+◌, ◌-◌, ◌==◌, ◌||◌, ◌∷◌,
}
use fiwix_arm.Base.Bits.{u32}

-- `struct callout`; its `expires`, an int, is its 32-bit pattern, which is compared as a number: the
-- theorems are about tables where every sum of them is below 2^31.
pub record Callout : Type 0 where
  pub expires : ℕ
  pub fn : ℕ
  pub arg : ℕ

pub record Callouts : Type 0 where
  pub queue : List Callout
  pub pool : List Callout

-- The first entry with the function and the argument leaves the chain; its ticks go to the next.
abbrev pub after_deleted : Callout → List Callout → List Callout
after_deleted c [] = []
after_deleted c (t ∷ rest) = record t { expires = u32 (t.expires + c.expires) } ∷ rest

abbrev pub is_for : ℕ → ℕ → Callout → Bool
is_for fn arg c = c.fn == fn && c.arg == arg

pub delete_from : ℕ → ℕ → List Callout → List Callout
delete_from fn arg [] = []
delete_from fn arg (c ∷ rest) =
    let later = delete_from fn arg rest in
    if is_for fn arg c then after_deleted c rest else c ∷ later

-- The entry that `del_callout` finds.
pub find : ℕ → ℕ → List Callout → Option Callout
find fn arg [] = none
find fn arg (c ∷ rest) = let later = find fn arg rest in if is_for fn arg c then some c else later

pub del_callout : ℕ → ℕ → Callouts → Callouts
unfolding delete_from find
del_callout fn arg t = elim (find fn arg t.queue) [
  | none ↦ t
  | some c ↦ record { queue = delete_from fn arg t.queue; pool = c ∷ t.pool }
]

-- The loop of `add_callout` with what is left of the ticks of `c`.
pub insert_callout : Callout → List Callout → List Callout
insert_callout c [] = c ∷ []
insert_callout c (t ∷ rest) =
    let later = insert_callout (record c { expires = c.expires - t.expires }) rest in
    if ltb c.expires t.expires
    then c ∷ record t { expires = t.expires - c.expires } ∷ rest
    else t ∷ later

-- With no free entry the old callout is gone and no new one is there.
abbrev pub insert_free : ℕ → ℕ → ℕ → Callouts → List Callout → Callouts
insert_free fn arg ticks t [] = t
insert_free fn arg ticks t (free ∷ pool) = record {
  queue = insert_callout (record { expires = ticks; fn = fn; arg = arg }) t.queue;
  pool = pool;
}

pub add_callout : ℕ → ℕ → ℕ → Callouts → Callouts
unfolding del_callout insert_callout
add_callout fn arg ticks t = let t' = del_callout fn arg t in insert_free fn arg ticks t' t'.pool

-- The part of `irq_timer_bh` that counts down, and whether it makes `do_callouts_bh` run. An entry
-- that was due before is not counted down.
abbrev pub count_down : List Callout → List Callout × Bool
count_down [] = ([], false)
count_down (c ∷ rest) =
    if ltb 0 c.expires
    then (record c { expires = c.expires - 1 } ∷ rest, c.expires - 1 == 0)
    else (c ∷ rest, true)

-- `fn(arg)`, as a change of the table
abbrev pub Calls : Type 0
Calls = ℕ → ℕ → Callouts → Callouts

-- The loop of `do_callouts_bh`, with the calls made; `busy` is AREA_CALLOUT.
pub run_due : ℕ → Bool → Calls → Callouts → Option (Callouts × List (ℕ × ℕ))
run_due zero busy call t = none
run_due (suc fuel) busy call t = elim t.queue [
  | [] ↦ some (t, [])
  | c ∷ rest ↦
      let popped : Callouts = record { queue = rest; pool = c ∷ t.pool } in
      let later : Option (Callouts × List (ℕ × ℕ)) =
        elim (run_due fuel busy call (call c.fn c.arg popped)) [
          | none ↦ none
          | some (t', calls) ↦ some (t', (c.fn, c.arg) ∷ calls)
        ] in
      if not (c.expires == 0) || busy then some (t, []) else later
]

-- One tick: the count down, and the bottom half where it is due.
pub tick : ℕ → Bool → Calls → Callouts → Option (Callouts × List (ℕ × ℕ))
unfolding run_due
tick fuel busy call t =
    let (queue, is_due) = count_down t.queue in
    let t' = record t { queue = queue } in
    let ran = run_due fuel busy call t' in if is_due then ran else some (t', [])

-- `n` ticks, with all the calls made
pub ticks_of : ℕ → ℕ → Calls → Callouts → Option (Callouts × List (ℕ × ℕ))
unfolding tick
ticks_of fuel zero call t = some (t, [])
ticks_of fuel (suc n) call t = elim (tick fuel false call t) [
  | none ↦ none
  | some (t', calls) ↦ elim (ticks_of fuel n call t') [
    | none ↦ none
    | some (t'', more) ↦ some (t'', calls ++ more)
  ]
]

-- The pool that `timer_init` leaves.
pub callout_pool : ℕ → List Callout
callout_pool n = replicate n (record { expires = 0; fn = 0; arg = 0 })
