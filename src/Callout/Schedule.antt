-- ===== src/Callout/Schedule.antt =====
-- The abstract view of the table: what is called when, counted from now.
use fiwix_arm.Base.{List, [], if◌then◌else◌, leb, ltb, ℕ, ◌&&◌, ◌+◌, ◌-◌, ◌==◌, ◌∷◌}
use fiwix_arm.Callout.{Callout}

pub record Event : Type 0 where
  pub time : ℕ
  pub fn : ℕ
  pub arg : ℕ

-- The events of a chain whose first entry counts from `base`.
abbrev pub events : ℕ → List Callout → List Event
events base [] = []
events base (c ∷ rest) =
    record { time = base + c.expires; fn = c.fn; arg = c.arg } ∷ events (base + c.expires) rest

-- An event comes behind those that are due earlier or at the same time.
abbrev pub add_event : Event → List Event → List Event
add_event e [] = e ∷ []
add_event e (s ∷ rest) = if ltb e.time s.time then e ∷ s ∷ rest else s ∷ add_event e rest

abbrev pub remove_event : ℕ → ℕ → List Event → List Event
remove_event fn arg [] = []
remove_event fn arg (s ∷ rest) =
    if s.fn == fn && s.arg == arg then rest else s ∷ remove_event fn arg rest

-- How long a chain goes on, which is when its last event is due.
abbrev pub span : List Callout → ℕ
span [] = 0
span (c ∷ rest) = c.expires + span rest

-- What is due up to tick `n`, and what is left then.
abbrev pub due_by : ℕ → List Event → List (ℕ × ℕ)
due_by n [] = []
due_by n (s ∷ rest) = if leb s.time n then (s.fn, s.arg) ∷ due_by n rest else []

abbrev pub left_after : ℕ → List Event → List Event
left_after n [] = []
left_after n (s ∷ rest) =
    if leb s.time n then left_after n rest else record s { time = s.time - n } ∷ left_after n rest
