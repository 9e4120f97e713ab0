-- ===== src/Sleep/Resource.antt =====
-- A resource and the processes that lock and unlock it, as a step relation: at most one process is
-- inside, and no process sleeps for a resource that is free.
use fiwix_arm.Base.{
  differs, Bool, ap, false, if-cases, if◌then◌else◌, inl, inr, refl, sym, true, ℕ, ◌∙◌, ◌≡◌, ◌≢◌,
}
use fiwix_arm.Base.Store.{update, Store, update_self, update_ne}
use fiwix_arm.Sleep.{
  Task, wakeup_chain, sleep_hash, wakeup, unlock_resource, lock_round, Queues, Lock,
}
use fiwix_arm.Sleep.Wake.{walked, kept-IsIn, IsIn, wakeup_lem}
use native.Mathlib.Decide.{ℕ_discrete}
use mathlib.Core.Path.{subst}

-- The resource, the queues, and which processes are between `lock_resource` and `unlock_resource`.
pub record Sys : Type 0 where
  pub resource : Lock
  pub queues : Queues
  pub inside : Store Bool

-- A process that is not inside goes round the loop of `lock_resource`: it does so when it calls, and
-- again whenever it has been woken.
abbrev pub try_lock : ℕ → ℕ → Sys → Sys
try_lock address p s =
    let (got, r, q) = lock_round p address s.resource s.queues in
    record { resource = r; queues = q; inside = if got then update s.inside p true else s.inside }

abbrev pub leave : ℕ → ℕ → Sys → Sys
leave address p s =
    let (r, q) = unlock_resource address s.resource s.queues in
    record { resource = r; queues = q; inside = update s.inside p false }

-- The steps: a process tries to lock the resource; the one that is inside unlocks it; or another
-- address is woken.
pub data Step (address : ℕ) : Sys → Sys → Type 0 where
  tries : (p : ℕ) (s : Sys) → s.inside p ≡ false → Step address s (try_lock address p s)
  leaves : (p : ℕ) (s : Sys) → s.inside p ≡ true → Step address s (leave address p s)
  wakes :
      (other : ℕ) (s : Sys)
      → other ≢ 0
      → other ≢ address
      → Step address s (record s { queues = wakeup other s.queues })

pub data Steps (address : ℕ) : Sys → Sys → Type 0 where
  stay : {s : Sys} → Steps address s s
  then_step : {s t u : Sys} → Steps address s t → Step address t u → Steps address s u

-- A process is in the chain of the address and sleeps there.
abbrev pub IsWaiting : ℕ → Sys → ℕ → Type 0
IsWaiting address s p =
    IsIn p (s.queues.sleep_hash_table (sleep_hash address))
    × ((s.queues.tasks p).sleep_address ≡ address)

abbrev pub IsSafe : ℕ → Sys → Type 0
IsSafe address s =
    ((p q : ℕ) → s.inside p ≡ true → s.inside q ≡ true → p ≡ q)
    × ((p : ℕ) → s.inside p ≡ true → s.resource.locked ≡ true)
    × ((p : ℕ) → IsWaiting address s p → (s.resource.locked ≡ true) × (s.resource.wanted ≡ true))

-- Waking another address brings no process to wait.
IsWaiting-before :
    (address other : ℕ) (s : Sys) (p : ℕ)
    → address ≢ 0
    → other ≢ 0
    → IsWaiting address (record s { queues = wakeup other s.queues }) p
    → IsWaiting address s p
unfolding wakeup
IsWaiting-before address other s p null null' (is, at) =
    let i = sleep_hash other in
    let table = s.queues.sleep_hash_table in
    let kept = (wakeup_chain other (table i) s.queues).0 in
    let was : IsIn p (table (sleep_hash address)) = elim (ℕ_discrete i (sleep_hash address)) [
      | yes e ↦
          subst (λ j. IsIn p (table j)) e
            (kept-IsIn other (table i) s.queues p (
              subst (IsIn p) (update_self table i kept)
                (subst (λ j. IsIn p (update table i kept j)) (sym e) is)))
      | no ne ↦ subst (IsIn p) (update_ne table i (sleep_hash address) kept ne) is
    ] in
    elim (walked other null' (table i) s.queues p) [
      | inl same ↦ (was, sym (ap (λ (y : Task). y.sleep_address) same) ∙ at)
      | inr (a, z, r) ↦ absurd (null (sym at ∙ z))
    ]

-- No process is inside once the one that was has left.
leave-inside :
    (p q : ℕ) (s : Sys)
    → s.inside p ≡ true
    → ((a b : ℕ) → s.inside a ≡ true → s.inside b ≡ true → a ≡ b)
    → update s.inside p false q ≡ true
    → ⊥
leave-inside p q s is one e = elim (ℕ_discrete p q) [
  | yes d ↦ differs e (ap (update s.inside p false) (sym d) ∙ update_self s.inside p false)
  | no d ↦ d (one p q is (sym (update_ne s.inside p q false d) ∙ e))
]

leave-IsSafe :
    (address p : ℕ) (s : Sys)
    → address ≢ 0
    → s.inside p ≡ true
    → IsSafe address s
    → IsSafe address (leave address p s)
unfolding unlock_resource
leave-IsSafe address p s null is (one, locked, waiting) = (
  λ a b e f. absurd (leave-inside p a s is one e),
  λ a e. absurd (leave-inside p a s is one e),
  λ a w. absurd (none_waits s.resource.wanted refl a w),
)
  where
    none_waits :
        (wanted : Bool)
        → s.resource.wanted ≡ wanted
        → (a : ℕ)
        → let (r, q) : Lock × Queues =
            (if wanted
              then (record { locked = false; wanted = false }, wakeup address s.queues)
              else (record { locked = false; wanted = false }, s.queues)) in
          IsWaiting address
            (record { resource = r; queues = q; inside = update s.inside p false })
            a
          → ⊥
    none_waits true e a (i, at) = (wakeup_lem address s.queues null).2 a i at
    none_waits false e a w = differs (waiting a w).1 e

-- The process that gets the resource is the only one inside.
enter-inside :
    (p q : ℕ) (s : Sys)
    → s.resource.locked ≡ false
    → ((a : ℕ) → s.inside a ≡ true → s.resource.locked ≡ true)
    → update s.inside p true q ≡ true
    → p ≡ q
enter-inside p q s free locked e = elim (ℕ_discrete p q) [
  | yes d ↦ d
  | no d ↦ absurd (differs (locked q (sym (update_ne s.inside p q true d) ∙ e)) free)
]

try_lock-IsSafe :
    (address p : ℕ) (s : Sys) → IsSafe address s → IsSafe address (try_lock address p s)
unfolding lock_round
try_lock-IsSafe address p s (one, locked, waiting) =
    if-cases
      (λ (x : Bool × Lock × Queues). IsSafe address (record {
        resource = x.1;
        queues = x.2;
        inside = if x.0 then update s.inside p true else s.inside;
      }))
      s.resource.locked (λ e. (one, locked, λ a w. (e, refl)))
      (λ e. (
        λ a b i j. sym (enter-inside p a s e locked i) ∙ enter-inside p b s e locked j,
        λ a i. refl,
        λ a w. absurd (differs (waiting a w).0 e),
      ))

Step-IsSafe :
    (address : ℕ) (s t : Sys) → address ≢ 0 → IsSafe address s → Step address s t → IsSafe address t
Step-IsSafe address s t null safe (tries p _ not_in) = try_lock-IsSafe address p s safe
Step-IsSafe address s t null safe (leaves p _ is) = leave-IsSafe address p s null is safe
Step-IsSafe address s t null (one, locked, waiting) (wakes other _ null' ne) =
    (one, locked, λ a w. waiting a (IsWaiting-before address other s a null null' w))

-- However processes lock and unlock a resource that is not at NULL, and other addresses are woken,
-- from a safe state on (as one where it is free and nobody sleeps for it): at most one process is
-- between `lock_resource` and `unlock_resource`, the resource is locked while one is, and it is
-- locked and marked as wanted while any process sleeps for it, so that none sleeps for a free one.
pub Steps-IsSafe :
    (address : ℕ) (s t : Sys)
    → address ≢ 0
    → IsSafe address s
    → Steps address s t
    → IsSafe address t
Steps-IsSafe address s t null safe stay = safe
Steps-IsSafe address s t null safe (then_step {t = u} before step) =
    Step-IsSafe address u t null (Steps-IsSafe address s u null safe before) step
