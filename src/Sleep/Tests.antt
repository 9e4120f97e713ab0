-- ===== src/Sleep/Tests.antt =====
-- Runs of the sleep queues, and the theorems about them at a concrete state.
use fiwix_arm.Base.{[], arith, differs, false, refl, true, ℕ, ◌∷◌, ◌≡◌, ◌≢◌}
use fiwix_arm.Sleep.{sleep_hash, unlock_resource, wakeup, lock_round, Task, Queues}
use fiwix_arm.Sleep.Resource.{
  leaves, tries, stay, Steps-IsSafe, then_step, Steps, IsSafe, leave, try_lock, Sys,
}
use fiwix_arm.Sleep.Wake.{IsIn, wakeup_lem}
use fiwix_arm.Process.{State}

abbrev awake_task : Task
awake_task = record {
  state = State.running;
  flags = 0;
  sleep_address = 0;
  cpu_count = 1;
  priority = 15;
}

abbrev idle_queues : Queues
idle_queues = record {
  tasks = λ p. awake_task;
  run = 2 ∷ 1 ∷ [];
  sleep_hash_table = λ i. [];
  need_resched = false;
}

-- The resource stands at address 600, in the chain of address 0 and of every sixth.
abbrev start : Sys
start = record {
  resource = record { locked = false; wanted = false };
  queues = idle_queues;
  inside = λ p. false;
}

abbrev first_in : Sys
first_in = try_lock 600 1 start

abbrev second_waits : Sys
second_waits = try_lock 600 2 first_in

abbrev first_out : Sys
first_out = leave 600 1 second_waits

runs :
    (second_waits.resource.wanted ≡ true)
    × (second_waits.queues.run ≡ 1 ∷ [])
    × (second_waits.queues.sleep_hash_table 0 ≡ 2 ∷ [])
    × (first_out.queues.run ≡ 2 ∷ 1 ∷ [])
    × (first_out.queues.sleep_hash_table 0 ≡ [])
unfolding lock_round unlock_resource
runs = (refl, refl, refl, refl, refl)

start-IsSafe : IsSafe 600 start
start-IsSafe =
    (λ p q e f. absurd (differs e refl), λ p e. absurd (differs e refl), λ p w. absurd w.0)

one_inside : first_in.inside 1 ≡ true
unfolding lock_round
one_inside = refl

still_inside : second_waits.inside 1 ≡ true
unfolding lock_round
still_inside = refl

two_outside : first_in.inside 2 ≡ false
unfolding lock_round
two_outside = refl

three-Steps : Steps 600 start first_out
three-Steps =
    then_step (then_step (then_step stay (tries 1 start refl)) (tries 2 first_in two_outside))
      (leaves 1 second_waits still_inside)

Steps-IsSafe_example : IsSafe 600 first_out
Steps-IsSafe_example = Steps-IsSafe 600 start first_out (omega arith) start-IsSafe three-Steps

wakeup_lem_example :
    let s = second_waits.queues in
    let s' = wakeup 600 s in
    let chain = s.sleep_hash_table (sleep_hash 600) in
    ((q : ℕ)
      → IsIn q chain
      → (s.tasks q).sleep_address ≡ 600
      → ((s'.tasks q).sleep_address ≡ 0) × ((s'.tasks q).state ≡ State.running))
    × ((q : ℕ) → (s.tasks q).sleep_address ≢ 600 → s'.tasks q ≡ s.tasks q)
    × ((q : ℕ) → IsIn q (s'.sleep_hash_table (sleep_hash 600)) → (s'.tasks q).sleep_address ≢ 600)
    × ((i : ℕ) → sleep_hash 600 ≢ i → s'.sleep_hash_table i ≡ s.sleep_hash_table i)
wakeup_lem_example = wakeup_lem 600 second_waits.queues (omega arith)
