-- ===== src/Sleep.antt =====
-- kernel/sleep.c: the run queue, the hash chains of sleeping processes, locks of resources and areas.
-- The run queue and each chain are lists of processes, which are the numbers of their slots.
-- `do_sched` gives the processor to others: a call that sleeps ends here with the state then.
pub mod Wake
pub mod Resource
mod Tests
use fiwix_arm.Base.{
  Bool, List, [], bit_and, bit_or, false, if◌then◌else◌, not, true, ℕ, ◌%◌, ◌&&◌, ◌-◌, ◌==◌, ◌^◌,
  ◌∷◌,
}
use fiwix_arm.Process.{State, has_bits, pf_notinterrupt}
use fiwix_arm.Base.Store.{update, Store}

-- The fields of `struct proc` for the queues; a `sleep_address` of 0 is NULL.
pub record Task : Type 0 where
  pub state : State
  pub flags : ℕ
  pub sleep_address : ℕ
  pub cpu_count : ℕ
  pub priority : ℕ

pub record Queues : Type 0 where
  pub tasks : Store Task
  pub run : List ℕ
  pub sleep_hash_table : Store (List ℕ)
  pub need_resched : Bool

abbrev pub nr_buckets : ℕ
nr_buckets = 6

abbrev pub sleep_hash : ℕ → ℕ
sleep_hash address = address % nr_buckets

abbrev pub is_running : State → Bool
is_running s = elim s [ State.running ↦ true | _ ↦ false ]

abbrev pub is_asleep : State → Bool
is_asleep s = elim s [ State.sleeping ↦ true | _ ↦ false ]

abbrev pub is_stopped : State → Bool
is_stopped s = elim s [ State.stopped ↦ true | _ ↦ false ]

-- A process taken out of a queue.
unfoldable pub unlink : ℕ → List ℕ → List ℕ
unlink p [] = []
unlink p (q ∷ qs) = let later = unlink p qs in if q == p then later else q ∷ later

abbrev pub change : ℕ → Task → Queues → Queues
change p task s = record s { tasks = update s.tasks p task }

unfoldable pub runnable : ℕ → Queues → Queues
runnable p s =
    let queued = record s { run = p ∷ s.run } in
    if is_running (s.tasks p).state
    then s
    else change p (record (s.tasks p) { state = State.running }) queued

unfoldable pub not_runnable : ℕ → State → Queues → Queues
unfolding unlink
not_runnable p state s =
    change p (record (s.tasks p) { state = state }) (record s { run = unlink p s.run })

-- How `sleep` ends: at once, with the signal that it returns, or by giving up the processor.
pub data Slept : Type 0 where
  returns : ℕ → Slept
  gives_up : Queues → Slept

-- `signum` is what `issig` finds.
unfoldable pub sleep : ℕ → ℕ → Bool → ℕ → Queues → Slept
unfolding not_runnable
sleep current address is_interruptible signum s =
    let task = s.tasks current in
    let i = sleep_hash address in
    let flags : ℕ = if is_interruptible then task.flags else bit_or task.flags pf_notinterrupt in
    let queued : Queues = record s {
      sleep_hash_table = update s.sleep_hash_table i (current ∷ s.sleep_hash_table i);
      tasks = update s.tasks current (record task { sleep_address = address; flags = flags });
    } in
    if is_interruptible && not (signum == 0)
    then returns signum
    else if is_asleep task.state
    then returns 0
    else gives_up (not_runnable current State.sleeping queued)

-- What `wakeup` does with one process, apart from its chain: it is no longer uninterruptible.
unfoldable pub wake : ℕ → Queues → Queues
unfolding runnable
wake p s =
    let task = s.tasks p in
    let woken = record task {
      sleep_address = 0;
      flags = bit_and task.flags (2 ^ 32 - 1 - pf_notinterrupt);
      cpu_count = task.priority;
    } in
    record (runnable p (change p woken s)) { need_resched = true }

-- The loop of `wakeup` over a chain, with what stays in the chain.
unfoldable pub wakeup_chain : ℕ → List ℕ → Queues → List ℕ × Queues
unfolding wake
wakeup_chain address [] s = ([], s)
wakeup_chain address (p ∷ chain) s =
    let woken = wakeup_chain address chain (wake p s) in
    let (kept, s') = wakeup_chain address chain s in
    if (s.tasks p).sleep_address == address then woken else (p ∷ kept, s')

unfoldable pub wakeup : ℕ → Queues → Queues
unfolding wakeup_chain
wakeup address s =
    let i = sleep_hash address in
    let (kept, s') = wakeup_chain address (s.sleep_hash_table i) s in
    record s' { sleep_hash_table = update s.sleep_hash_table i kept }

-- A stopped process has no sleep address.
unfoldable pub wakeup_proc : ℕ → Queues → Queues
unfolding runnable unlink
wakeup_proc p s =
    let task = s.tasks p in
    let i = sleep_hash task.sleep_address in
    let chains : Store (List ℕ) =
      if task.sleep_address == 0
      then s.sleep_hash_table
      else update s.sleep_hash_table i (unlink p (s.sleep_hash_table i)) in
    let woken = record task { sleep_address = 0; cpu_count = task.priority } in
    let run = runnable p (change p woken (record s { sleep_hash_table = chains })) in
    if not (is_asleep task.state) && not (is_stopped task.state)
    then s
    else if has_bits task.flags pf_notinterrupt
    then s
    else record run { need_resched = true }

-- `struct resource`
pub record Lock : Type 0 where
  pub locked : Bool
  pub wanted : Bool

-- One round of the loop of `lock_resource`, for the resource at an address: whether the process has
-- got the resource, or the state in which it sleeps.
unfoldable pub lock_round : ℕ → ℕ → Lock → Queues → Bool × Lock × Queues
unfolding sleep
lock_round current address r s =
    let slept : Queues = elim (sleep current address false 0 s) [
      | returns _ ↦ s
      | gives_up s' ↦ s'
    ] in
    if r.locked
    then (false, record r { wanted = true }, slept)
    else (true, record r { locked = true }, s)

unfoldable pub unlock_resource : ℕ → Lock → Queues → Lock × Queues
unfolding wakeup
unlock_resource address r s =
    let freed : Lock = record { locked = false; wanted = false } in
    let woken = wakeup address s in if r.wanted then (freed, woken) else (freed, s)

-- The two operations on `area`, with the bits that were set.
unfoldable pub lock_area : ℕ → ℕ → ℕ × ℕ
lock_area area type = (bit_or area type, bit_and area type)

unfoldable pub unlock_area : ℕ → ℕ → ℕ × ℕ
unlock_area area type = (bit_and area (2 ^ 32 - 1 - type), bit_and area type)
