-- ===== src/Sleep/Wake.antt =====
-- `wakeup` wakes every process that sleeps on the address, and no other.
use fiwix_arm.Base.{
  List, [], ap, arith, bit_and, false, if-cases, inl, inr, refl, sym, true, ℕ, ◌-◌, ◌==◌, ◌^◌, ◌∙◌,
  ◌∷◌, ◌≡◌, ◌≢◌, ◌⊎◌,
}
use fiwix_arm.Base.Store.{update_self, update_ne}
use fiwix_arm.Sleep.{
  sleep_hash, wakeup, wakeup_chain, change, Task, is_running, runnable, wake, Queues,
}
use fiwix_arm.Process.{pf_notinterrupt, State}
use native.Mathlib.Decide.{ℕ_discrete}
use mathlib.Core.Path.{subst}

abbrev pub IsIn : ℕ → List ℕ → Type 0
IsIn p [] = ⊥
IsIn p (q ∷ qs) = (p ≡ q) ⊎ IsIn p qs

is_running_lem : (st : State) → is_running st ≡ true → st ≡ State.running
is_running_lem State.running e = refl
is_running_lem State.sleeping e = absurd (ground (arith, e))
is_running_lem State.zombie e = absurd (ground (arith, e))
is_running_lem State.stopped e = absurd (ground (arith, e))
is_running_lem State.idle e = absurd (ground (arith, e))

-- What `runnable` does to the processes.
runnable_self :
    (p : ℕ) (s : Queues)
    → (((runnable p s).tasks p).sleep_address ≡ (s.tasks p).sleep_address)
      × (((runnable p s).tasks p).state ≡ State.running)
unfolding runnable
runnable_self p s =
    let task = record (s.tasks p) { state = State.running } in
    let self = update_self s.tasks p task in
    if-cases
      (λ (r : Queues).
        ((r.tasks p).sleep_address ≡ (s.tasks p).sleep_address)
        × ((r.tasks p).state ≡ State.running))
      (is_running (s.tasks p).state) (λ e. (refl, is_running_lem (s.tasks p).state e))
      (λ e. (ap (λ (y : Task). y.sleep_address) self, ap (λ (y : Task). y.state) self))

runnable_ne : (p q : ℕ) (s : Queues) → p ≢ q → (runnable p s).tasks q ≡ s.tasks q
unfolding runnable
runnable_ne p q s ne =
    if-cases (λ (r : Queues). r.tasks q ≡ s.tasks q) (is_running (s.tasks p).state) (λ e. refl)
      (λ e. update_ne s.tasks p q (record (s.tasks p) { state = State.running }) ne)

-- What `wake` does to the processes.
abbrev woken_task : Task → Task
woken_task task = record task {
  sleep_address = 0;
  flags = bit_and task.flags (2 ^ 32 - 1 - pf_notinterrupt);
  cpu_count = task.priority;
}

wake_self :
    (p : ℕ) (s : Queues)
    → (((wake p s).tasks p).sleep_address ≡ 0) × (((wake p s).tasks p).state ≡ State.running)
unfolding wake
wake_self p s =
    let (address, running) = runnable_self p (change p (woken_task (s.tasks p)) s) in
    (
      address ∙ ap (λ (y : Task). y.sleep_address) (update_self s.tasks p (woken_task (s.tasks p))),
      running,
    )

wake_ne : (p q : ℕ) (s : Queues) → p ≢ q → (wake p s).tasks q ≡ s.tasks q
unfolding wake
wake_ne p q s ne =
    runnable_ne p q (change p (woken_task (s.tasks p)) s) ne
    ∙ update_ne s.tasks p q (woken_task (s.tasks p)) ne

-- What the loop leaves of the process `q` that slept at `address`, or did not.
abbrev Walked : ℕ → ℕ → Task → Task → Type 0
Walked address q before after =
    (after ≡ before)
    ⊎ ((before.sleep_address ≡ address) × (after.sleep_address ≡ 0) × (after.state ≡ State.running))

-- A process that is kept in the chain does not sleep at the address, the others that did are running,
-- and a process that did not sleep there has not changed.
module _ (address : ℕ) (null : address ≢ 0) where
  eq_of : {a b : ℕ} → (a == b) ≡ true → a ≡ b
  eq_of e = ground (arith, e)

  ne_of : {a b : ℕ} → (a == b) ≡ false → a ≢ b
  ne_of {a = a} {b = b} e = λ q. absurd (not_both a b e q)
    where
      not_both : (c d : ℕ) → (c == d) ≡ false → c ≢ d
      not_both c d f q = ground (arith, f, q)

  -- A process that has just been woken stays so.
  woken_now :
      (p : ℕ) (s : Queues) (chain : List ℕ)
      → (s.tasks p).sleep_address ≡ address
      → let after = (wakeup_chain address chain (wake p s)).1.tasks p in
        Walked address p ((wake p s).tasks p) after
        → ((s.tasks p).sleep_address ≡ address)
          × (after.sleep_address ≡ 0)
          × (after.state ≡ State.running)
  woken_now p s chain at (inl same) =
      let (zero_now, running) = wake_self p s in
      (
        at,
        ap (λ (y : Task). y.sleep_address) same ∙ zero_now,
        ap (λ (y : Task). y.state) same ∙ running,
      )
  woken_now p s chain at (inr (addr, z, r)) = absurd (null (sym addr ∙ (wake_self p s).0))

  pub walked :
      (chain : List ℕ) (s : Queues) (q : ℕ)
      → Walked address q (s.tasks q) ((wakeup_chain address chain s).1.tasks q)
  unfolding wakeup_chain
  walked [] s q = inl refl
  walked (p ∷ chain) s q =
      if-cases (λ (r : List ℕ × Queues). Walked address q (s.tasks q) (r.1.tasks q))
        ((s.tasks p).sleep_address == address)
        (λ e. elim (ℕ_discrete p q) [
          | yes d ↦
              subst
                (λ x.
                  Walked address x (s.tasks x) ((wakeup_chain address chain (wake p s)).1.tasks x))
                d (inr (woken_now p s chain (eq_of e) (walked chain (wake p s) p)))
          | no d ↦
              subst (λ x. Walked address q x ((wakeup_chain address chain (wake p s)).1.tasks q))
                (wake_ne p q s d) (walked chain (wake p s) q)
        ])
        (λ e. walked chain s q)

  -- A process of the chain that slept at the address is awake.
  awake :
      (chain : List ℕ) (s : Queues) (q : ℕ)
      → IsIn q chain
      → (s.tasks q).sleep_address ≡ address
      → let after = (wakeup_chain address chain s).1.tasks q in
        (after.sleep_address ≡ 0) × (after.state ≡ State.running)
  unfolding wakeup_chain
  awake [] s q is at = absurd is
  awake (p ∷ chain) s q is at =
      let P : List ℕ × Queues → Type 0 =
        λ r. ((r.1.tasks q).sleep_address ≡ 0) × ((r.1.tasks q).state ≡ State.running) in
      if-cases P ((s.tasks p).sleep_address == address)
        (λ e. elim (ℕ_discrete p q) [
          | yes d ↦
              subst
                (λ x.
                  let after = (wakeup_chain address chain (wake p s)).1.tasks x in
                  (after.sleep_address ≡ 0) × (after.state ≡ State.running))
                d
                (let (a, b, c) = woken_now p s chain (eq_of e) (walked chain (wake p s) p) in
                  (b, c))
          | no d ↦
              awake chain (wake p s) q (later p q d chain is)
                (ap (λ (y : Task). y.sleep_address) (wake_ne p q s d) ∙ at)
        ])
        (λ e.
          awake chain s q
            (later p q (λ d. ne_of e (ap (λ x. (s.tasks x).sleep_address) d ∙ at)) chain is) at)
    where
      later : (a b : ℕ) → a ≢ b → (l : List ℕ) → IsIn b (a ∷ l) → IsIn b l
      later a b ne l (inl e) = absurd (ne (sym e))
      later a b ne l (inr i) = i

  -- No process that is kept sleeps at the address.
  kept_elsewhere :
      (chain : List ℕ) (s : Queues) (q : ℕ)
      → let (kept, s') = wakeup_chain address chain s in
        IsIn q kept → (s'.tasks q).sleep_address ≢ address
  unfolding wakeup_chain
  kept_elsewhere [] s q is = absurd is
  kept_elsewhere (p ∷ chain) s q is =
      if-cases (λ (r : List ℕ × Queues). IsIn q r.0 → (r.1.tasks q).sleep_address ≢ address)
        ((s.tasks p).sleep_address == address) (λ e. kept_elsewhere chain (wake p s) q)
        (λ e i. elim i [
          | inl d ↦
              elsewhere q (λ a. ne_of e (ap (λ x. (s.tasks x).sleep_address) (sym d) ∙ a))
                (walked chain s q)
          | inr j ↦ kept_elsewhere chain s q j
        ])
        is
    where
      elsewhere :
          (x : ℕ)
          → (s.tasks x).sleep_address ≢ address
          → Walked address x (s.tasks x) ((wakeup_chain address chain s).1.tasks x)
          → ((wakeup_chain address chain s).1.tasks x).sleep_address ≢ address
      elsewhere x ne (inl same) a = ne (sym (ap (λ (y : Task). y.sleep_address) same) ∙ a)
      elsewhere x ne (inr (b, z, r)) a = null (sym a ∙ z)

-- What stays in a chain was there.
pub kept-IsIn :
    (address : ℕ) (chain : List ℕ) (s : Queues) (q : ℕ)
    → IsIn q (wakeup_chain address chain s).0
    → IsIn q chain
unfolding wakeup_chain
kept-IsIn address [] s q is = is
kept-IsIn address (p ∷ chain) s q is =
    if-cases (λ (r : List ℕ × Queues). IsIn q r.0 → IsIn q (p ∷ chain))
      ((s.tasks p).sleep_address == address) (λ e i. inr (kept-IsIn address chain (wake p s) q i))
      (λ e i. elim i [ inl d ↦ inl d | inr j ↦ inr (kept-IsIn address chain s q j) ]) is

-- What a process that did not sleep at the address has become.
unchanged :
    (address q : ℕ) (before after : Task)
    → Walked address q before after
    → before.sleep_address ≢ address
    → after ≡ before
unchanged address q before after (inl same) ne = same
unchanged address q before after (inr (a, z, r)) ne = absurd (ne a)

-- `wakeup` of an address that is not NULL: every process in its chain that slept on the address is
-- running and sleeps nowhere; every process that did not is as it was; the chain holds no sleeper on
-- the address any more, and the other chains have not changed.
pub wakeup_lem :
    (address : ℕ) (s : Queues)
    → address ≢ 0
    → let s' = wakeup address s in
      let chain = s.sleep_hash_table (sleep_hash address) in
      ((q : ℕ)
        → IsIn q chain
        → (s.tasks q).sleep_address ≡ address
        → ((s'.tasks q).sleep_address ≡ 0) × ((s'.tasks q).state ≡ State.running))
      × ((q : ℕ) → (s.tasks q).sleep_address ≢ address → s'.tasks q ≡ s.tasks q)
      × ((q : ℕ)
          → IsIn q (s'.sleep_hash_table (sleep_hash address))
          → (s'.tasks q).sleep_address ≢ address)
      × ((i : ℕ) → sleep_hash address ≢ i → s'.sleep_hash_table i ≡ s.sleep_hash_table i)
unfolding wakeup
wakeup_lem address s null =
    let i = sleep_hash address in
    let chain = s.sleep_hash_table i in
    let (kept, s') = wakeup_chain address chain s in
    let table = update_self s.sleep_hash_table i kept in
    (
      awake address null chain s,
      λ q. unchanged address q (s.tasks q) (s'.tasks q) (walked address null chain s q),
      λ q is. kept_elsewhere address null chain s q (subst (IsIn q) table is),
      λ j ne. update_ne s.sleep_hash_table i j kept ne,
    )
