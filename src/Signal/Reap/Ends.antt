-- ===== src/Signal/Reap/Ends.antt =====
-- The loop that reaps children ends.
use fiwix_arm.Base.{
  Bool, List, Option, [], arith, false, if-cases, if◌then◌else◌, length, none, not, refl, some, suc,
  true, zero, ℕ, ◌&&◌, ◌+◌, ◌-◌, ◌==◌, ◌∷◌, ◌≡◌, ◌≤◌,
}
use fiwix_arm.Process.{Proc, is_zombie}
use fiwix_arm.Signal.{is_stopped}
use fiwix_arm.Signal.Reap.{Procs, is_child, reported, wait_scan, sys_waitpid, reap_loop, reap}

-- A child that `sys_waitpid` would report or remove.
abbrev pub is_waited : ℕ → Proc → Bool
is_waited current p =
    is_child current p && (if is_stopped p.state then not (p.exit_code == 0) else is_zombie p.state)

abbrev waited : ℕ → List Proc → ℕ
waited current [] = 0
waited current (p ∷ ps) = (if is_waited current p then 1 else 0) + waited current ps

waited-length : (current : ℕ) (ps : List Proc) → waited current ps ≤ length ps
waited-length current [] = omega arith
waited-length current (p ∷ ps) =
    if-cases (λ n. n + waited current ps ≤ length (p ∷ ps)) (is_waited current p)
      (λ e. omega (arith, waited-length current ps)) (λ e. omega (arith, waited-length current ps))

-- What a scan finds is one fewer to wait for.
abbrev Fewer : ℕ → List Proc → Option (Bool × List Proc) → Type 0
Fewer current ps none = waited current ps ≡ 0
Fewer current ps (some (removed, ps')) = suc (waited current ps') ≡ waited current ps

-- A process that is passed over, in front of what the scan of the others finds.
passed :
    (current : ℕ) (p : Proc) (ps : List Proc) (o : Option (Bool × List Proc))
    → is_waited current p ≡ false
    → Fewer current ps o
    → Fewer current
        (p ∷ ps)
        (elim o [ none ↦ none | some (removed, ps') ↦ some (removed, p ∷ ps') ])
passed current p ps none e h = rw e (omega (arith, h))
passed current p ps (some (removed, ps')) e h = rw e (omega (arith, h))

wait_scan-Fewer : (current : ℕ) (ps : List Proc) → Fewer current ps (wait_scan current ps)
unfolding wait_scan
wait_scan-Fewer current [] = refl
wait_scan-Fewer current (p ∷ ps) =
    let others = wait_scan-Fewer current ps in
    let skip : is_waited current p ≡ false
        → Fewer current (p ∷ ps) (elim (wait_scan current ps) [
          | none ↦ none
          | some (removed, ps') ↦ some (removed, p ∷ ps')
        ]) =
      λ e. passed current p ps (wait_scan current ps) e others in
    if-cases (Fewer current (p ∷ ps)) (not (is_child current p)) (λ c. skip (ground (arith, c)))
      (λ c.
        if-cases (Fewer current (p ∷ ps)) (is_stopped p.state)
          (λ s.
            if-cases (Fewer current (p ∷ ps)) (p.exit_code == 0) (λ x. skip (ground (arith, s, x)))
              (λ x.
                let is : is_waited current p ≡ true = ground (arith, c, s, x) in
                let no_more : is_waited current (reported p) ≡ false = ground (arith, s) in
                rw (is, no_more) (omega arith)))
          (λ s.
            if-cases (Fewer current (p ∷ ps)) (is_zombie p.state)
              (λ z.
                let is : is_waited current p ≡ true = ground (arith, c, s, z) in
                rw is (omega arith))
              (λ z. skip (ground (arith, s, z)))))

abbrev FewerProcs : ℕ → Procs → Option Procs → Type 0
FewerProcs current st none = Unit
FewerProcs current st (some st') = suc (waited current st'.table) ≡ waited current st.table

sys_waitpid-FewerProcs : (current : ℕ) (st : Procs) → FewerProcs current st (sys_waitpid current st)
unfolding sys_waitpid
sys_waitpid-FewerProcs current st =
    if-cases (FewerProcs current st) (st.children == 0) (λ e. tt)
      (λ e. of (wait_scan current st.table) (wait_scan-Fewer current st.table))
  where
    of :
        (o : Option (Bool × List Proc))
        → Fewer current st.table o
        → FewerProcs current st (elim o [
          | none ↦ none
          | some (removed, ps) ↦
              some
                (record { table = ps; children = if removed then st.children - 1 else st.children })
        ])
    of none h = tt
    of (some (removed, ps)) h = h

reap_loop_lem :
    (fuel current : ℕ) (st : Procs)
    → waited current st.table ≤ fuel
    → sys_waitpid current (reap_loop fuel current st) ≡ none
unfolding reap_loop
reap_loop_lem zero current st le = of (sys_waitpid current st) (sys_waitpid-FewerProcs current st)
  where
    of : (o : Option Procs) → FewerProcs current st o → o ≡ none
    of none h = refl
    of (some st') h = absurd (omega (arith, h, le))
reap_loop_lem (suc fuel) current st le =
    of (sys_waitpid current st) refl (sys_waitpid-FewerProcs current st)
      (λ st' h. reap_loop_lem fuel current st' (omega (arith, h, le)))
  where
    of :
        (o : Option Procs)
        → sys_waitpid current st ≡ o
        → FewerProcs current st o
        → ((st' : Procs)
            → suc (waited current st'.table) ≡ waited current st.table
            → sys_waitpid current (reap_loop fuel current st') ≡ none)
        → sys_waitpid current (elim o [ none ↦ st | some st' ↦ reap_loop fuel current st' ]) ≡ none
    of none e h ends = e
    of (some st') e h ends = ends st' h

-- Fuel for every process of the table is enough: after it no child is left to wait for.
pub reap_lem : (current : ℕ) (st : Procs) → sys_waitpid current (reap current st) ≡ none
unfolding reap
reap_lem current st = reap_loop_lem (length st.table) current st (waited-length current st.table)
