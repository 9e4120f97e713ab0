-- ===== src/Session/Groups.antt =====
-- A process group lies within one session.
use fiwix_arm.Base.Int.{ltb_ℤ, pos_part, pos, ◌==ℤ◌}
use fiwix_arm.Base.{
  ap, inl, Bool, List, Option, Option-elim, [], arith, differs, false, if-cases, if◌then◌else◌, inr,
  none, not, refl, some, sym, true, ℕ, ◌&&◌, ◌==◌, ◌||◌, ◌∙◌, ◌∷◌, ◌≡◌, ◌≢◌, ◌⊎◌,
}
use fiwix_arm.Process.{pg_leader, pf_pexec, has_bits, Proc}
use fiwix_arm.Base.Errno.{Result, Status}
use fiwix_arm.Session.{
  ℤ, sys_setsid, sys_setpgid, move_to, has_other_in, in_other_session, get_proc_by_pid, at_slot,
}

abbrev pub IsIn : Proc → List Proc → Type 0
IsIn p [] = ⊥
IsIn p (q ∷ qs) = (p ≡ q) ⊎ IsIn p qs

abbrev pub AreGrouped : List Proc → Type 0
AreGrouped table = (p q : Proc) → IsIn p table → IsIn q table → p.pgid ≡ q.pgid → p.sid ≡ q.sid

-- No two processes stand in one slot.
abbrev pub AreApart : List Proc → Type 0
AreApart table = (p q : Proc) → IsIn p table → IsIn q table → p.slot ≡ q.slot → p ≡ q

-- What an entry of the changed table was.
at_slot-IsIn :
    (slot : ℕ) (f : Proc → Proc) (table : List Proc) (p : Proc)
    → IsIn p (at_slot slot f table)
    → (IsIn p table × (p.slot ≢ slot)) ⊎ ((q : Proc) × IsIn q table × (q.slot ≡ slot) × (p ≡ f q))
unfolding at_slot
at_slot-IsIn slot f [] p is = absurd is
at_slot-IsIn slot f (q ∷ table) p is =
    if-cases
      (λ l.
        IsIn p l
        → (IsIn p (q ∷ table) × (p.slot ≢ slot))
          ⊎ ((r : Proc) × IsIn r (q ∷ table) × (r.slot ≡ slot) × (p ≡ f r)))
      (q.slot == slot)
      (λ e h. elim h [
        | inl a ↦ inr (q, inl refl, eq_of q e, a)
        | inr b ↦ more (at_slot-IsIn slot f table p b)
      ])
      (λ e h. elim h [
        | inl a ↦ inl (inl a, λ s. ne_of q e (ap (λ (y : Proc). y.slot) (sym a) ∙ s))
        | inr b ↦ more (at_slot-IsIn slot f table p b)
      ])
      is
  where
    eq_of : (r : Proc) → (r.slot == slot) ≡ true → r.slot ≡ slot
    eq_of r e = ground (arith, e)

    ne_of : (r : Proc) → (r.slot == slot) ≡ false → r.slot ≢ slot
    ne_of r e s = ground (arith, e, s)

    more :
        (IsIn p table × (p.slot ≢ slot)) ⊎ ((r : Proc) × IsIn r table × (r.slot ≡ slot) × (p ≡ f r))
        → (IsIn p (q ∷ table) × (p.slot ≢ slot))
          ⊎ ((r : Proc) × IsIn r (q ∷ table) × (r.slot ≡ slot) × (p ≡ f r))
    more (inl (i, ne)) = inl (inr i, ne)
    more (inr (r, i, s, e)) = inr (r, inr i, s, e)

-- One process moves to a group whose other members, in other slots, are of its new session.
AreGrouped-at_slot :
    (slot pgid sid : ℕ) (f : Proc → Proc) (table : List Proc)
    → AreGrouped table
    → ((q : Proc) → IsIn q table → q.slot ≡ slot → ((f q).pgid ≡ pgid) × ((f q).sid ≡ sid))
    → ((q : Proc) → IsIn q table → q.slot ≢ slot → q.pgid ≡ pgid → q.sid ≡ sid)
    → AreGrouped (at_slot slot f table)
AreGrouped-at_slot slot pgid sid f table grouped new old p q p_in q_in same =
    elim (at_slot-IsIn slot f table p p_in) [
      | inl (a, na) ↦ elim (at_slot-IsIn slot f table q q_in) [
        | inl (b, nb) ↦ grouped p q a b same
        | inr (r, b, s, e) ↦
            let (g, h) = new r b s in
            old p a na (same ∙ ap (λ (y : Proc). y.pgid) e ∙ g)
            ∙ sym (ap (λ (y : Proc). y.sid) e ∙ h)
      ]
      | inr (r, a, s, e) ↦
          let (g, h) = new r a s in
          elim (at_slot-IsIn slot f table q q_in) [
            | inl (b, nb) ↦
                ap (λ (y : Proc). y.sid) e
                ∙ h
                ∙ sym (old q b nb (sym same ∙ ap (λ (y : Proc). y.pgid) e ∙ g))
            | inr (r', b, s', e') ↦
                let (g', h') = new r' b s' in
                ap (λ (y : Proc). y.sid) e ∙ h ∙ sym (ap (λ (y : Proc). y.sid) e' ∙ h')
          ]
    ]

AreApart-at_slot :
    (slot : ℕ) (f : Proc → Proc) (table : List Proc)
    → ((q : Proc) → (f q).slot ≡ q.slot)
    → AreApart table
    → AreApart (at_slot slot f table)
AreApart-at_slot slot f table keeps apart p q p_in q_in same =
    elim (at_slot-IsIn slot f table p p_in) [
      | inl (a, na) ↦ elim (at_slot-IsIn slot f table q q_in) [
        | inl (b, nb) ↦ apart p q a b same
        | inr (r, b, s, e) ↦ absurd (na (same ∙ ap (λ (y : Proc). y.slot) e ∙ keeps r ∙ s))
      ]
      | inr (r, a, s, e) ↦ elim (at_slot-IsIn slot f table q q_in) [
        | inl (b, nb) ↦ absurd (nb (sym same ∙ ap (λ (y : Proc). y.slot) e ∙ keeps r ∙ s))
        | inr (r', b, s', e') ↦ e ∙ ap f (apart r r' a b (s ∙ sym s')) ∙ sym e'
      ]
    ]

abbrev pub IsTable : List Proc → Type 0
IsTable table = AreGrouped table × AreApart table

get_proc_by_pid-IsIn :
    (pid : ℕ) (table : List Proc) (p : Proc) → get_proc_by_pid pid table ≡ some p → IsIn p table
unfolding get_proc_by_pid
get_proc_by_pid-IsIn pid [] p e = absurd (ground (arith, e))
get_proc_by_pid-IsIn pid (q ∷ table) p e =
    if-cases (λ (o : Option Proc). o ≡ some p → IsIn p (q ∷ table)) (q.pid == pid)
      (λ b h. inl (sym (some_eq h))) (λ b h. inr (get_proc_by_pid-IsIn pid table p h)) e
  where
    some_eq : {a b : Proc} → some a ≡ some b → a ≡ b
    some_eq {a = a} h = ap (λ (o : Option Proc). elim o [ none ↦ a | some x ↦ x ]) h

not_in_other_session :
    (pgid sid : ℕ) (table : List Proc)
    → in_other_session pgid sid table ≡ false
    → (q : Proc) → IsIn q table
    → q.pgid ≡ pgid
    → q.sid ≡ sid
unfolding in_other_session
not_in_other_session pgid sid [] e q is same = absurd is
not_in_other_session pgid sid (p ∷ table) e q is same =
    if-cases (λ (b : Bool). b ≡ false → q.sid ≡ sid) (p.pgid == pgid && not (p.sid == sid))
      (λ b h. absurd (differs refl h))
      (λ b h. elim is [
        | inl d ↦
            ap (λ (y : Proc). y.sid) d ∙ in_session p b (sym (ap (λ (y : Proc). y.pgid) d) ∙ same)
        | inr i ↦ not_in_other_session pgid sid table h q i same
      ])
      e
  where
    in_session :
        (r : Proc) → (r.pgid == pgid && not (r.sid == sid)) ≡ false → r.pgid ≡ pgid → r.sid ≡ sid
    in_session r b s = ground (arith, b, s)

not_has_other_in :
    (current : Proc) (pgid : ℕ) (table : List Proc)
    → has_other_in current pgid table ≡ false
    → (q : Proc) → IsIn q table
    → q.slot ≢ current.slot
    → q.pgid ≢ pgid
unfolding has_other_in
not_has_other_in current pgid [] e q is ne = absurd is
not_has_other_in current pgid (p ∷ table) e q is ne =
    if-cases (λ (b : Bool). b ≡ false → q.pgid ≢ pgid)
      (not (p.slot == current.slot) && p.pgid == pgid) (λ b h. absurd (differs refl h))
      (λ b h. elim is [
        | inl d ↦ λ g.
            apart p b (λ s. ne (ap (λ (y : Proc). y.slot) d ∙ s))
              (sym (ap (λ (y : Proc). y.pgid) d) ∙ g)
        | inr i ↦ not_has_other_in current pgid table h q i ne
      ])
      e
  where
    apart :
        (r : Proc)
        → (not (r.slot == current.slot) && r.pgid == pgid) ≡ false
        → r.slot ≢ current.slot
        → r.pgid ≢ pgid
    apart r b s g = ground (arith, b, s, g)

move_to-IsTable :
    (current p : Proc) (pgid : ℕ) (table : List Proc)
    → IsTable table
    → IsIn p table
    → IsTable (move_to current p pgid table).0
unfolding move_to
move_to-IsTable current p pgid table (grouped, apart) is =
    let P : List Proc × Status → Type 0 = λ r. IsTable r.0 in
    let is_other = not (p.slot == current.slot) in
    if-cases P (is_other && not (p.ppid == current.slot)) (λ e. (grouped, apart))
      (λ e.
        if-cases P (p.sid == p.pid || not (p.sid == current.sid)) (λ f. (grouped, apart))
          (λ f.
            if-cases P (in_other_session pgid current.sid table) (λ g. (grouped, apart))
              (λ g.
                if-cases P (is_other && has_bits p.flags pf_pexec) (λ h. (grouped, apart))
                  (λ h. (
                    AreGrouped-at_slot p.slot pgid current.sid (λ q. record q { pgid = pgid }) table
                        grouped
                        (λ q i s.
                          (refl, ap (λ (y : Proc). y.sid) (apart q p i is s) ∙ same_session f))
                        (λ q i ne. not_in_other_session pgid current.sid table g q i),
                    AreApart-at_slot p.slot (λ q. record q { pgid = pgid }) table (λ q. refl) apart,
                  )))))
  where
    same_session : (p.sid == p.pid || not (p.sid == current.sid)) ≡ false → p.sid ≡ current.sid
    same_session f = ground (arith, f)

or_right : (a b : Bool) → (a || b) ≡ false → b ≡ false
or_right a b e = ground (arith, e)

-- `setpgid` and `setsid`, whatever they return: where the processes of every group are of one
-- session, and no two stand in one slot, they still are and do; for `setsid` the process that runs is
-- in the table.
pub group_calls-IsTable :
    (current : Proc) (pid pgid : ℤ) (table : List Proc)
    → IsTable table
    → IsIn current table
    → IsTable (sys_setpgid current pid pgid table).0 × IsTable (sys_setsid current table).0
unfolding sys_setpgid sys_setsid
group_calls-IsTable current pid pgid table (grouped, apart) here =
    let P : List Proc × Status → Type 0 = λ r. IsTable r.0 in
    let of : ℕ = if pid ==ℤ pos 0 then current.pid else pos_part pid in
    let leads : Proc → Proc = λ p. record p { sid = p.pid; pgid = p.pid; ctty = none } in
    (
      if-cases P (ltb_ℤ pid (pos 0) || ltb_ℤ pgid (pos 0)) (λ e. (grouped, apart))
          (λ e.
            Option-elim P (get_proc_by_pid of table) (grouped, apart)
              (λ p f.
                move_to-IsTable current p (if pgid ==ℤ pos 0 then p.pid else pos_part pgid) table
                  (grouped, apart) (get_proc_by_pid-IsIn of table p f))),
      if-cases (λ (r : List Proc × Result ℕ). IsTable r.0)
          (pg_leader current || has_other_in current current.pid table) (λ e. (grouped, apart))
          (λ e. (
            AreGrouped-at_slot current.slot current.pid current.pid leads table grouped
                (λ q i s. let d = ap (λ (y : Proc). y.pid) (apart q current i here s) in (d, d))
                (λ q i ne g.
                  absurd (not_has_other_in current current.pid table (second e) q i ne g)),
            AreApart-at_slot current.slot leads table (λ q. refl) apart,
          )),
    )
  where
    second :
        (pg_leader current || has_other_in current current.pid table) ≡ false
        → has_other_in current current.pid table ≡ false
    second e = or_right (pg_leader current) (has_other_in current current.pid table) e
