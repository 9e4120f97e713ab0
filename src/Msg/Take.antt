-- ===== src/Msg/Take.antt =====
-- What a message that is taken leaves of its queue, and which message the loop finds.
use fiwix_arm.Base.{
  Bool, List, Option, [], arith, fun_ext, if◌then◌else◌, none, refl, some, sym, true, ℕ, ◌++◌, ◌+◌,
  ◌-◌, ◌==◌, ◌^◌, ◌∙◌, ◌∷◌, ◌≡◌, ◌≢◌,
}
use fiwix_arm.Base.Store.{update, update_self}
use fiwix_arm.Msg.Queue.{
  view-update, Shows, InUse-update, Links-update, bytes-update, bytes, view, Holds, Links,
}
use fiwix_arm.Msg.Relink.{InUse-drop, IsDistinct-drop}
use fiwix_arm.Msg.{u16, Msqid, zero_msg, pos, Proc, ℤ, Msgs}
use fiwix_arm.Msg.Receive.{scan, chain_fuel, is_wanted, look, dequeue}
use fiwix_arm.Msg.Typed.{
  view-unlinked, InUse-unlinked, Links-unlinked, first_left, length-among, bytes-among,
  bytes-unlinked, unlinked, scan-Scanned, Scanned, prev_of,
}
use native.Mathlib.Decide.{ℕ_discrete}
use mathlib.Core.Path.{subst}

-- What the message `i` leaves of the queue `before ++ i ∷ rest`.
pub dequeue_lem :
    (current : Proc) (now : ℕ) (st : Msgs) (q i : ℕ) (before rest : List ℕ)
    → Holds st q (before ++ i ∷ rest)
    → let st' = dequeue current now st q (prev_of none before) i in
      Holds st' q (before ++ rest)
      × (view st'.msg_pool (before ++ rest) ≡ view st.msg_pool (before ++ rest))
unfolding dequeue
dequeue_lem current now st q i before rest (l, d, u, num, byt, lt, bt) =
    let mq = st.msgque_pool q in
    let p = prev_of none before in
    let ids = before ++ rest in
    let (d', f) = IsDistinct-drop before i rest d in
    let (len, u') = InUse-drop st.msg_pool before i rest u in
    let pool = unlinked st.msg_pool i p in
    let pool' = update pool i zero_msg in
    let total : bytes pool' ids ≡ bytes st.msg_pool ids =
      bytes-update pool i zero_msg ids f ∙ bytes-unlinked st.msg_pool i p ids in
    let sum = bytes-among st.msg_pool i before rest in
    let count = length-among before i rest in
    let mq' : Msqid = record mq {
      msg_first = first_left st.msg_pool i p mq.msg_first;
      msg_rtime = now;
      msg_ctime = now;
      msg_qnum = u16 (mq.msg_qnum + 2 ^ 16 - 1);
      msg_cbytes = u16 (mq.msg_cbytes + 2 ^ 16 - (st.msg_pool i).msg_ts);
      msg_lrpid = u16 current.pid;
    } in
    let links =
      Links-update pool i zero_msg mq'.msg_first ids f
        (Links-unlinked st.msg_pool i mq.msg_first before rest d l) in
    let usage = InUse-update pool i zero_msg ids f (InUse-unlinked st.msg_pool i p ids u') in
    let shown : Shows pool' mq' ids = (
      links,
      d',
      usage,
      omega (arith, num, count, lt),
      omega (arith, byt, sum, total, bt),
      omega (arith, count, lt),
      omega (arith, sum, total, bt),
    ) in
    (
      subst (λ y. Shows pool' y ids) (sym (update_self st.msgque_pool q mq')) shown,
      view-update pool i zero_msg ids f ∙ view-unlinked st.msg_pool i p ids,
    )

-- What a type asks for: 0 is satisfied with every message.
abbrev pub asks_for : ℕ → ℕ → ℤ → Bool
asks_for msgtyp msgflg type = if msgtyp == 0 then true else is_wanted (pos msgtyp) msgflg type

look_typed :
    (fuel msgtyp msgflg : ℕ) (mprev : Option ℕ) (st : Msgs) (q : ℕ)
    → msgtyp ≢ 0
    → look fuel (pos msgtyp) msgflg mprev st q
      ≡ scan fuel st.msg_pool (is_wanted (pos msgtyp) msgflg) mprev (st.msgque_pool q).msg_first
unfolding look
look_typed fuel msgtyp msgflg mprev st q ne = ground (arith, ne)

-- One round of the loop looks for what the type asks for.
pub look-Scanned :
    (msgtyp msgflg : ℕ) (st : Msgs) (q : ℕ) (ids : List ℕ)
    → Holds st q ids
    → (r : Option ℕ × Option ℕ) × (look chain_fuel (pos msgtyp) msgflg none st q ≡ some r)
      × Scanned st.msg_pool (asks_for msgtyp msgflg) none ids r
unfolding look
look-Scanned msgtyp msgflg st q ids (l, d, u, num, byt, lt, bt) = elim (ℕ_discrete msgtyp 0) [
  | yes e ↦ rw e (at_first ids (st.msgque_pool q).msg_first l)
  | no ne ↦
      let wanted = is_wanted (pos msgtyp) msgflg in
      let (r, ran, s) =
        scan-Scanned chain_fuel st.msg_pool wanted none (st.msgque_pool q).msg_first ids l
          (omega (arith, lt)) in
      let same : asks_for msgtyp msgflg ≡ wanted = fun_ext λ type. ground (arith, ne) in
      (
        r,
        look_typed chain_fuel msgtyp msgflg none st q ne ∙ ran,
        subst (λ w. Scanned st.msg_pool w none ids r) (sym same) s,
      )
]
  where
    at_first :
        (js : List ℕ) (m : Option ℕ)
        → Links st.msg_pool m js
        → (r : Option ℕ × Option ℕ) × (some (none, m) ≡ some r)
          × Scanned st.msg_pool (asks_for 0 msgflg) none js r
    at_first [] m l = ((none, none), rw l refl, refl)
    at_first (i ∷ js) m (e, l) = ((none, some i), rw e refl, ([], js, refl, refl, refl, refl))
