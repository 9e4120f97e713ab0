-- ===== src/Msg/Fifo.antt =====
-- A message that is sent comes last, unless `msg_last` is not the last message.
use fiwix_arm.Base.{
  Bool, List, Option, [], ap, arith, false, inl, inr, none, refl, some, sym, true, ℕ, ◌++◌, ◌+◌,
  ◌<◌, ◌==◌, ◌^◌, ◌∙◌, ◌∷◌, ◌≡◌, ◌≢◌, ◌≤◌, ◌⊎◌,
}
use fiwix_arm.Base.Store.{update, Store, update_self}
use fiwix_arm.Base.Search.{first_index, Found, first_index-Found}
use fiwix_arm.Msg.Queue.{
  view-update, InUse-update, Links-update, bytes-update, view, IsQueue, IsFresh, Links,
}
use fiwix_arm.Msg.Relink.{IsFresh-unused}
use fiwix_arm.Msg.{
  msgmax, ipc_has_perms, pos, msgtql, queue_of, u16, Proc, msg_get_new_md, Msqid, Msg, Msgs,
}
use fiwix_arm.Msg.Send.{Woken, send, is_full, enqueue, sys_msgsnd, deliver, Message}
use fiwix_arm.Base.Errno.{nomem, fail, success, Status}
use fiwix_arm.Base.Slice.{slice}
use fiwix_arm.Msg.Append.{first_now, appended, enqueue_lem, new_msg, Counted}
use fiwix_arm.Ipc.{ipc_w}
use mathlib.Core.Path.{subst}

-- What a send to the queue `ids` leaves and returns: the message is the last one, or the pool of
-- messages is used up and nothing has changed.
abbrev pub Sent : Msgs → ℕ → List ℕ → Message → ℕ → Msgs × Status → Type 0
Sent st q ids mb msgsz (st', s) =
    ((s ≡ success)
      × (m : ℕ) × IsQueue st' q (ids ++ m ∷ [])
      × (view st'.msg_pool (ids ++ m ∷ [])
          ≡ view st.msg_pool ids ++ (mb.mtype, slice mb.mtext 0 msgsz) ∷ []))
    ⊎ ((s ≡ fail nomem) × (st' ≡ st) × ((n : ℕ) → n < msgtql → (st.msg_pool n).msg_stime ≢ 0))

abbrev is_free : Msgs → ℕ → Bool
is_free st n = (st.msg_pool n).msg_stime == 0

-- The queue is the same where a free message has been marked.
IsQueue-marked :
    (st : Msgs) (q m : ℕ) (ids : List ℕ) (v : Msg)
    → IsFresh m ids
    → IsQueue st q ids
    → IsQueue (record st { msg_pool = update st.msg_pool m v }) q ids
IsQueue-marked st q m ids v f ((l, d, u, num, byt, lt, bt), last) =
    let same = bytes-update st.msg_pool m v ids f in
    (
      (
        Links-update st.msg_pool m v (st.msgque_pool q).msg_first ids f l,
        d,
        InUse-update st.msg_pool m v ids f u,
        num,
        byt ∙ sym same,
        lt,
        omega (arith, same, bt),
      ),
      last,
    )

deliver-Sent :
    (current : Proc) (now : ℕ) (mb : Message) (msgsz : ℕ) (st : Msgs) (q : ℕ) (ids : List ℕ)
    → IsQueue st q ids
    → 0 < now
    → Counted st q ids msgsz
    → Sent st q ids mb msgsz (deliver current now true mb msgsz st q)
unfolding deliver msg_get_new_md
deliver-Sent current now mb msgsz st q ids que now_pos (lt, bt) =
    at_free (first_index (is_free st) 0 1 msgtql) (first_index-Found (is_free st) 0 msgtql)
  where
    at_free :
        (o : Option ℕ)
        → Found (is_free st) 0 msgtql o
        → let md : Option (ℕ × Msgs) = elim o [
          | none ↦ none
          | some n ↦
              let taken = record (st.msg_pool n) { msg_stime = 1 } in
              some (n, record st { msg_pool = update st.msg_pool n taken })
        ] in
          let r : Msgs × Status = elim md [
            | none ↦ (st, fail nomem)
            | some (m, st') ↦ (enqueue current now mb msgsz st' q m, success)
          ] in
          Sent st q ids mb msgsz r
    at_free none f =
        inr (refl, refl, λ n lt e. absurd (used n (f n (omega arith) (omega (arith, lt))) e))
      where
        used : (n : ℕ) → is_free st n ≡ false → (st.msg_pool n).msg_stime ≢ 0
        used n h = ground (arith, h)
    at_free (some m) (is, lo, hi, before) =
        let taken = record (st.msg_pool m) { msg_stime = 1 } in
        let st1 = record st { msg_pool = update st.msg_pool m taken } in
        let unused : (st.msg_pool m).msg_stime ≡ 0 = ground (arith, is) in
        let fresh = IsFresh-unused st.msg_pool m ids unused que.0.2 in
        let same = bytes-update st.msg_pool m taken ids fresh in
        let (que', seen) =
          enqueue_lem current now mb msgsz st1 q m ids (IsQueue-marked st q m ids taken fresh que)
            fresh now_pos (lt, omega (arith, bt, same)) in
        let text = (mb.mtype, slice mb.mtext 0 msgsz) ∷ [] in
        inl (refl, m, que', seen ∙ ap (λ l. l ++ text) (view-update st.msg_pool m taken ids fresh))

is_full_lem :
    (mq : Msqid) (msgsz : ℕ)
    → is_full mq msgsz ≡ false
    → (mq.msg_cbytes + msgsz ≤ mq.msg_qbytes) × (mq.msg_qnum + 1 ≤ mq.msg_qbytes)
is_full_lem mq msgsz e = (ground (arith, e), ground (arith, e))

-- A call that sends a message of at most MSGMAX bytes, whose type is not negative, from a page that
-- is there and at a time that is not 0. Its queue shows the messages `ids`: they are linked in this
-- order, differ, are in use, are counted right in number and bytes, and `msg_last` points to the last
-- of them (IsQueue); it may be written to, is not full, and its limit is below 2^16. The call then
-- does not sleep, and either it returns 0 and the queue shows `ids` and the new message behind them,
-- counted right again, or no entry of the pool is free, it returns ENOMEM and nothing has changed.
pub sys_msgsnd-Sent :
    (current : Proc) (now id msgsz msgflg q type : ℕ) (mtext : Store ℕ) (wakes : List Woken)
    (st : Msgs) (ids : List ℕ)
    → queue_of st (pos id) ≡ some q
    → IsQueue st q ids
    → ipc_has_perms current (st.msgque_pool q).msg_perm ipc_w ≡ true
    → is_full (st.msgque_pool q) msgsz ≡ false
    → (st.msgque_pool q).msg_qbytes < 2 ^ 16
    → msgsz ≤ msgmax
    → 0 < now
    → let mb : Message = record { mtype = pos type; mtext = mtext } in
      (r : Msgs × Status) × (sys_msgsnd current now true
          (none, none)
          (pos id)
          mb
          msgsz
          msgflg
          wakes
          st
        ≡ some r)
      × Sent st q ids mb msgsz r
unfolding sys_msgsnd send
sys_msgsnd-Sent current now id msgsz msgflg q type mtext wakes st ids is que may room small le
      now_pos =
    let mb : Message = record { mtype = pos type; mtext = mtext } in
    let fits : Counted st q ids msgsz =
      let (a, b) = is_full_lem (st.msgque_pool q) msgsz room in
      let (l, d, u, num, byt, lt, bt) = que.0 in
      (omega (arith, b, num, small), omega (arith, a, byt, small)) in
    let start : send current now true mb msgsz msgflg wakes st q
        ≡ some (deliver current now true mb msgsz st q) =
      ground (arith, may, room) in
    let run : sys_msgsnd current now true (none, none) (pos id) mb msgsz msgflg wakes st
        ≡ some (deliver current now true mb msgsz st q) =
      ground (arith, is, le, start) in
    (
      deliver current now true mb msgsz st q,
      run,
      deliver-Sent current now mb msgsz st q ids que now_pos fits,
    )

-- A queue with messages whose `msg_last` is not one of them, as a receive of its last message with a
-- type leaves it: what is enqueued then is Counted, but the queue has the same messages as before.
pub enqueue_lost :
    (current : Proc) (now : ℕ) (mb : Message) (msgsz : ℕ) (st : Msgs) (q m i last : ℕ)
    (ids : List ℕ)
    → Links st.msg_pool (st.msgque_pool q).msg_first (i ∷ ids)
    → (st.msgque_pool q).msg_last ≡ some last
    → IsFresh last (i ∷ ids)
    → IsFresh m (i ∷ ids)
    → let st' = enqueue current now mb msgsz st q m in
      Links st'.msg_pool (st'.msgque_pool q).msg_first (i ∷ ids)
      × (view st'.msg_pool (i ∷ ids) ≡ view st.msg_pool (i ∷ ids))
      × ((st'.msgque_pool q).msg_qnum ≡ u16 ((st.msgque_pool q).msg_qnum + 1))
unfolding enqueue
enqueue_lost current now mb msgsz st q m i last ids (e, l) is f fm =
    let v = new_msg now mb msgsz in
    let pool = update st.msg_pool m v in
    let mq = st.msgque_pool q in
    let link : (pool m).msg_next ≡ none =
      ap (λ (y : Msg). y.msg_next) (update_self st.msg_pool m v) in
    let w = record (pool last) { msg_next = some m } in
    let js = i ∷ ids in
    let links : Links (update pool last w) (some i) js =
      Links-update pool last w (some i) js f
        (Links-update st.msg_pool m v (some i) js fm (refl, l)) in
    let seen : view (update pool last w) js ≡ view st.msg_pool js =
      view-update pool last w js f ∙ view-update st.msg_pool m v js fm in
    let IsLost : Option ℕ → Option ℕ → Type 0 = λ x y.
      Links (appended pool m link x y) (first_now pool m link x) js
      × (view (appended pool m link x y) js ≡ view st.msg_pool js) in
    let lost : IsLost mq.msg_first mq.msg_last =
      subst (λ x. IsLost x mq.msg_last) (sym e) (subst (IsLost (some i)) (sym is) (links, seen)) in
    let mq' : Msqid = record mq {
      msg_first = first_now pool m link mq.msg_first;
      msg_last = some m;
      msg_stime = now;
      msg_ctime = now;
      msg_qnum = u16 (mq.msg_qnum + 1);
      msg_cbytes = u16 (mq.msg_cbytes + msgsz);
      msg_lspid = u16 current.pid;
    } in
    let pool' = appended pool m link mq.msg_first mq.msg_last in
    subst
      (λ (y : Msqid).
        Links pool' y.msg_first js
        × (view pool' js ≡ view st.msg_pool js)
        × (y.msg_qnum ≡ u16 (mq.msg_qnum + 1)))
      (sym (update_self st.msgque_pool q mq')) (lost.0, lost.1, refl)
