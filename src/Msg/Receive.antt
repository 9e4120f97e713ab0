-- ===== src/Msg/Receive.antt =====
-- kernel/syscalls/msgrcv.c: `sys_msgrcv`, with `now` for CURRENT_TIME. The answer of
-- `check_user_area` and what each `sleep` ends with are arguments.
use fiwix_arm.Base.Int.{◌==ℤ◌}
use fiwix_arm.Base.{
  Bool, List, Option, [], if◌then◌else◌, ltb, none, not, some, suc, take, zero, ℕ, ◌&&◌, ◌+◌, ◌-◌,
  ◌^◌, ◌∷◌,
}
use fiwix_arm.Msg.{
  ipc_has_perms, u32, u16, ipc_nowait, msg_noerror, update, msg_except, queue_of, Msg, Proc,
  msg_release_md, Store, ℤ, Msgs,
}
use fiwix_arm.Msg.Send.{Woken}
use fiwix_arm.Base.Errno.{acces, intr, nomsg, too_big, inval, idrm, Errno}
use fiwix_arm.Process.{has_bits}
use fiwix_arm.Base.Int.{pos, ltb_ℤ}
use fiwix_arm.Ipc.{ipc_r}

-- How a call ends: it has stored a type and a text; it returns an error; it still sleeps; or the
-- fuel for the chain ran out.
pub data Rcv : Type 0 where
  received : Msgs → ℤ → List ℕ → Rcv
  refused : Msgs → Errno → Rcv
  asleep no_fuel : Rcv

-- The fuel for a chain: `msg_qnum`, which counts its messages, is less.
abbrev pub chain_fuel : ℕ
chain_fuel = 2 ^ 16

-- The loops over the messages from `m` on, with `mprev` and `m` when they end.
unfoldable pub scan :
    ℕ → Store Msg → (ℤ → Bool) → Option ℕ → Option ℕ → Option (Option ℕ × Option ℕ)
scan zero pool wanted mprev m = elim m [ none ↦ some (mprev, none) | some _ ↦ none ]
scan (suc fuel) pool wanted mprev m = elim m [
  | none ↦ some (mprev, none)
  | some i ↦
      let later = scan fuel pool wanted (some i) (pool i).msg_next in
      if wanted (pool i).msg_type then some (mprev, some i) else later
]

abbrev pub is_wanted : ℤ → ℕ → ℤ → Bool
is_wanted msgtyp msgflg type =
    if has_bits msgflg msg_except then not (type ==ℤ msgtyp) else type ==ℤ msgtyp

-- What one round of the loop looks for. A negative `msgtyp` finds nothing.
unfoldable pub look : ℕ → ℤ → ℕ → Option ℕ → Msgs → ℕ → Option (Option ℕ × Option ℕ)
unfolding scan
look fuel msgtyp msgflg mprev st q =
    let m = (st.msgque_pool q).msg_first in
    let scanned = scan fuel st.msg_pool (is_wanted msgtyp msgflg) mprev m in
    if msgtyp ==ℤ pos 0
    then some (mprev, m)
    else if ltb_ℤ (pos 0) msgtyp
    then scanned
    else some (mprev, none)

-- The message `m` leaves the chain of queue `q` and its pool; `msg_last` stays.
unfoldable pub dequeue : Proc → ℕ → Msgs → ℕ → Option ℕ → ℕ → Msgs
unfolding msg_release_md
dequeue current now st q mprev m =
    let mq = st.msgque_pool q in
    let next = (st.msg_pool m).msg_next in
    let pool : Store Msg = elim mprev [
      | none ↦ st.msg_pool
      | some p ↦ update st.msg_pool p (record (st.msg_pool p) { msg_next = next })
    ] in
    let first : Option ℕ = elim mprev [ none ↦ next | some _ ↦ mq.msg_first ] in
    let mq' = record mq {
      msg_first = first;
      msg_rtime = now;
      msg_ctime = now;
      msg_qnum = u16 (mq.msg_qnum + 2 ^ 16 - 1);
      msg_cbytes = u16 (mq.msg_cbytes + 2 ^ 16 - (st.msg_pool m).msg_ts);
      msg_lrpid = u16 current.pid;
    } in
    let st' = record st {
      msg_pool = pool;
      msgque_pool = update st.msgque_pool q mq';
      num_msgs = u32 (st.num_msgs + 2 ^ 32 - 1);
    } in
    msg_release_md st' m

-- What follows the loop.
unfoldable pub take_msg : Proc → ℕ → ℕ → ℕ → Msgs → ℕ → Option ℕ → ℕ → Rcv
unfolding dequeue
take_msg current now msgsz msgflg st q mprev m =
    let msg = st.msg_pool m in
    let count : ℕ = if ltb msgsz msg.msg_ts then msgsz else msg.msg_ts in
    if ltb msgsz msg.msg_ts && not (has_bits msgflg msg_noerror)
    then refused st too_big
    else received (dequeue current now st q mprev m) msg.msg_type (take count msg.msg_spot)

-- One round of the loop: how the call ends, or `mprev` for the next round.
pub data Round : Type 0 where
  over : Rcv → Round
  wait : Option ℕ → Round

unfoldable pub rcv_round : Proc → ℕ → ℕ → ℕ → ℤ → ℕ → Option ℕ → Msgs → ℕ → Round
unfolding look take_msg
rcv_round current now fuel msgsz msgtyp msgflg mprev st q =
    let looked : Round = elim (look fuel msgtyp msgflg mprev st q) [
      | none ↦ over no_fuel
      | some (mprev', none) ↦
          if has_bits msgflg ipc_nowait then over (refused st nomsg) else wait mprev'
      | some (mprev', some m) ↦ over (take_msg current now msgsz msgflg st q mprev' m)
    ] in
    if not (ipc_has_perms current (st.msgque_pool q).msg_perm ipc_r)
    then over (refused st acces)
    else looked

-- The loop, with how each sleep ends. `mprev` is not reset between two rounds.
unfoldable pub rcv_loop : Proc → ℕ → ℕ → ℤ → ℕ → ℤ → List Woken → Option ℕ → Msgs → ℕ → Rcv
unfolding rcv_round
rcv_loop current now msgsz msgtyp msgflg msqid [] mprev st q =
    elim (rcv_round current now chain_fuel msgsz msgtyp msgflg mprev st q) [
      | over r ↦ r
      | wait _ ↦ asleep
    ]
rcv_loop current now msgsz msgtyp msgflg msqid (w ∷ wakes) mprev st q =
    elim (rcv_round current now chain_fuel msgsz msgtyp msgflg mprev st q) [
      | over r ↦ r
      | wait mprev' ↦
          let later : Rcv = elim (queue_of w.tables msqid) [
            | none ↦ refused w.tables idrm
            | some q' ↦ rcv_loop current now msgsz msgtyp msgflg msqid wakes mprev' w.tables q'
          ] in
          if w.is_signal then refused w.tables intr else later
    ]

unfoldable pub sys_msgrcv : Proc → ℕ → Option Errno → ℤ → ℕ → ℤ → ℕ → List Woken → Msgs → Rcv
unfolding rcv_loop
sys_msgrcv current now area msqid msgsz msgtyp msgflg wakes st =
    let found : Rcv = elim (queue_of st msqid) [
      | none ↦ refused st inval
      | some q ↦ rcv_loop current now msgsz msgtyp msgflg msqid wakes none st q
    ] in
    let checked : Rcv = elim area [ none ↦ found | some e ↦ refused st e ] in
    if ltb_ℤ msqid (pos 0) then refused st inval else checked
