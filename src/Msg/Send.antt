-- ===== src/Msg/Send.antt =====
-- kernel/syscalls/msgsnd.c: `sys_msgsnd`, with `now` for CURRENT_TIME. A page that `kmalloc` has or
-- has not, the answers of `check_user_area`, and how `sleep` ends are arguments.
use fiwix_arm.Base.{Bool, List, Option, [], if◌then◌else◌, ltb, none, not, some, ℕ, ◌+◌, ◌||◌, ◌∷◌}
use fiwix_arm.Msg.{
  ipc_nowait, msgmax, ipc_has_perms, u32, queue_of, u16, update, msg_release_md, Msg, Msqid,
  msg_get_new_md, Proc, Store, ℤ, Msgs,
}
use fiwix_arm.Base.Errno.{again, acces, inval, success, intr, nomem, fail, Errno, Status}
use fiwix_arm.Base.Slice.{slice}
use fiwix_arm.Ipc.{ipc_w}
use fiwix_arm.Base.Int.{pos, ltb_ℤ}
use fiwix_arm.Process.{has_bits}

-- What a call is given by the rest of the kernel, where `sleep` returns: whether a signal ended the
-- sleep, and the tables then.
pub record Woken : Type 0 where
  pub is_signal : Bool
  pub tables : Msgs

-- `msgp`: its type and its text
pub record Message : Type 0 where
  pub mtype : ℤ
  pub mtext : Store ℕ

abbrev pub set_next : Store Msg → Option ℕ → ℕ → Store Msg
set_next pool none m = pool
set_next pool (some last) m = update pool last (record (pool last) { msg_next = some m })

-- The message at `m` of the pool becomes the last of queue `q`, whose `msg_last` is not NULL where
-- `msg_first` is not.
unfoldable pub enqueue : Proc → ℕ → Message → ℕ → Msgs → ℕ → ℕ → Msgs
enqueue current now mb msgsz st q m =
    let mq = st.msgque_pool q in
    let new : Msg = record {
      msg_next = none;
      msg_type = mb.mtype;
      msg_spot = slice mb.mtext 0 msgsz;
      msg_stime = now;
      msg_ts = msgsz;
    } in
    let filled = update st.msg_pool m new in
    let pool : Store Msg = elim mq.msg_first [
      | none ↦ filled
      | some _ ↦ set_next filled mq.msg_last m
    ] in
    let first : Option ℕ = elim mq.msg_first [ none ↦ some m | some f ↦ some f ] in
    let mq' = record mq {
      msg_first = first;
      msg_last = some m;
      msg_stime = now;
      msg_ctime = now;
      msg_qnum = u16 (mq.msg_qnum + 1);
      msg_cbytes = u16 (mq.msg_cbytes + msgsz);
      msg_lspid = u16 current.pid;
    } in
    record st {
      msg_pool = pool;
      msgque_pool = update st.msgque_pool q mq';
      num_msgs = u32 (st.num_msgs + 1);
    }

-- What follows the loop.
unfoldable pub deliver : Proc → ℕ → Bool → Message → ℕ → Msgs → ℕ → Msgs × Status
unfolding msg_get_new_md msg_release_md enqueue
deliver current now has_page mb msgsz st q = elim (msg_get_new_md st) [
  | none ↦ (st, fail nomem)
  | some (m, st') ↦
      if has_page
      then (enqueue current now mb msgsz st' q m, success)
      else (msg_release_md st' m, fail nomem)
]

abbrev pub is_full : Msqid → ℕ → Bool
is_full mq msgsz = ltb mq.msg_qbytes (mq.msg_cbytes + msgsz) || ltb mq.msg_qbytes (mq.msg_qnum + 1)

-- The loop, which goes round once: behind a sleep neither the permission nor the room is looked at
-- again, and `mq`, which is no longer read from the table, is never IPC_UNUSED. `none` is a process
-- that still sleeps.
unfoldable pub send :
    Proc → ℕ → Bool → Message → ℕ → ℕ → List Woken → Msgs → ℕ → Option (Msgs × Status)
unfolding deliver
send current now has_page mb msgsz msgflg wakes st q =
    let mq = st.msgque_pool q in
    let asleep : Option (Msgs × Status) = elim wakes [
      | [] ↦ none
      | w ∷ more ↦
          let sent = deliver current now has_page mb msgsz w.tables q in
          if w.is_signal then some (w.tables, fail intr) else some sent
    ] in
    let sent = deliver current now has_page mb msgsz st q in
    if not (ipc_has_perms current mq.msg_perm ipc_w)
    then some (st, fail acces)
    else if not (is_full mq msgsz)
    then some sent
    else if has_bits msgflg ipc_nowait
    then some (st, fail again)
    else asleep

-- `areas` are the answers for the type and for the text.
unfoldable pub sys_msgsnd :
    Proc
    → ℕ
    → Bool
    → Option Errno × Option Errno
    → ℤ
    → Message
    → ℕ
    → ℕ
    → List Woken
    → Msgs
    → Option (Msgs × Status)
unfolding send
sys_msgsnd current now has_page areas msqid mb msgsz msgflg wakes st =
    let refused : Errno → Option (Msgs × Status) = λ e. some (st, fail e) in
    let found : Option (Msgs × Status) = elim (queue_of st msqid) [
      | none ↦ refused inval
      | some q ↦ send current now has_page mb msgsz msgflg wakes st q
    ] in
    let typed : Option (Msgs × Status) =
      let read : Option (Msgs × Status) = elim areas.1 [ none ↦ found | some e ↦ refused e ] in
      if ltb_ℤ mb.mtype (pos 0) then refused inval else read in
    let checked : Option (Msgs × Status) = elim areas.0 [ none ↦ typed | some e ↦ refused e ] in
    if ltb_ℤ msqid (pos 0) || ltb msgmax msgsz then refused inval else checked
