-- ===== src/Msg.antt =====
-- kernel/syscalls/msgget.c and include/fiwix/msg.h: message queues, the pools behind them, and
-- `sys_msgget`. A pointer into a pool is an index; NULL and IPC_UNUSED are `none`.
pub mod Send
pub mod Receive
pub mod Control
pub mod Queue
pub mod Relink
pub mod Append
pub mod Fifo
pub mod Typed
pub mod Take
pub mod Refine
pub mod Remove
mod Tests
use fiwix_arm.Base.{
  Bool, List, Option, [], bit_and, bit_or, false, if◌then◌else◌, max, none, not, some, true, ℕ, ◌%◌,
  ◌*◌, ◌+◌, ◌==◌,
}
use fiwix_arm.Base.Search.{first_index}
use fiwix_arm.Base.Int.{pos_part, pos, ℤ}
use fiwix_arm.Ipc.{ipc_has_perms, ipc_excl, ipc_creat, IpcPerm}
use fiwix_arm.Base.Store.{update, Store}
use fiwix_arm.Process.{Proc}
use fiwix_arm.Base.Bits.{u32, u16}
use fiwix_arm.Base.Errno.{acces, exist, done, nospc, noent, inval, nomem, fail, Result}

abbrev pub msgmax : ℕ
msgmax = 4096

abbrev pub msgmni : ℕ
msgmni = 128

abbrev pub msgmnb : ℕ
msgmnb = 16384

abbrev pub msgtql : ℕ
msgtql = 1024

abbrev pub ipc_nowait : ℕ
ipc_nowait = 2048

abbrev pub msg_noerror : ℕ
msg_noerror = 4096

abbrev pub msg_except : ℕ
msg_except = 8192

-- `struct msg`; `msg_spot` is the text in the page that it points to.
pub record Msg : Type 0 where
  pub msg_next : Option ℕ
  pub msg_type : ℤ
  pub msg_spot : List ℕ
  pub msg_stime : ℕ
  pub msg_ts : ℕ

-- `struct msqid_ds` without its unused words; the last five fields are unsigned shorts.
pub record Msqid : Type 0 where
  pub msg_perm : IpcPerm
  pub msg_first : Option ℕ
  pub msg_last : Option ℕ
  pub msg_stime : ℕ
  pub msg_rtime : ℕ
  pub msg_ctime : ℕ
  pub msg_cbytes : ℕ
  pub msg_qnum : ℕ
  pub msg_qbytes : ℕ
  pub msg_lspid : ℕ
  pub msg_lrpid : ℕ

-- The globals.
pub record Msgs : Type 0 where
  pub msgque : Store (Option ℕ)
  pub msgque_pool : Store Msqid
  pub msg_pool : Store Msg
  pub num_queues : ℕ
  pub num_msgs : ℕ
  pub max_mqid : ℕ
  pub msg_seq : ℕ

abbrev pub zero_msqid : Msqid
zero_msqid = record {
  msg_perm = record { key = 0; uid = 0; gid = 0; cuid = 0; cgid = 0; mode = 0; seq = 0 };
  msg_first = none;
  msg_last = none;
  msg_stime = 0;
  msg_rtime = 0;
  msg_ctime = 0;
  msg_cbytes = 0;
  msg_qnum = 0;
  msg_qbytes = 0;
  msg_lspid = 0;
  msg_lrpid = 0;
}

abbrev pub zero_msg : Msg
zero_msg = record { msg_next = none; msg_type = pos 0; msg_spot = []; msg_stime = 0; msg_ts = 0 }

-- The state that `msg_init` leaves.
abbrev pub msg_init : Msgs
msg_init = record {
  msgque = λ n. none;
  msgque_pool = λ n. zero_msqid;
  msg_pool = λ n. zero_msg;
  num_queues = 0;
  num_msgs = 0;
  max_mqid = 0;
  msg_seq = 0;
}

pub msg_get_new_mq : Msgs → Option (ℕ × Msgs)
msg_get_new_mq st = elim (first_index (λ n. (st.msgque_pool n).msg_ctime == 0) 0 1 msgmni) [
  | none ↦ none
  | some n ↦
      let taken = record (st.msgque_pool n) { msg_ctime = 1 } in
      some (n, record st { msgque_pool = update st.msgque_pool n taken })
]

pub msg_release_mq : Msgs → ℕ → Msgs
msg_release_mq st mq = record st { msgque_pool = update st.msgque_pool mq zero_msqid }

pub msg_get_new_md : Msgs → Option (ℕ × Msgs)
msg_get_new_md st = elim (first_index (λ n. (st.msg_pool n).msg_stime == 0) 0 1 msgtql) [
  | none ↦ none
  | some n ↦
      let taken = record (st.msg_pool n) { msg_stime = 1 } in
      some (n, record st { msg_pool = update st.msg_pool n taken })
]

pub msg_release_md : Msgs → ℕ → Msgs
msg_release_md st m = record st { msg_pool = update st.msg_pool m zero_msg }

abbrev pub is_unused : Msgs → ℕ → Bool
is_unused st n = elim (st.msgque n) [ none ↦ true | some _ ↦ false ]

abbrev pub has_key : Msgs → ℕ → ℕ → Bool
has_key st key n = elim (st.msgque n) [
  | none ↦ false
  | some mq ↦ key == (st.msgque_pool mq).msg_perm.key
]

-- The identifier of the queue `mq` at place `n`.
abbrev pub id_of : Msgs → ℕ → ℕ → ℕ
id_of st mq n = (st.msgque_pool mq).msg_perm.seq * msgmni + n

-- The label `init`, with `now` for CURRENT_TIME.
pub init_queue : Proc → ℕ → ℕ → ℕ → Msgs → ℕ → ℕ → Msgs
init_queue current now key msgflg st mq n =
    let perm : IpcPerm = record {
      key = key;
      uid = current.euid;
      gid = current.egid;
      cuid = current.euid;
      cgid = current.egid;
      mode = bit_and msgflg 511;
      seq = u16 st.msg_seq;
    } in
    let queue : Msqid = record {
      msg_perm = perm;
      msg_first = none;
      msg_last = none;
      msg_stime = 0;
      msg_rtime = 0;
      msg_ctime = now;
      msg_cbytes = 0;
      msg_qnum = 0;
      msg_qbytes = msgmnb;
      msg_lspid = 0;
      msg_lrpid = 0;
    } in
    record st {
      msgque_pool = update st.msgque_pool mq queue;
      msgque = update st.msgque n (some mq);
      max_mqid = max st.max_mqid n;
      num_queues = u32 (st.num_queues + 1);
    }

pub create_queue : Proc → ℕ → ℕ → ℕ → Msgs → Msgs × Result ℕ
unfolding msg_get_new_mq msg_release_mq init_queue
create_queue current now key msgflg st = elim (msg_get_new_mq st) [
  | none ↦ (st, fail nomem)
  | some (mq, st1) ↦
      let free : Option ℕ = first_index (is_unused st1) 0 1 msgmni in
      elim free [
        | none ↦ (msg_release_mq st1 mq, fail nospc)
        | some n ↦
            let st2 = init_queue current now key msgflg st1 mq n in (st2, done (id_of st2 mq n))
      ]
]

-- The queue at place `n`, which has the key, so that it is never unused.
pub open_queue : Proc → ℕ → Msgs → ℕ → Msgs × Result ℕ
open_queue current msgflg st n = elim (st.msgque n) [
  | none ↦ (st, fail inval)
  | some mq ↦
      if bit_and msgflg (bit_or ipc_creat ipc_excl) == bit_or ipc_creat ipc_excl
      then (st, fail exist)
      else if not (ipc_has_perms current (st.msgque_pool mq).msg_perm msgflg)
      then (st, fail acces)
      else (st, done (id_of st mq n))
]

pub sys_msgget : Proc → ℕ → ℕ → ℕ → Msgs → Msgs × Result ℕ
unfolding create_queue open_queue
sys_msgget current now key msgflg st =
    let created = create_queue current now key msgflg st in
    let found : Option ℕ = first_index (has_key st key) 0 1 msgmni in
    let opened : Msgs × Result ℕ = elim found [
      | none ↦ if bit_and msgflg ipc_creat == 0 then (st, fail noent) else created
      | some n ↦ open_queue current msgflg st n
    ] in
    if key == 0 then created else opened

-- The queue that the other calls take for an identifier that is not negative: its sequence number is
-- not compared.
abbrev pub queue_of : Msgs → ℤ → Option ℕ
queue_of st msqid = st.msgque (pos_part msqid % msgmni)
