-- ===== src/Msg/Control.antt =====
-- kernel/syscalls/msgctl.c: `sys_msgctl`, one function for each case of its switch, with `now` for
-- CURRENT_TIME and `area` for what `check_user_area` answers. `wakeup` changes nothing but the sleep
-- queue.
use fiwix_arm.Base.{
  Bool, Option, bit_and, bit_or, false, if◌then◌else◌, ltb, none, not, some, suc, true, zero, ℕ,
  ◌%◌, ◌&&◌, ◌*◌, ◌+◌, ◌-◌, ◌==◌, ◌^◌, ◌||◌,
}
use fiwix_arm.Msg.{
  ipc_has_perms, msgmnb, msgmni, u32, queue_of, msgtql, update, u16, IpcPerm, ℤ, msg_release_mq,
  msg_release_md, Proc, Result, Msqid, Msgs,
}
use fiwix_arm.Msg.Receive.{chain_fuel}
use fiwix_arm.Base.Errno.{acces, inval, done, fail, Errno}
use fiwix_arm.Process.{is_superuser}
use fiwix_arm.Base.Int.{pos, pos_part, ltb_ℤ}
use fiwix_arm.Ipc.{ipc_r}

-- What a command stores in the user's memory.
pub data Out : Type 0 where
  nothing : Out
  copy_of : Msqid → Out
  limits : ℕ → ℕ → ℕ → Out  -- msgpool, msgmap and msgtql; the other fields are constants

-- How a call ends: it returns, or the fuel for the chain of messages ran out.
pub data Ctl : Type 0 where
  answered : Msgs → Out → Result ℤ → Ctl
  no_fuel : Ctl

abbrev pub refused : Msgs → Errno → Ctl
refused st e = answered st nothing (fail e)

abbrev pub is_owner : Proc → IpcPerm → Bool
is_owner current perm =
    is_superuser current || (current.euid == perm.uid) || (current.euid == perm.cuid)

-- IPC_STAT, and MSG_STAT, which adds the whole `msqid` to the sequence number.
unfoldable pub stat_queue : Proc → Bool → Option Errno → ℤ → Msgs → Ctl
stat_queue current is_msg_stat area msqid st = elim area [
  | some e ↦ refused st e
  | none ↦ elim (queue_of st msqid) [
    | none ↦ refused st inval
    | some q ↦
        let mq = st.msgque_pool q in
        let retval : ℕ = if is_msg_stat then mq.msg_perm.seq * msgmni + pos_part msqid else 0 in
        if not (ipc_has_perms current mq.msg_perm ipc_r)
        then refused st acces
        else answered st (copy_of mq) (done (pos retval))
  ]
]

-- IPC_SET, with `uid`, `gid`, `mode` and `msg_qbytes` of the user's structure.
unfoldable pub set_queue : Proc → ℕ → Option Errno → ℤ → ℕ → ℕ → ℕ → ℕ → Msgs → Ctl
set_queue current now area msqid uid gid mode qbytes st = elim area [
  | some e ↦ refused st e
  | none ↦ elim (queue_of st msqid) [
    | none ↦ refused st inval
    | some q ↦
        let mq = st.msgque_pool q in
        let perm = mq.msg_perm in
        let bits : ℕ = bit_or (bit_and perm.mode (2 ^ 16 - 1 - 511)) (bit_and mode 511) in
        let perm' = record perm { uid = uid; gid = gid; mode = bits } in
        let mq' = record mq { msg_perm = perm'; msg_qbytes = qbytes; msg_ctime = now } in
        let st' = record st { msgque_pool = update st.msgque_pool q mq' } in
        if not (is_owner current perm)
        then refused st Errno.perm
        else if not (is_superuser current) && ltb msgmnb qbytes
        then refused st Errno.perm
        else answered st' nothing (done (pos 0))
  ]
]

-- The loop that frees the messages from `m` on, and counts them off the queue `q`.
unfoldable pub free_msgs : ℕ → ℕ → Msgs → Option ℕ → Option Msgs
unfolding msg_release_md
free_msgs zero q st m = elim m [ none ↦ some st | some _ ↦ none ]
free_msgs (suc fuel) q st m = elim m [
  | none ↦ some st
  | some i ↦
      let mq = st.msgque_pool q in
      let mq' = record mq {
        msg_qnum = u16 (mq.msg_qnum + 2 ^ 16 - 1);
        msg_cbytes = u16 (mq.msg_cbytes + 2 ^ 16 - (st.msg_pool i).msg_ts);
      } in
      let st' = record st {
        msgque_pool = update st.msgque_pool q mq';
        num_msgs = u32 (st.num_msgs + 2 ^ 32 - 1);
      } in
      free_msgs fuel q (msg_release_md st' i) (st.msg_pool i).msg_next
]

-- The loop that lowers `max_mqid`.
unfoldable pub lower_max : Msgs → ℕ → ℕ
lower_max st zero = 0
lower_max st (suc n) =
    let rest = lower_max st n in elim (st.msgque (suc n)) [ none ↦ rest | some _ ↦ suc n ]

-- `msg_release_mq` and what follows it, for queue `q` at place `n`
unfoldable pub remove_queue : Msgs → ℕ → ℕ → Msgs
unfolding msg_release_mq lower_max
remove_queue st q n =
    let freed = msg_release_mq st q in
    let st' = record freed {
      msgque = update st.msgque n none;
      num_queues = u32 (st.num_queues + 2 ^ 32 - 1);
      msg_seq = u32 (st.msg_seq + 1);
    } in
    let lowered = lower_max st' st.max_mqid in
    record st' { max_mqid = if n == st.max_mqid then lowered else st.max_mqid }

-- IPC_RMID
unfoldable pub rmid : Proc → ℤ → Msgs → Ctl
unfolding free_msgs remove_queue
rmid current msqid st = elim (queue_of st msqid) [
  | none ↦ refused st inval
  | some q ↦
      let removed : Ctl = elim (free_msgs chain_fuel q st (st.msgque_pool q).msg_first) [
        | none ↦ no_fuel
        | some st' ↦ answered (remove_queue st' q (pos_part msqid % msgmni)) nothing (done (pos 0))
      ] in
      if not (is_owner current (st.msgque_pool q).msg_perm) then refused st Errno.perm else removed
]

-- IPC_INFO and MSG_INFO
unfoldable pub info : Bool → Option Errno → Msgs → Ctl
info of_use area st = elim area [
  | some e ↦ refused st e
  | none ↦
      let out : Out = if of_use then limits st.num_queues st.num_msgs 0 else limits 0 0 msgtql in
      answered st out (done (pos st.max_mqid))
]

-- The commands, with what they take from the user.
pub data Cmd : Type 0 where
  msg_stat ipc_stat ipc_rmid msg_info ipc_info unknown : Cmd
  ipc_set : ℕ → ℕ → ℕ → ℕ → Cmd

unfoldable pub msgctl_command : Proc → ℕ → Option Errno → ℤ → Cmd → Msgs → Ctl
unfolding stat_queue set_queue rmid info
msgctl_command current now area msqid msg_stat st = stat_queue current true area msqid st
msgctl_command current now area msqid ipc_stat st = stat_queue current false area msqid st
msgctl_command current now area msqid (ipc_set uid gid mode qbytes) st =
    set_queue current now area msqid uid gid mode qbytes st
msgctl_command current now area msqid ipc_rmid st = rmid current msqid st
msgctl_command current now area msqid msg_info st = info true area st
msgctl_command current now area msqid ipc_info st = info false area st
msgctl_command current now area msqid unknown st = refused st inval

unfoldable pub sys_msgctl : Proc → ℕ → Option Errno → ℤ → Cmd → Msgs → Ctl
unfolding msgctl_command
sys_msgctl current now area msqid cmd st =
    let run = msgctl_command current now area msqid cmd st in
    if ltb_ℤ msqid (pos 0) then refused st inval else run
