-- ===== src/Msg/Tests.antt =====
-- Runs of the message queues, and the theorems about them at concrete queues.
use fiwix_arm.Base.{
  ==_iff, Bool, Bool-cases, List, Option, Option-cases, Option-elim, [], ap, ap₂, arith, bit_and,
  bit_or, drop, false, fun_ext, get_elem?, get_elem?-set_ne, get_elem?-set_self, get_or, if-cases,
  inl, inr, leb, leb→le, length, length-append, length-drop, length-map, length-replicate,
  length-set, length-take, le→leb, ltb, ltb→lt, lt→ltb, map, max, min, none, not, not_le→leb,
  not_lt→ltb, refl, replicate, set, some, suc, sym, take, take-append-drop, tests, true, zero, ℕ,
  ◌%◌, ◌&&◌, ◌*◌, ◌++◌, ◌+◌, ◌-◌, ◌/◌, ◌<◌, ◌==◌, ◌^◌, ◌||◌, ◌↔◌, ◌∙◌, ◌∷◌, ◌≡◌,
}
use fiwix_arm.Msg.{
  u16, queue_of, zero_msqid, update, pos, done, msg_init, Store, sys_msgget, init_queue, Result,
  Msgs,
}
use fiwix_arm.Msg.Queue.{view, IsQueue, Links}
use fiwix_arm.Ipc.{ipc_w, ipc_has_perms}
use fiwix_arm.Msg.Fifo.{enqueue_lost, Sent, sys_msgsnd-Sent}
use fiwix_arm.Process.Sample.{a_root}
use fiwix_arm.Msg.Send.{sys_msgsnd, is_full, enqueue, Message}
use fiwix_arm.Msg.Receive.{
  scan, take_msg, look, rcv_round, no_fuel, rcv_loop, asleep, refused, received, sys_msgrcv, Rcv,
  dequeue,
}
use fiwix_arm.Base.Errno.{Status}

-- One queue, made by the superuser at time 100.
abbrev made : Msgs × Result ℕ
made = sys_msgget a_root 100 7 (512 + 384) msg_init

abbrev one_queue : Msgs
one_queue =
    init_queue a_root 100 7 896
      (record msg_init {
        msgque_pool = update msg_init.msgque_pool 0 (record zero_msqid { msg_ctime = 1 });
      })
      0 0

made_first : made ≡ (one_queue, done 0)
unfolding sys_msgget fiwix_arm.Base.Search.first_index
made_first = refl

-- The text of a test: 65, 66, ...
abbrev letters : Store ℕ
letters i = 65 + i

abbrev letter_message : ℕ → Message
letter_message type = record { mtype = pos type; mtext = letters }

-- Two messages, of types 5 and 6.
abbrev two_messages : Msgs
two_messages =
    enqueue a_root 100 (letter_message 6) 2 (enqueue a_root 100 (letter_message 5) 3 one_queue 0 0)
      0 1

two_messages-IsQueue : IsQueue two_messages 0 (0 ∷ 1 ∷ [])
unfolding enqueue init_queue
two_messages-IsQueue = (
  (
    (refl, (refl, refl)),
    ((omega arith, tt), (tt, tt)),
    (omega arith, refl, (omega arith, refl, tt)),
    refl,
    refl,
    omega arith,
    omega arith,
  ),
  refl,
)

-- A receive with type 6, the last message, and then a send: the message is counted, and lost.
abbrev after_last : Msgs
after_last = dequeue a_root 101 two_messages 0 (some 0) 1

sent_lost :
    let st' = enqueue a_root 102 (letter_message 9) 1 after_last 0 1 in
    ((st'.msgque_pool 0).msg_qnum ≡ 2) × ((st'.msg_pool 0).msg_next ≡ none)
unfolding enqueue dequeue init_queue
sent_lost = (refl, refl)

-- A receive with type 6 finds nothing but type 5 and sleeps. Meanwhile the message of type 5 is
-- received and one of type 6 sent, which takes the same entry. The chain then still begins with the
-- entry that the receive has freed, since `mprev` was not reset.
abbrev stale_tables : Msgs
stale_tables =
    enqueue a_root 102 (letter_message 6) 2
      (dequeue a_root 101 (enqueue a_root 100 (letter_message 5) 3 one_queue 0 0) 0 none 0) 0 0

abbrev sleeping_receive : Rcv
sleeping_receive =
    sys_msgrcv a_root 103 none (pos 0) 10 (pos 6) 0
      (record { is_signal = false; tables = stale_tables } ∷ [])
      (enqueue a_root 100 (letter_message 5) 3 one_queue 0 0)

-- What the receive has stored, where its entry is free and first, and how many messages are counted.
abbrev outcome : Rcv → Option (List ℕ × Option ℕ × ℕ × ℕ)
outcome r = elim r [
  | received st' type text ↦
      let mq = st'.msgque_pool 0 in
      some (text, mq.msg_first, mq.msg_qnum, (st'.msg_pool 0).msg_stime)
  | refused _ _ ↦ none
  | asleep ↦ none
  | no_fuel ↦ none
]

freed_first : outcome sleeping_receive ≡ some (65 ∷ 66 ∷ [], some 0, 0, 0)
unfolding enqueue dequeue init_queue sys_msgrcv rcv_loop rcv_round look take_msg scan ipc_has_perms
freed_first = refl

has_queue : queue_of two_messages (pos 0) ≡ some 0
unfolding enqueue init_queue
has_queue = refl

may_write : ipc_has_perms a_root (two_messages.msgque_pool 0).msg_perm ipc_w ≡ true
unfolding enqueue ipc_has_perms init_queue
may_write = refl

has_room : is_full (two_messages.msgque_pool 0) 4 ≡ false
unfolding enqueue init_queue
has_room = refl

small : (two_messages.msgque_pool 0).msg_qbytes < 2 ^ 16
unfolding enqueue init_queue
small = omega arith

abbrev third : Message
third = letter_message 9

sys_msgsnd-Sent_example :
    (r : Msgs × Status) × (sys_msgsnd a_root 101 true (none, none) (pos 0) third 4 0 [] two_messages
      ≡ some r)
    × Sent two_messages 0 (0 ∷ 1 ∷ []) third 4 r
sys_msgsnd-Sent_example =
    sys_msgsnd-Sent a_root 101 0 4 0 0 9 letters [] two_messages (0 ∷ 1 ∷ []) has_queue
      two_messages-IsQueue may_write has_room small (omega arith) (omega arith)

after_last-Links :
    Links after_last.msg_pool (after_last.msgque_pool 0).msg_first (0 ∷ [])
    × ((after_last.msgque_pool 0).msg_last ≡ some 1)
unfolding enqueue dequeue init_queue
after_last-Links = ((refl, refl), refl)

enqueue_lost_example :
    let st' = enqueue a_root 102 third 1 after_last 0 1 in
    Links st'.msg_pool (st'.msgque_pool 0).msg_first (0 ∷ [])
    × (view st'.msg_pool (0 ∷ []) ≡ view after_last.msg_pool (0 ∷ []))
    × ((st'.msgque_pool 0).msg_qnum ≡ u16 ((after_last.msgque_pool 0).msg_qnum + 1))
enqueue_lost_example =
    enqueue_lost a_root 102 third 1 after_last 0 1 0 1 [] after_last-Links.0 after_last-Links.1
      (omega arith, tt) (omega arith, tt)
