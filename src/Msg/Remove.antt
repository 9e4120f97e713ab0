-- ===== src/Msg/Remove.antt =====
-- A queue that is removed frees its messages.
use fiwix_arm.Base.{List, [], length, ℕ, ◌+◌, ◌-◌, ◌^◌, ◌∷◌, ◌≡◌, ◌≢◌}
use fiwix_arm.Base.Store.{update, Store}
use fiwix_arm.Msg.Queue.{IsFresh}
use fiwix_arm.Msg.{Msqid, u32, zero_msg, Msg, u16, Msgs}

abbrev pub AreFree : Store Msg → List ℕ → Type 0
AreFree pool [] = Unit
AreFree pool (i ∷ ids) = (pool i ≡ zero_msg) × AreFree pool ids

-- What the loop leaves: the messages are free, and nothing else has changed but the counts.
abbrev Freed : ℕ → Msgs → List ℕ → Msgs → Type 0
Freed q st ids st' =
    AreFree st'.msg_pool ids
    × ((j : ℕ) → IsFresh j ids → st'.msg_pool j ≡ st.msg_pool j)
    × ((j : ℕ) → q ≢ j → st'.msgque_pool j ≡ st.msgque_pool j)
    × (st'.msgque ≡ st.msgque)
    × (st'.num_queues ≡ st.num_queues)
    × (st'.num_msgs + length ids ≡ st.num_msgs)

-- The queue and the counts when the loop has freed message `i`.
abbrev counted_off : ℕ → Msgs → ℕ → Msqid
counted_off q st i =
    let mq = st.msgque_pool q in
    record mq {
      msg_qnum = u16 (mq.msg_qnum + 2 ^ 16 - 1);
      msg_cbytes = u16 (mq.msg_cbytes + 2 ^ 16 - (st.msg_pool i).msg_ts);
    }

abbrev one_freed : ℕ → Msgs → ℕ → Msgs
one_freed q st i = record st {
  msgque_pool = update st.msgque_pool q (counted_off q st i);
  num_msgs = u32 (st.num_msgs + 2 ^ 32 - 1);
  msg_pool = update st.msg_pool i zero_msg;
}
