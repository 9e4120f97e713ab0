-- ===== src/Msg/Queue.antt =====
-- The abstract view of a message queue: the list of its messages. The chain of a queue, and when its
-- pointers and counts agree with it.
use fiwix_arm.Base.{
  List, Option, [], arith, length, none, refl, some, ℕ, ◌+◌, ◌<◌, ◌^◌, ◌∷◌, ◌≡◌, ◌≢◌,
}
use fiwix_arm.Msg.{Msqid, update, Msg, Store, Msgs}
use fiwix_arm.Base.Int.{ℤ}

-- The links from `m` on go through `ids`, and end.
abbrev pub Links : Store Msg → Option ℕ → List ℕ → Type 0
Links pool m [] = m ≡ none
Links pool m (i ∷ ids) = (m ≡ some i) × Links pool (pool i).msg_next ids

abbrev pub IsFresh : ℕ → List ℕ → Type 0
IsFresh i [] = Unit
IsFresh i (j ∷ ids) = (i ≢ j) × IsFresh i ids

abbrev pub IsDistinct : List ℕ → Type 0
IsDistinct [] = Unit
IsDistinct (i ∷ ids) = IsFresh i ids × IsDistinct ids

-- The last of a list, for a list with a first.
abbrev pub last_of : ℕ → List ℕ → ℕ
last_of i [] = i
last_of i (j ∷ ids) = last_of j ids

-- A message as its sender gave it.
abbrev pub view : Store Msg → List ℕ → List (ℤ × List ℕ)
view pool [] = []
view pool (i ∷ ids) = ((pool i).msg_type, (pool i).msg_spot) ∷ view pool ids

abbrev pub bytes : Store Msg → List ℕ → ℕ
bytes pool [] = 0
bytes pool (i ∷ ids) = (pool i).msg_ts + bytes pool ids

-- Every message is in use, with its text as long as it says.
abbrev pub InUse : Store Msg → List ℕ → Type 0
InUse pool [] = Unit
InUse pool (i ∷ ids) =
    (0 < (pool i).msg_stime) × (length (pool i).msg_spot ≡ (pool i).msg_ts) × InUse pool ids

-- `msg_last` is the last message, where there is one.
abbrev pub IsLast : Option ℕ → List ℕ → Type 0
IsLast last [] = Unit
IsLast last (i ∷ ids) = last ≡ some (last_of i ids)

-- A queue is the messages `ids` of a pool, counted right, apart from `msg_last`.
abbrev pub Shows : Store Msg → Msqid → List ℕ → Type 0
Shows pool mq ids =
    Links pool mq.msg_first ids
    × IsDistinct ids
    × InUse pool ids
    × (mq.msg_qnum ≡ length ids)
    × (mq.msg_cbytes ≡ bytes pool ids)
    × (length ids < 2 ^ 16)
    × (bytes pool ids < 2 ^ 16)

abbrev pub Holds : Msgs → ℕ → List ℕ → Type 0
Holds st q ids = Shows st.msg_pool (st.msgque_pool q) ids

abbrev pub IsQueue : Msgs → ℕ → List ℕ → Type 0
IsQueue st q ids = Holds st q ids × IsLast (st.msgque_pool q).msg_last ids

-- What a change of one message outside the chain leaves.
module _ (pool : Store Msg) (m : ℕ) (v : Msg) where
  pub Links-update :
      (o : Option ℕ) (ids : List ℕ)
      → IsFresh m ids
      → Links pool o ids
      → Links (update pool m v) o ids
  Links-update o [] f l = l
  Links-update o (i ∷ ids) (ne, f) (e, l) =
      ground (arith, ne, e, Links-update (pool i).msg_next ids f l)

  pub view-update : (ids : List ℕ) → IsFresh m ids → view (update pool m v) ids ≡ view pool ids
  view-update [] f = refl
  view-update (i ∷ ids) (ne, f) = ground (arith, ne, view-update ids f)

  pub bytes-update : (ids : List ℕ) → IsFresh m ids → bytes (update pool m v) ids ≡ bytes pool ids
  bytes-update [] f = refl
  bytes-update (i ∷ ids) (ne, f) = ground (arith, ne, bytes-update ids f)

  pub InUse-update : (ids : List ℕ) → IsFresh m ids → InUse pool ids → InUse (update pool m v) ids
  InUse-update [] f u = tt
  InUse-update (i ∷ ids) (ne, f) (a, b, u) = ground (arith, ne, a, b, InUse-update ids f u)
