-- ===== src/Msg/Append.antt =====
-- What a message put behind the others leaves of the chain of a queue.
use fiwix_arm.Base.{
  List, Option, [], ap, ap₂, arith, length, length-append, none, refl, some, suc, sym, zero, ℕ,
  ◌++◌, ◌+◌, ◌<◌, ◌^◌, ◌∙◌, ◌∷◌, ◌≡◌,
}
use fiwix_arm.Base.Store.{update, Store, update_self}
use fiwix_arm.Msg.Queue.{
  Shows, view-update, InUse-update, Links-update, bytes-update, IsQueue, InUse, bytes, view, IsLast,
  IsFresh, IsDistinct, last_of, Links,
}
use fiwix_arm.Msg.Relink.{
  IsDistinct-snoc, view-append, InUse-append, bytes-append, InUse-relinked, bytes-relinked,
  view-relinked, IsFresh-last_of, relink,
}
use fiwix_arm.Msg.{u16, Msqid, Proc, Msg, Msgs}
use fiwix_arm.Msg.Send.{enqueue, set_next, Message}
use fiwix_arm.Base.Slice.{slice}
use mathlib.Core.List.{append-nil}
use mathlib.Core.Path.{subst}

-- The message that `enqueue` stores.
abbrev pub new_msg : ℕ → Message → ℕ → Msg
new_msg now mb msgsz = record {
  msg_next = none;
  msg_type = mb.mtype;
  msg_spot = slice mb.mtext 0 msgsz;
  msg_stime = now;
  msg_ts = msgsz;
}

length-slice : (d : Store ℕ) (at n : ℕ) → length (slice d at n) ≡ n
length-slice d at zero = refl
length-slice d at (suc n) = ap suc (length-slice d (at + 1) n)

last_of-snoc : (i : ℕ) (ids : List ℕ) (m : ℕ) → last_of i (ids ++ m ∷ []) ≡ m
last_of-snoc i [] m = refl
last_of-snoc i (j ∷ ids) m = last_of-snoc j ids m

-- The chain with the new message, in a pool that has it.
module _ (pool : Store Msg) (m : ℕ) (link : (pool m).msg_next ≡ none) where
  abbrev pub appended : Option ℕ → Option ℕ → Store Msg
  appended first last = elim first [ none ↦ pool | some _ ↦ set_next pool last m ]

  abbrev pub first_now : Option ℕ → Option ℕ
  first_now first = elim first [ none ↦ some m | some f ↦ some f ]

  Links-appended :
      (first last : Option ℕ) (ids : List ℕ)
      → IsDistinct ids
      → IsFresh m ids
      → Links pool first ids
      → IsLast last ids
      → Links (appended first last) (first_now first) (ids ++ m ∷ [])
  Links-appended first last [] d f l q = rw l (refl, link)
  Links-appended first last (i ∷ ids) d f (e, l) q =
      let d' : IsDistinct (i ∷ ids ++ []) = rw (append-nil ids) d in
      let l' : Links pool (some i) (i ∷ ids ++ []) = rw (append-nil ids) (refl, l) in
      let f' : IsFresh m (i ∷ ids ++ []) = rw (append-nil ids) f in
      let ne = IsFresh-last_of m i ids [] f' in
      let ids' = i ∷ ids ++ m ∷ [] in
      let linked : Links (appended (some i) (some (last_of i ids))) (some i) ids' =
        relink pool i ids [] (m ∷ []) (some m) d' l' (λ p. ne (sym p), tt) (refl, link) in
      subst (λ x. Links (appended x last) (first_now x) ids') (sym e)
        (subst (λ y. Links (appended (some i) y) (some i) ids') (sym q) linked)

  -- It has the messages of the pool.
  view-appended :
      (first last : Option ℕ) (ids : List ℕ) → view (appended first last) ids ≡ view pool ids
  view-appended none last ids = refl
  view-appended (some f) none ids = refl
  view-appended (some f) (some l) ids = view-relinked pool l (some m) ids

  bytes-appended :
      (first last : Option ℕ) (ids : List ℕ) → bytes (appended first last) ids ≡ bytes pool ids
  bytes-appended none last ids = refl
  bytes-appended (some f) none ids = refl
  bytes-appended (some f) (some l) ids = bytes-relinked pool l (some m) ids

  InUse-appended :
      (first last : Option ℕ) (ids : List ℕ) → InUse pool ids → InUse (appended first last) ids
  InUse-appended none last ids u = u
  InUse-appended (some f) none ids u = u
  InUse-appended (some f) (some l) ids u = InUse-relinked pool l (some m) ids u

-- The counts of a queue with the new message.
abbrev pub Counted : Msgs → ℕ → List ℕ → ℕ → Type 0
Counted st q ids msgsz = (length ids + 1 < 2 ^ 16) × (bytes st.msg_pool ids + msgsz < 2 ^ 16)

IsLast-snoc : (ids : List ℕ) (m : ℕ) → IsLast (some m) (ids ++ m ∷ [])
IsLast-snoc [] m = refl
IsLast-snoc (i ∷ ids) m = ap some (sym (last_of-snoc i ids m))

pub enqueue_lem :
    (current : Proc) (now : ℕ) (mb : Message) (msgsz : ℕ) (st : Msgs) (q m : ℕ) (ids : List ℕ)
    → IsQueue st q ids
    → IsFresh m ids
    → 0 < now
    → Counted st q ids msgsz
    → let st' = enqueue current now mb msgsz st q m in
      IsQueue st' q (ids ++ m ∷ [])
      × (view st'.msg_pool (ids ++ m ∷ [])
          ≡ view st.msg_pool ids ++ (mb.mtype, slice mb.mtext 0 msgsz) ∷ [])
unfolding enqueue
enqueue_lem current now mb msgsz st q m ids ((l, d, u, num, byt, lt, bt), last) f now_pos
      (lt', bt') =
    let mq = st.msgque_pool q in
    let v = new_msg now mb msgsz in
    let pool = update st.msg_pool m v in
    let self : pool m ≡ v = update_self st.msg_pool m v in
    let link : (pool m).msg_next ≡ none = ap (λ (y : Msg). y.msg_next) self in
    let ids' = ids ++ m ∷ [] in
    let pool' = appended pool m link mq.msg_first mq.msg_last in
    let text = slice mb.mtext 0 msgsz in
    let len : length ids' ≡ length ids + 1 = length-append ids (m ∷ []) in
    let total : bytes pool' ids' ≡ bytes st.msg_pool ids + msgsz =
      bytes-appended pool m link mq.msg_first mq.msg_last ids'
      ∙ bytes-append pool ids (m ∷ [])
      ∙ ap₂ ◌+◌ (bytes-update st.msg_pool m v ids f)
          (omega (arith, ap (λ (y : Msg). y.msg_ts) self)) in
    let used : InUse pool (m ∷ []) =
      subst (λ (y : Msg). (0 < y.msg_stime) × (length y.msg_spot ≡ y.msg_ts) × Unit) (sym self)
        (now_pos, length-slice mb.mtext 0 msgsz, tt) in
    let links =
      Links-appended pool m link mq.msg_first mq.msg_last ids d f
        (Links-update st.msg_pool m v mq.msg_first ids f l) last in
    let usage =
      InUse-appended pool m link mq.msg_first mq.msg_last ids'
        (InUse-append pool ids (m ∷ []) (InUse-update st.msg_pool m v ids f u) used) in
    let seen : view pool' ids' ≡ view st.msg_pool ids ++ (mb.mtype, text) ∷ [] =
      view-appended pool m link mq.msg_first mq.msg_last ids'
      ∙ view-append pool ids (m ∷ [])
      ∙ ap₂ ◌++◌ (view-update st.msg_pool m v ids f)
          (ap (λ (y : Msg). (y.msg_type, y.msg_spot) ∷ []) self) in
    let mq' : Msqid = record mq {
      msg_first = first_now pool m link mq.msg_first;
      msg_last = some m;
      msg_stime = now;
      msg_ctime = now;
      msg_qnum = u16 (mq.msg_qnum + 1);
      msg_cbytes = u16 (mq.msg_cbytes + msgsz);
      msg_lspid = u16 current.pid;
    } in
    let shown : Shows pool' mq' ids' × IsLast mq'.msg_last ids' = (
      (
        links,
        IsDistinct-snoc ids m d f,
        usage,
        omega (arith, num, len, lt'),
        omega (arith, byt, total, bt'),
        omega (arith, len, lt'),
        omega (arith, total, bt'),
      ),
      IsLast-snoc ids m,
    ) in
    (
      subst (λ y. Shows pool' y ids' × IsLast y.msg_last ids')
          (sym (update_self st.msgque_pool q mq')) shown,
      seen,
    )
