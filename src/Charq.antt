-- ===== src/Charq.antt =====
-- drivers/char/charq.c: the character queues of the ttys, chains of blocks from one pool. A chain of
-- `prev` and `next` pointers is the list of its blocks, head first, and the pool the list of its free
-- blocks, first to be taken first.
pub mod Shape
pub mod Put
pub mod Take
mod Tests
use fiwix_arm.Base.{
  ==_iff, Bool, Bool-cases, List, Option, Option-cases, [], ap, ap₂, arith, bit_and, bit_or, drop,
  false, fun_ext, get_elem?, get_elem?-set_ne, get_elem?-set_self, get_or, if◌then◌else◌, inl, inr,
  leb, leb→le, length, length-append, length-drop, length-map, length-replicate, length-set,
  length-take, ltb, ltb→lt, lt→ltb, map, max, min, none, not, not_lt→ltb, refl, replicate, set,
  some, suc, sym, take, take-append-drop, tests, true, zero, ℕ, ◌%◌, ◌&&◌, ◌*◌, ◌++◌, ◌+◌, ◌-◌, ◌/◌,
  ◌<◌, ◌==◌, ◌^◌, ◌||◌, ◌↔◌, ◌∙◌, ◌∷◌, ◌≡◌, ◌≢◌, ◌≤◌, ◌⊎◌,
}
use fiwix_arm.Base.Errno.{success, fail, Status, again}
use fiwix_arm.Base.Store.{update, Store}
use fiwix_arm.Base.Bits.{u16}

abbrev pub cbsize : ℕ
cbsize = 1024

abbrev pub nr_cb_queue : ℕ
nr_cb_queue = 1

abbrev pub cb_pool_size : ℕ
cb_pool_size = 64

pub record Cblock : Type 0 where
  pub start_off : ℕ
  pub end_off : ℕ
  pub chars : Store ℕ

-- `struct clist` with its blocks, and the pool
pub record Clist : Type 0 where
  pub count : ℕ
  pub cb_num : ℕ
  pub blocks : List Cblock
  pub pool : List Cblock

-- A block as `insert_cblock_in_tail` initializes it.
abbrev pub blank : Cblock
blank = record { start_off = 0; end_off = 0; chars = λ n. 0 }

-- `get_free_cblock`: the pool without its first block, or `none` if it is used up.
pub get_free_cblock : List Cblock → Option (Cblock × List Cblock)
get_free_cblock [] = none
get_free_cblock (cb ∷ pool) = some (cb, pool)

pub put_free_cblock : Cblock → List Cblock → List Cblock
put_free_cblock old pool = old ∷ pool

pub insert_cblock_in_tail : Clist → Option Clist
unfolding get_free_cblock
insert_cblock_in_tail q = if leb nr_cb_queue q.cb_num then none else elim (get_free_cblock q.pool) [
  | none ↦ none
  | some (cb, rest) ↦
      some (record q { cb_num = u16 (q.cb_num + 1); blocks = q.blocks ++ blank ∷ []; pool = rest })
]

-- `q->count -= end_off - start_off; q->cb_num--`, on unsigned shorts
abbrev pub forget : Clist → Cblock → List Cblock → Clist
forget q cb rest = record {
  count = u16 (q.count + 2 ^ 16 - (cb.end_off - cb.start_off));
  cb_num = u16 (q.cb_num + 2 ^ 16 - 1);
  blocks = rest;
  pool = cb ∷ q.pool;
}

pub delete_from : Clist → List Cblock → Clist
delete_from q [] = q
delete_from q (cb ∷ rest) = forget q cb rest

pub delete_cblock_from_head : Clist → Clist
unfolding delete_from
delete_cblock_from_head q = delete_from q q.blocks

-- The last block of a chain and those before it.
pub split_last : Cblock → List Cblock → List Cblock × Cblock
split_last cb [] = ([], cb)
split_last cb (next ∷ rest) = let (before, last) = split_last next rest in (cb ∷ before, last)

pub tail_of : List Cblock → Option (List Cblock × Cblock)
unfolding split_last
tail_of [] = none
tail_of (cb ∷ rest) = some (split_last cb rest)

pub delete_cblock_from_tail : Clist → Clist
unfolding tail_of
delete_cblock_from_tail q = elim (tail_of q.blocks) [
  | none ↦ q
  | some (before, cb) ↦ forget q cb before
]

-- The chain with its tail replaced.
abbrev pub with_tail : Clist → List Cblock → Cblock → Clist
with_tail q before cb = record q { blocks = before ++ cb ∷ [] }

-- The inner call's error is dropped: `errno = 0`.
succeed : Option (Clist × Status) → Option (Clist × Status)
succeed none = none
succeed (some (q, s)) = some (q, success)

-- Calls nest at most twice; `none` means that the fuel ran out.
pub charq_putchar : ℕ → Clist → ℕ → Option (Clist × Status)
unfolding insert_cblock_in_tail tail_of succeed
charq_putchar zero q ch = none
charq_putchar (suc fuel) q ch = elim (tail_of q.blocks) [
  | none ↦ elim (insert_cblock_in_tail q) [
    | none ↦ some (q, fail again)
    | some r ↦ charq_putchar fuel r ch
  ]
  | some (before, cb) ↦
      let stored : Clist =
        record (with_tail q before
          (record cb { chars = update cb.chars cb.end_off ch; end_off = u16 (cb.end_off + 1) })) {
            count = u16 (q.count + 1);
          } in
      let again : Option (Clist × Status) = elim (insert_cblock_in_tail q) [
        | none ↦ some (q, fail again)
        | some r ↦ succeed (charq_putchar fuel r ch)
      ] in
      if ltb cb.end_off cbsize then some (stored, success) else again
]

pub charq_unputchar : Clist → Clist × ℕ
unfolding delete_cblock_from_tail
charq_unputchar q = elim (tail_of q.blocks) [
  | none ↦ (q, 0)
  | some (before, cb) ↦
      let last = record cb { end_off = cb.end_off - 1 } in
      let shorter = record (with_tail q before last) { count = u16 (q.count + 2 ^ 16 - 1) } in
      if ltb cb.start_off cb.end_off
      then (
        if last.end_off - last.start_off == 0 then delete_cblock_from_tail shorter else shorter,
        cb.chars (cb.end_off - 1),
      )
      else (if cb.end_off - cb.start_off == 0 then delete_cblock_from_tail q else q, 0)
]

pub get_from : Clist → List Cblock → Clist × ℕ
unfolding delete_cblock_from_head
get_from q [] = (q, 0)
get_from q (cb ∷ rest) =
    let first = record cb { start_off = u16 (cb.start_off + 1) } in
    let shorter = record q { blocks = first ∷ rest; count = u16 (q.count + 2 ^ 16 - 1) } in
    if ltb cb.start_off cb.end_off
    then (
      if first.end_off - first.start_off == 0 then delete_cblock_from_head shorter else shorter,
      cb.chars cb.start_off,
    )
    else (if cb.end_off - cb.start_off == 0 then delete_cblock_from_head q else q, 0)

pub charq_getchar : Clist → Clist × ℕ
unfolding get_from
charq_getchar q = get_from q q.blocks

-- The loop of `charq_flush`, over the blocks that are left.
pub flush_blocks : Clist → List Cblock → Clist
flush_blocks q [] = record q { blocks = [] }
flush_blocks q (cb ∷ rest) = flush_blocks (forget q cb rest) rest

pub charq_flush : Clist → Clist
unfolding flush_blocks
charq_flush q = flush_blocks q q.blocks

pub charq_room : Clist → ℕ
charq_room q = nr_cb_queue * cbsize - q.count

-- The pool that `charq_init` leaves: every block, freed in turn.
pub charq_init : ℕ → List Cblock → List Cblock
unfolding put_free_cblock
charq_init zero pool = pool
charq_init (suc n) pool = charq_init n (put_free_cblock blank pool)
