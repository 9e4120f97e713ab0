-- ===== src/Charq/Shape.antt =====
-- What a valid queue looks like and which characters it holds.
use fiwix_arm.Base.{
  List, [], ap, ap₂, arith, length, suc, ℕ, ◌%◌, ◌++◌, ◌+◌, ◌-◌, ◌<◌, ◌^◌, ◌∙◌, ◌∷◌, ◌≡◌, ◌≤◌, ◌⊎◌,
}
use fiwix_arm.Charq.{again, fail, success, update, Status, Store, cbsize, Clist, Cblock}
use fiwix_arm.Base.Slice.{slice, slice_snoc, slice-update}
use fiwix_arm.Base.Store.{update_self}

-- With NR_CB_QUEUE at 1 a queue has at most one block, which is never empty.
abbrev pub Shape : ℕ → ℕ → List Cblock → Type 0
Shape count cb_num [] = (count ≡ 0) × (cb_num ≡ 0)
Shape count cb_num (cb ∷ []) =
    (cb_num ≡ 1)
    × (cb.start_off < cb.end_off)
    × (cb.end_off ≤ cbsize)
    × (count ≡ cb.end_off - cb.start_off)
Shape count cb_num (cb ∷ next ∷ rest) = cb.start_off < 0

unfoldable pub IsValid : Clist → Type 0
IsValid q = Shape q.count q.cb_num q.blocks

-- The characters of a queue, the oldest first.
abbrev pub chars_of : List Cblock → List ℕ
chars_of [] = []
chars_of (cb ∷ rest) = slice cb.chars cb.start_off (cb.end_off - cb.start_off) ++ chars_of rest

abbrev pub contents : Clist → List ℕ
contents q = chars_of q.blocks

-- Neither a block nor a character can be added.
abbrev pub IsFull : List Cblock → List Cblock → Type 0
IsFull [] pool = pool ≡ []
IsFull (cb ∷ rest) pool = cb.end_off ≡ cbsize

-- Storing a character behind those of a block.
pub stored_last :
    (d : Store ℕ) (first last ch : ℕ)
    → first ≤ last
    → last < cbsize
    → slice (update d last ch) first ((last + 1) % 2 ^ 16 - first)
      ≡ slice d first (last - first) ++ ch ∷ []
stored_last d first last ch h lt =
    let n = last - first in
    let e : (last + 1) % 2 ^ 16 - first ≡ suc n = omega arith in
    let at : first + n ≡ last = omega arith in
    ap (slice (update d last ch) first) e
    ∙ slice_snoc (update d last ch) first n
    ∙ ap₂ ◌++◌ (slice-update d first n last ch (omega arith))
        (ap (λ c. c ∷ []) (ap (update d last ch) at ∙ update_self d last ch))

-- What a call of `charq_putchar` that ends does.
abbrev pub Put : Clist → ℕ → Clist → Status → Type 0
Put q ch r s =
    IsValid r
    × (length r.pool + length r.blocks ≡ length q.pool + length q.blocks)
    × (((s ≡ success) × (contents r ≡ contents q ++ ch ∷ []))
        ⊎ ((s ≡ fail again) × (r ≡ q) × IsFull q.blocks q.pool))

abbrev pub clist : ℕ → ℕ → List Cblock → List Cblock → Clist
clist c n bs pool = record { count = c; cb_num = n; blocks = bs; pool = pool }

-- A queue that keeps its counters, with the same number of blocks altogether.
abbrev pub Keeps : Clist → Clist → Type 0
Keeps q r = IsValid r × (length r.pool + length r.blocks ≡ length q.pool + length q.blocks)
