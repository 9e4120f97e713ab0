-- ===== src/Charq/Put.antt =====
-- What `charq_putchar` does, and when it fails.
use fiwix_arm.Base.{
  List, [], ap, arith, inl, inr, refl, some, suc, sym, ℕ, ◌++◌, ◌+◌, ◌-◌, ◌<◌, ◌∙◌, ◌∷◌, ◌≡◌,
}
use fiwix_arm.Charq.{
  success, u16, blank, update, cbsize, again, Store, fail, charq_room, Status, charq_putchar, Clist,
  Cblock,
}
use fiwix_arm.Charq.Shape.{stored_last, Put, clist, IsValid, Shape}
use native.Mathlib.Decide.{dec_lt}
use mathlib.Core.List.{append-nil}

charq_putchar-clist :
    (c n : ℕ) (bs pool : List Cblock) (ch k : ℕ)
    → Shape c n bs
    → (r : Clist) × (s : Status) × (charq_putchar (suc (suc k)) (clist c n bs pool) ch
        ≡ some (r, s))
      × Put (clist c n bs pool) ch r s
unfolding charq_putchar IsValid
charq_putchar-clist c n [] [] ch k (e, e') =
    (clist c n [] [], fail again, ground arith, ((e, e'), refl, inr (refl, refl, refl)))
charq_putchar-clist c n [] (cb ∷ pool) ch k (e, e') =
    let block : Cblock = record { start_off = 0; end_off = 1; chars = update blank.chars 0 ch } in
    (
      clist (u16 (c + 1)) (u16 (n + 1)) (block ∷ []) pool,
      success,
      ground (arith, e, e'),
      ((omega arith, omega arith, omega arith, omega arith), omega arith, inl (refl, ground arith)),
    )
charq_putchar-clist c n (cb ∷ []) pool ch k (e, held, lim, size) = elim (dec_lt cb.end_off cbsize) [
  | yes p ↦
      let next : ℕ = u16 (cb.end_off + 1) in
      let block : Cblock = record cb { end_off = next; chars = update cb.chars cb.end_off ch } in
      (
        clist (u16 (c + 1)) n (block ∷ []) pool,
        success,
        ground arith,
        (
          (e, omega arith, omega arith, omega arith),
          refl,
          inl (
            refl,
            append-nil _
                ∙ stored_last cb.chars cb.start_off cb.end_off ch (omega arith) p
                ∙ ap (λ t. t ++ ch ∷ []) (sym (append-nil _)),
          ),
        ),
      )
  | no np ↦ (
    clist c n (cb ∷ []) pool,
    fail again,
    ground arith,
    ((e, held, lim, size), refl, inr (refl, refl, omega arith)),
  )
]
charq_putchar-clist c n (cb ∷ next ∷ rest) pool ch k v = absurd (omega (arith, v))

-- In a valid queue, two nested calls are enough: `charq_putchar` ends, keeps the queue valid and no
-- block gets lost; either it returns 0 and the character is the last of the queue, or it returns
-- -EAGAIN, changes nothing, and the tail's block is written to its end or the pool is used up.
pub charq_putchar_lem :
    (q : Clist) (ch k : ℕ)
    → IsValid q
    → (r : Clist) × (s : Status) × (charq_putchar (suc (suc k)) q ch ≡ some (r, s)) × Put q ch r s
unfolding IsValid
charq_putchar_lem q ch k v = charq_putchar-clist q.count q.cb_num q.blocks q.pool ch k v

-- A queue whose only block is written to its end but has been read up to `start`: `charq_room`
-- returns `start`, the number of free characters, and `charq_putchar` fails all the same.
pub room_unusable :
    (d : Store ℕ) (pool : List Cblock) (start ch k : ℕ)
    → start < cbsize
    → let q =
        clist
          (cbsize - start)
          1
          (record { start_off = start; end_off = cbsize; chars = d } ∷ [])
          pool in
      IsValid q × (charq_room q ≡ start) × (charq_putchar (suc k) q ch ≡ some (q, fail again))
unfolding charq_putchar charq_room IsValid
room_unusable d pool start ch k lt = ((refl, lt, omega arith, refl), omega arith, refl)
