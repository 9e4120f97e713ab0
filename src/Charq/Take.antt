-- ===== src/Charq/Take.antt =====
-- Characters leave a queue in the order in which they came, or from its end.
use fiwix_arm.Base.{
  List, [], ap, ap₂, arith, drop, get_or, inl, inr, length, refl, suc, sym, zero, ℕ, ◌++◌, ◌+◌, ◌-◌,
  ◌^◌, ◌∙◌, ◌∷◌, ◌≡◌, ◌⊎◌,
}
use fiwix_arm.Charq.{u16, tail_of, charq_flush, charq_unputchar, charq_getchar, Clist, Cblock}
use fiwix_arm.Base.Slice.{slice, slice_snoc}
use fiwix_arm.Charq.Shape.{chars_of, clist, contents, Keeps, IsValid, Shape}
use native.Mathlib.Decide.{ℕ_discrete}
use mathlib.Core.Path.{subst}
use mathlib.Core.List.{append-nil}

-- What is left of a queue after `charq_getchar` has returned a character.
abbrev pub Got : Clist → Clist × ℕ → Clist → ℕ → Type 0
Got q call r ch =
    (call ≡ (r, ch))
    × Keeps q r
    × (((q.blocks ≡ []) × (r ≡ q) × (ch ≡ 0)) ⊎ (contents q ≡ ch ∷ contents r))

get_blocks :
    (c n : ℕ) (bs pool : List Cblock)
    → Shape c n bs
    → (r : Clist) × (ch : ℕ) × Got (clist c n bs pool) (charq_getchar (clist c n bs pool)) r ch
unfolding charq_getchar IsValid
get_blocks c n [] pool (e, e') =
    (clist c n [] pool, 0, (refl, ((e, e'), refl), inl (refl, refl, refl)))
get_blocks c n (cb ∷ []) pool (e, held, lim, size) =
    let first : Cblock = record cb { start_off = u16 (cb.start_off + 1) } in
    let at : u16 (cb.start_off + 1) ≡ cb.start_off + 1 = omega arith in
    elim (ℕ_discrete cb.end_off (cb.start_off + 1)) [
      | yes p ↦
          let one : cb.end_off - cb.start_off ≡ 1 = omega arith in
          (
            clist 0 0 [] (first ∷ pool),
            cb.chars cb.start_off,
            (
              ground arith,
              ((refl, refl), omega arith),
              inr (ap (λ k. slice cb.chars cb.start_off k ++ []) one),
            ),
          )
      | no np ↦
          let more : cb.end_off - cb.start_off ≡ suc (cb.end_off - u16 (cb.start_off + 1)) =
            omega arith in
          (
            clist (u16 (c + 2 ^ 16 - 1)) n (first ∷ []) pool,
            cb.chars cb.start_off,
            (
              ground arith,
              ((e, omega arith, lim, omega arith), refl),
              inr (
                  ap (λ k. slice cb.chars cb.start_off k ++ []) more
                  ∙ ap
                      (λ k.
                        cb.chars cb.start_off
                          ∷ slice cb.chars k (cb.end_off - u16 (cb.start_off + 1))
                        ++ [])
                      (sym at)),
            ),
          )
    ]
get_blocks c n (cb ∷ next ∷ rest) pool v = absurd (omega (arith, v))

abbrev pub Ungot : Clist → Clist × ℕ → Clist → ℕ → Type 0
Ungot q call r ch =
    (call ≡ (r, ch))
    × Keeps q r
    × (((q.blocks ≡ []) × (r ≡ q) × (ch ≡ 0)) ⊎ (contents q ≡ contents r ++ ch ∷ []))

unput_blocks :
    (c n : ℕ) (bs pool : List Cblock)
    → Shape c n bs
    → (r : Clist) × (ch : ℕ) × Ungot (clist c n bs pool) (charq_unputchar (clist c n bs pool)) r ch
unfolding charq_unputchar tail_of IsValid
unput_blocks c n [] pool (e, e') =
    (clist c n [] pool, 0, (refl, ((e, e'), refl), inl (refl, refl, refl)))
unput_blocks c n (cb ∷ []) pool (e, held, lim, size) =
    let last : Cblock = record cb { end_off = cb.end_off - 1 } in
    elim (ℕ_discrete cb.end_off (cb.start_off + 1)) [
      | yes p ↦
          let one : cb.end_off - cb.start_off ≡ 1 = omega arith in
          let at : cb.start_off ≡ cb.end_off - 1 = omega arith in
          (
            clist 0 0 [] (last ∷ pool),
            cb.chars (cb.end_off - 1),
            (
              ground arith,
              ((refl, refl), omega arith),
              inr (
                  ap (λ k. slice cb.chars cb.start_off k ++ []) one ∙ ap (λ k. cb.chars k ∷ []) at),
            ),
          )
      | no np ↦
          let k = cb.end_off - 1 - cb.start_off in
          let more : cb.end_off - cb.start_off ≡ suc k = omega arith in
          let at : cb.start_off + k ≡ cb.end_off - 1 = omega arith in
          (
            clist (u16 (c + 2 ^ 16 - 1)) n (last ∷ []) pool,
            cb.chars (cb.end_off - 1),
            (
              ground arith,
              ((e, omega arith, omega arith, omega arith), refl),
              inr (
                  append-nil _
                  ∙ ap (slice cb.chars cb.start_off) more
                  ∙ slice_snoc cb.chars cb.start_off k
                  ∙ ap (λ i. slice cb.chars cb.start_off k ++ cb.chars i ∷ []) at
                  ∙ ap (λ t. t ++ cb.chars (cb.end_off - 1) ∷ []) (sym (append-nil _))),
            ),
          )
    ]
unput_blocks c n (cb ∷ next ∷ rest) pool v = absurd (omega (arith, v))

flush_kept :
    (c n : ℕ) (bs pool : List Cblock)
    → Shape c n bs
    → Keeps (clist c n bs pool) (charq_flush (clist c n bs pool))
      × (contents (charq_flush (clist c n bs pool)) ≡ [])
unfolding charq_flush IsValid
flush_kept c n [] pool (e, e') = (((e, e'), refl), refl)
flush_kept c n (cb ∷ []) pool (e, held, lim, size) =
    (((omega arith, omega arith), omega arith), refl)
flush_kept c n (cb ∷ next ∷ rest) pool v = absurd (omega (arith, v))

-- In a valid queue, `charq_getchar` removes the first character and returns it, or leaves an empty
-- queue as it is and returns 0; the queue stays valid and no block gets lost.
pub charq_getchar_lem :
    (q : Clist) → IsValid q → (r : Clist) × (ch : ℕ) × Got q (charq_getchar q) r ch
unfolding IsValid
charq_getchar_lem q v = get_blocks q.count q.cb_num q.blocks q.pool v

-- In a valid queue, `charq_unputchar` removes the last character and returns it, or leaves an empty
-- queue as it is and returns 0; the queue stays valid and no block gets lost.
pub charq_unputchar_lem :
    (q : Clist) → IsValid q → (r : Clist) × (ch : ℕ) × Ungot q (charq_unputchar q) r ch
unfolding IsValid
charq_unputchar_lem q v = unput_blocks q.count q.cb_num q.blocks q.pool v

-- `charq_flush` of a valid queue leaves a valid queue without characters, and every block of it is
-- in the pool again.
pub charq_flush_lem :
    (q : Clist) → IsValid q → Keeps q (charq_flush q) × (contents (charq_flush q) ≡ [])
unfolding IsValid
charq_flush_lem q v = flush_kept q.count q.cb_num q.blocks q.pool v

-- `n` characters read one after the other
abbrev pub reads : ℕ → Clist → List ℕ
reads zero q = []
reads (suc n) q = (charq_getchar q).1 ∷ reads n (charq_getchar q).0

Got-first :
    (q : Clist) (call : Clist × ℕ) (r : Clist) (ch c : ℕ) (cs : List ℕ)
    → Got q call r ch
    → contents q ≡ c ∷ cs
    → (call.1 ≡ c) × (IsValid call.0) × (contents call.0 ≡ cs)
Got-first q call r ch c cs (e, (v, len), inl (none_, same, nil)) e' =
    absurd (omega (arith, ap length (sym (ap chars_of none_) ∙ e')))
Got-first q call r ch c cs (e, (v, len), inr taken) e' =
    let both : ch ∷ contents r ≡ c ∷ cs = sym taken ∙ e' in
    let left : r ≡ call.0 = sym (ap (λ o. o.0) e) in
    (
      ap (λ o. o.1) e ∙ ap (λ l. get_or l 0 0) both,
      subst IsValid left v,
      ap contents (sym left) ∙ ap (drop 1) both,
    )

reads_from : (cs : List ℕ) (q : Clist) → IsValid q → contents q ≡ cs → reads (length cs) q ≡ cs
reads_from [] q v e = refl
reads_from (c ∷ cs) q v e =
    let (r, ch, got) = charq_getchar_lem q v in
    let (first, v', rest) = Got-first q (charq_getchar q) r ch c cs got e in
    ap₂ ◌∷◌ first (reads_from cs (charq_getchar q).0 v' rest)

-- Reading a valid queue as often as it has characters returns them in the order in which they
-- were put.
pub reads-contents : (q : Clist) → IsValid q → reads (length (contents q)) q ≡ contents q
reads-contents q v = reads_from (contents q) q v refl
