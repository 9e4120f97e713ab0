-- ===== src/Pipe/Transfer.antt =====
-- What a whole write transfers when no other process changes the pipe meanwhile.
use fiwix_arm.Base.{
  Bool, Bool-cases, [], ap, arith, false, inl, inr, min, refl, some, suc, sym, true, zero, ℕ, ◌++◌,
  ◌+◌, ◌-◌, ◌<◌, ◌∙◌, ◌∷◌, ◌≡◌, ◌≤◌, ◌⊎◌,
}
use fiwix_arm.Base.Store.{Store}
use fiwix_arm.Pipe.{
  again, asleep, pipe, fail, done, returned, room, write_turn, Outcome, pipefs_write, write_loop,
  Pipe,
}
use fiwix_arm.Base.Slice.{slice}
use fiwix_arm.Pipe.Window.{contents}
use fiwix_arm.Pipe.Valid.{extend-IsValid, room-le, extend, IsValid}
use native.Mathlib.Nat.{suc-add, add-zero, zero-add}
use mathlib.Core.List.{append_assoc, append-nil}
use native.Mathlib.Decide.{ℕ_discrete, dec_lt}
use fiwix_arm.Pipe.Fifo.{contents-extend}

slice_split : (d : Store ℕ) (at n m : ℕ) → slice d at (n + m) ≡ slice d at n ++ slice d (at + n) m
slice_split d at zero m = rw (zero-add, add-zero)
slice_split d at (suc n) m =
    let e : at + 1 + n ≡ at + suc n = omega arith in
    rw suc-add (
      ap (λ t. d at ∷ t)
        (slice_split d (at + 1) n m ∙ ap (λ k. slice d (at + 1) n ++ slice d k m) e))

-- The bytes `buffer[written..written + n)` have gone to the end of the pipe.
abbrev pub Added : Pipe → Store ℕ → ℕ → ℕ → Pipe → Type 0
Added p buffer written n q =
    IsValid q × (contents q ≡ contents p ++ slice buffer written n) × (q.readers ≡ p.readers)

-- What a write from `written` on has come to: all the bytes up to `count` are in the pipe and `count`
-- is returned; or the pipe has no reader; or some bytes are in it, there is no room for more, and
-- the call gave up or sleeps.
abbrev pub Wrote : Pipe → Bool → Store ℕ → ℕ → ℕ → Outcome → Type 0
Wrote p nonblock buffer count written (returned q out (done k)) =
    (k ≡ count) × Added p buffer written (count - written) q
Wrote p nonblock buffer count written (returned q out (fail e)) =
    (n : ℕ) × (written + n < count)
    × Added p buffer written n q
    × (((p.readers ≡ 0) × (e ≡ pipe)) ⊎ ((room q ≡ 0) × (nonblock ≡ true) × (e ≡ again)))
Wrote p nonblock buffer count written (asleep q) =
    (n : ℕ) × (written + n < count)
    × Added p buffer written n q
    × ((room q ≡ 0) × (nonblock ≡ false))

Added-none :
    (p : Pipe) (buffer : Store ℕ) (written n : ℕ) → n ≡ 0 → IsValid p → Added p buffer written n p
Added-none p buffer written zero e v = (v, sym (append-nil (contents p)), refl)
Added-none p buffer written (suc n) e v = absurd (omega arith)

Added-more :
    (p q : Pipe) (buffer : Store ℕ) (written n m k : ℕ)
    → IsValid p
    → 0 < n
    → n ≤ room p
    → k ≡ n + m
    → Added (extend p buffer written n) buffer (written + n) m q
    → Added p buffer written k q
Added-more p q buffer written n m k v pos le e (vq, eq, same) = (
  vq,
  eq
      ∙ ap (λ t. t ++ slice buffer (written + n) m) (contents-extend p buffer written n v pos le)
      ∙ append_assoc (contents p) (slice buffer written n) (slice buffer (written + n) m)
      ∙ ap (λ t. contents p ++ t)
          (sym (slice_split buffer written n m) ∙ ap (slice buffer written) (sym e)),
  same,
)

Wrote-more :
    (p : Pipe) (nonblock : Bool) (buffer : Store ℕ) (count written n : ℕ) (o : Outcome)
    → IsValid p
    → 0 < n
    → n ≤ room p
    → written + n ≤ count
    → Wrote (extend p buffer written n) nonblock buffer count (written + n) o
    → Wrote p nonblock buffer count written o
Wrote-more p nonblock buffer count written n (returned q out (done k)) v pos le fits (e, a) = (
  e,
  Added-more p q buffer written n (count - (written + n)) (count - written) v pos le (omega arith)
      a,
)
Wrote-more p nonblock buffer count written n (returned q out (fail x)) v pos le fits
      (m, lt, a, why) =
    (n + m, omega arith, Added-more p q buffer written n m (n + m) v pos le refl a, why)
Wrote-more p nonblock buffer count written n (asleep q) v pos le fits (m, lt, a, why) =
    (n + m, omega arith, Added-more p q buffer written n m (n + m) v pos le refl a, why)

write_loop-Wrote :
    (fuel : ℕ) (p : Pipe) (nonblock : Bool) (buffer : Store ℕ) (count written : ℕ)
    → IsValid p
    → written ≤ count
    → count - written < fuel
    → (o : Outcome) × (write_loop fuel [] p nonblock buffer count written ≡ some o)
      × Wrote p nonblock buffer count written o
unfolding write_loop write_turn
write_loop-Wrote zero p nonblock buffer count written v le h = absurd (omega arith)
write_loop-Wrote (suc fuel) p nonblock buffer count written v le h = elim (dec_lt written count) [
  | no end ↦ (
    returned p buffer (done written),
    ground arith,
    (omega arith, Added-none p buffer written (count - written) (omega arith) v),
  )
  | yes more ↦ elim (ℕ_discrete p.readers 0) [
    | yes gone ↦ (
      returned p buffer (fail pipe),
      ground arith,
      (0, omega arith, Added-none p buffer written 0 refl v, inl (gone, refl)),
    )
    | no open_ ↦ elim (ℕ_discrete (room p) 0) [
      | yes full ↦ elim (Bool-cases nonblock) [
        | inl e ↦ (
          returned p buffer (fail again),
          ground arith,
          (0, omega arith, Added-none p buffer written 0 refl v, inr (full, e, refl)),
        )
        | inr e ↦ (
          asleep p,
          ground arith,
          (0, omega arith, Added-none p buffer written 0 refl v, (full, e)),
        )
      ]
      | no some_ ↦
          let n = min (count - written) (room p) in
          let small = room-le p v in
          let pos : 0 < n = omega arith in
          let (o, run, wrote) =
            write_loop-Wrote fuel (extend p buffer written n) nonblock buffer count (written + n)
              (extend-IsValid p buffer written n v pos (omega arith)) (omega arith) (omega arith) in
          (
            o,
            ground (arith, run, small),
            Wrote-more p nonblock buffer count written n o v pos (omega arith) (omega arith) wrote,
          )
    ]
  ]
]

-- Writing `count` bytes to a valid pipe, while no other process changes it, comes to one of these:
-- `count` is returned and exactly the bytes of the buffer stand at the end of the pipe; or a proper
-- beginning of them does, and the call fails for want of a reader, or there is no room left and the
-- call gives EAGAIN if it may not block and sleeps otherwise. The pipe stays valid in every case.
pub pipefs_write_lem :
    (p : Pipe) (nonblock : Bool) (buffer : Store ℕ) (count fuel : ℕ)
    → IsValid p
    → count < fuel
    → (o : Outcome) × (pipefs_write fuel [] p nonblock buffer count ≡ some o)
      × Wrote p nonblock buffer count 0 o
unfolding pipefs_write
pipefs_write_lem p nonblock buffer count fuel v h =
    write_loop-Wrote fuel p nonblock buffer count 0 v (omega arith) (omega arith)
