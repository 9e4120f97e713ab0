-- ===== src/Pipe/Receive.antt =====
-- What a whole read transfers when no other process changes the pipe meanwhile.
use fiwix_arm.Base.{
  ◌%◌, Bool, Bool-cases, [], ap, arith, false, inl, inr, min, refl, some, suc, sym, true, zero, ℕ,
  ◌++◌, ◌<◌, ◌∙◌, ◌≡◌, ◌≤◌, ◌⊎◌,
}
use fiwix_arm.Base.Store.{Store}
use fiwix_arm.Pipe.{
  pipefs_read, settle, read_turn, copy, read_loop, read_limit, pipe_buf, again, asleep, fail, done,
  returned, Outcome, Pipe,
}
use fiwix_arm.Base.Slice.{slice}
use fiwix_arm.Pipe.Window.{window, slice-copy, contents}
use fiwix_arm.Pipe.Valid.{rewind-IsValid, advance-IsValid, settle-IsValid, advance, IsValid}
use native.Mathlib.Decide.{ℕ_discrete, dec_lt}
use fiwix_arm.Pipe.Fifo.{contents-advance, contents-settle}

-- What a read has come to: the bytes returned were the first of the pipe, and the others are still
-- there; no byte is returned only if none was asked for, or the pipe is empty and has no writer; or the
-- call gave up, or sleeps, while the pipe has a writer, and is empty or has its reading offset at
-- the end of the buffer.
abbrev pub Took : Pipe → Bool → ℕ → Outcome → Type 0
Took p nonblock count (returned q out (done n)) =
    (n ≤ count)
    × (contents p ≡ slice out 0 n ++ contents q)
    × IsValid q
    × (n ≡ 0 → (count ≡ 0) ⊎ ((p.size ≡ 0) × (p.writers ≡ 0)))
Took p nonblock count (returned q out (fail e)) =
    (q ≡ p)
    × (e ≡ again)
    × (nonblock ≡ true)
    × (0 < p.writers)
    × ((p.size ≡ 0) ⊎ (p.readoff ≡ pipe_buf))
Took p nonblock count (asleep q) =
    (q ≡ p) × (nonblock ≡ false) × (0 < p.writers) × ((p.size ≡ 0) ⊎ (p.readoff ≡ pipe_buf))

taken_bytes :
    (p : Pipe) (buffer : Store ℕ) (n : ℕ)
    → IsValid p
    → 0 < p.size
    → 0 < n
    → n ≤ read_limit p
    → contents p ≡ slice (copy buffer 0 p.bytes p.readoff n) 0 n ++ contents (settle (advance p n))
taken_bytes p buffer n v held pos le =
    contents-advance p n v held pos le
    ∙ ap (λ t. t ++ contents (settle (advance p n))) (sym (slice-copy buffer 0 p.bytes p.readoff n))

read_loop-Took :
    (fuel : ℕ) (p : Pipe) (nonblock : Bool) (buffer : Store ℕ) (count : ℕ)
    → IsValid p
    → 0 < count
    → p.readoff < pipe_buf
    → 0 < fuel
    → (o : Outcome) × (read_loop fuel [] p nonblock buffer count ≡ some o) × Took p nonblock count o
unfolding read_loop read_turn
read_loop-Took zero p nonblock buffer count v pos near h = absurd (omega arith)
read_loop-Took (suc fuel) p nonblock buffer count v pos near h = elim (ℕ_discrete p.size 0) [
  | yes none_ ↦ elim (ℕ_discrete p.writers 0) [
    | yes gone ↦ (
      returned (settle p) buffer (done 0),
      ground arith,
      (omega arith, sym (contents-settle p), settle-IsValid p v, λ z. inr (none_, gone)),
    )
    | no open_ ↦ elim (Bool-cases nonblock) [
      | inl e ↦
          (returned p buffer (fail again), ground arith, (refl, refl, e, omega arith, inl none_))
      | inr e ↦ (asleep p, ground arith, (refl, e, omega arith, inl none_))
    ]
  ]
  | no held ↦
      let n = min (read_limit p) count in
      let some_ : 0 < n = ground arith in
      (
        returned (settle (advance p n)) (copy buffer 0 p.bytes p.readoff n) (done n),
        ground arith,
        (
          omega arith,
          taken_bytes p buffer n v (omega arith) some_ (omega arith),
          advance-IsValid p n v (omega arith) some_ (omega arith),
          λ z. absurd (omega arith),
        ),
      )
]

contents-rewind :
    (p : Pipe) → p.readoff ≡ pipe_buf → contents (record p { readoff = 0 }) ≡ contents p
unfolding contents
contents-rewind p e =
    let same : 0 ≡ p.readoff % pipe_buf = omega arith in ap (λ h. window p.bytes h p.size) same

Took-rewind :
    (p : Pipe) (nonblock : Bool) (count : ℕ) (o : Outcome)
    → p.writers ≡ 0
    → p.readoff ≡ pipe_buf
    → Took (record p { readoff = 0 }) nonblock count o
    → Took p nonblock count o
Took-rewind p nonblock count (returned q out (done n)) gone e (le, eq, v, why) =
    (le, sym (contents-rewind p e) ∙ eq, v, why)
Took-rewind p nonblock count (returned q out (fail x)) gone e (same, a, b, writers, c) =
    absurd (omega arith)
Took-rewind p nonblock count (asleep q) gone e (same, b, writers, c) = absurd (omega arith)

-- At the end of the buffer a pipe that holds bytes and has no writer is rewound first.
read_loop-Took_end :
    (fuel : ℕ) (p : Pipe) (nonblock : Bool) (buffer : Store ℕ) (count : ℕ)
    → IsValid p
    → 0 < count
    → p.readoff ≡ pipe_buf
    → 1 < fuel
    → (o : Outcome) × (read_loop fuel [] p nonblock buffer count ≡ some o) × Took p nonblock count o
unfolding read_loop read_turn
read_loop-Took_end zero p nonblock buffer count v pos far h = absurd (omega arith)
read_loop-Took_end (suc fuel) p nonblock buffer count v pos far h = elim (ℕ_discrete p.writers 0) [
  | no open_ ↦ elim (Bool-cases nonblock) [
    | inl e ↦ (returned p buffer (fail again), ground arith, (refl, refl, e, omega arith, inr far))
    | inr e ↦ (asleep p, ground arith, (refl, e, omega arith, inr far))
  ]
  | yes gone ↦
      let (o, run, took_) =
        read_loop-Took fuel (record p { readoff = 0 }) nonblock buffer count
          (rewind-IsValid p v (ground arith) (omega arith)) pos (omega arith) (omega arith) in
      (o, ground (arith, run), Took-rewind p nonblock count o gone far took_)
]

-- Reading from a valid pipe, while no other process changes it, comes to one of these: a number of
-- bytes, at most as many as asked for, is returned, the user's buffer begins with exactly the first
-- bytes of the pipe in order, the others are still in it and the pipe stays valid, and the number
-- is 0 only if 0 bytes were asked for or the pipe is empty and has no writer; or the pipe stays as it
-- was and has a writer, it is empty or its reading offset is at the end of the buffer, and the call
-- gives EAGAIN if it may not block and sleeps otherwise.
pub pipefs_read_lem :
    (p : Pipe) (nonblock : Bool) (buffer : Store ℕ) (count fuel : ℕ)
    → IsValid p
    → 1 < fuel
    → (o : Outcome) × (pipefs_read fuel [] p nonblock buffer count ≡ some o)
      × Took p nonblock count o
unfolding pipefs_read
pipefs_read_lem p nonblock buffer count fuel v h = elim (ℕ_discrete count 0) [
  | yes none_ ↦ (
    returned (settle p) buffer (done 0),
    ground arith,
    (omega arith, sym (contents-settle p), settle-IsValid p v, λ z. inl none_),
  )
  | no some_ ↦ elim (dec_lt p.readoff pipe_buf) [
    | yes near ↦
        let (o, run, took_) =
          read_loop-Took fuel p nonblock buffer count v (omega arith) near (omega arith) in
        (o, ground (arith, run), took_)
    | no far ↦
        let (o, run, took_) =
          read_loop-Took_end fuel p nonblock buffer count v (omega arith) (omega (arith, v)) h in
        (o, ground (arith, run), took_)
  ]
]
