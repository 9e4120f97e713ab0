-- ===== src/Pipe/Valid.antt =====
-- The offsets and the size of a pipe belong together, and every turn keeps them so.
use fiwix_arm.Base.{
  Bool, Bool-cases, arith, inl, inr, leb, min, not, ℕ, ◌&&◌, ◌+◌, ◌-◌, ◌<◌, ◌==◌, ◌≡◌, ◌≤◌, ◌⊎◌,
}
use fiwix_arm.Pipe.{
  write_sleep, read_sleep, write_again, read_again, broken, rewound, copy, put, took, room, Store,
  settle, read_limit, turned, write_turn, WriteTurn, read_turn, ReadTurn, Pipe, pipe_buf,
}

-- How the bytes lie in the buffer: none; one stretch up to `writeoff`; or one to the end of the
-- buffer and one from its start.
abbrev pub Layout : ℕ → ℕ → ℕ → Type 0
Layout readoff writeoff size =
    ((size ≡ 0) × (readoff ≡ 0) × (writeoff ≡ 0))
    ⊎ (((readoff < writeoff) × (size ≡ writeoff - readoff))
        ⊎ ((0 < readoff)
            × (writeoff ≤ readoff)
            × (size ≡ pipe_buf - readoff + writeoff)
            × (0 < size)))

pub record IsValid (p : Pipe) : Type 0 where
  pub read_in : p.readoff ≤ pipe_buf
  pub write_in : p.writeoff ≤ pipe_buf
  pub layout : Layout p.readoff p.writeoff p.size

-- A valid pipe never holds more than PIPE_BUF bytes.
pub size-le : (p : Pipe) → IsValid p → p.size ≤ pipe_buf
size-le p v = ground arith

-- The pipe after `n` bytes have been read.
abbrev pub advance : Pipe → ℕ → Pipe
advance p n = record p { readoff = p.readoff + n; size = p.size - n; writeoff = turned p.writeoff }

pub read_limit-le :
    (p : Pipe)
    → IsValid p
    → 0 < p.size
    → (read_limit p ≤ p.size) × (p.readoff + read_limit p ≤ pipe_buf)
read_limit-le p v held = ground arith

pub advance-IsValid :
    (p : Pipe) (n : ℕ)
    → IsValid p
    → 0 < p.size
    → 0 < n
    → n ≤ read_limit p
    → IsValid (settle (advance p n))
advance-IsValid p n v held pos le = ground arith

pub settle-IsValid : (p : Pipe) → IsValid p → IsValid (settle p)
settle-IsValid p v = ground arith

pub rewind-IsValid :
    (p : Pipe) → IsValid p → 0 < p.size → pipe_buf ≤ p.readoff → IsValid (record p { readoff = 0 })
rewind-IsValid p v held far = ground arith

abbrev pub AfterRead : ReadTurn → Type 0
AfterRead (took q out n) = IsValid (settle q)
AfterRead (rewound q) = IsValid q
AfterRead read_again = Unit {0}
AfterRead read_sleep = Unit {0}

-- However a turn of the read loop ends on a valid pipe, the pipe that it leaves is valid: with an
-- empty pipe's offsets set back where the turn leaves the loop, and as it is where it goes on.
pub read_turn-IsValid :
    (p : Pipe) (nonblock : Bool) (buffer : Store ℕ) (count : ℕ)
    → IsValid p
    → AfterRead (read_turn p nonblock buffer count)
unfolding read_turn
read_turn-IsValid p nonblock buffer count v =
    elim (Bool-cases (not (p.size == 0) && not (min (read_limit p) count == 0))) [
      | inl taken ↦ rw taken (
          advance-IsValid p (min (read_limit p) count) v (ground arith) (ground arith)
            (omega arith))
      | inr nothing ↦ elim (Bool-cases (p.writers == 0)) [
        | inr held ↦ elim (Bool-cases nonblock) [
          | inl e ↦ rw (nothing, held, e) tt
          | inr e ↦ rw (nothing, held, e) tt
        ]
        | inl none_left ↦ elim (Bool-cases (not (p.size == 0) && leb pipe_buf p.readoff)) [
          | inl far ↦
              rw (nothing, none_left, far) (rewind-IsValid p v (ground arith) (ground arith))
          | inr near ↦ rw (nothing, none_left, near) (settle-IsValid p v)
        ]
      ]
    ]

-- The pipe after `n` bytes of a buffer have been written.
abbrev pub extend : Pipe → Store ℕ → ℕ → ℕ → Pipe
extend p buffer written n = record p {
  bytes = copy p.bytes p.writeoff buffer written n;
  writeoff = p.writeoff + n;
  size = p.size + n;
  readoff = turned p.readoff;
}

pub room-le :
    (p : Pipe) → IsValid p → (room p ≤ pipe_buf - p.size) × (p.writeoff + room p ≤ pipe_buf)
room-le p v = ground arith

pub extend-IsValid :
    (p : Pipe) (buffer : Store ℕ) (written n : ℕ)
    → IsValid p
    → 0 < n
    → n ≤ room p
    → IsValid (extend p buffer written n)
extend-IsValid p buffer written n v pos le = ground arith

abbrev pub AfterWrite : WriteTurn → Type 0
AfterWrite (put q n) = IsValid q
AfterWrite broken = Unit {0}
AfterWrite write_again = Unit {0}
AfterWrite write_sleep = Unit {0}

-- A turn of the write loop that copies bytes leaves a valid pipe valid, whatever the count and the
-- bytes written before.
pub write_turn-IsValid :
    (p : Pipe) (nonblock : Bool) (buffer : Store ℕ) (count written : ℕ)
    → IsValid p
    → AfterWrite (write_turn p nonblock buffer count written)
unfolding write_turn
write_turn-IsValid p nonblock buffer count written v = elim (Bool-cases (p.readers == 0)) [
  | inl gone ↦ rw gone tt
  | inr open_ ↦
      elim (Bool-cases (
        not (min (count - written) (room p) == 0)
        && leb (min (count - written) (room p)) pipe_buf)) [
          | inl some_ ↦
              rw (open_, some_)
                (extend-IsValid p buffer written (min (count - written) (room p)) v (ground arith)
                  (omega arith))
          | inr full ↦ elim (Bool-cases nonblock) [
            | inl e ↦ rw (open_, full, e) tt
            | inr e ↦ rw (open_, full, e) tt
          ]
        ]
]
