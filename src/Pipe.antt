-- ===== src/Pipe.antt =====
-- fs/pipefs/pipe.c: a pipe's buffer and the operations on it. What other processes do while a call
-- sleeps is an argument: the pipe as each sleep leaves it, and whether a signal ended the sleep.
pub mod Window
pub mod Valid
pub mod Fifo
pub mod Total
pub mod Transfer
pub mod Receive
pub mod Blocking
mod Tests
use fiwix_arm.Base.{
  ==_iff, Bool, Bool-cases, List, Option, Option-cases, [], ap, ap₂, arith, bit_and, bit_or, drop,
  false, fun_ext, get_elem?, get_elem?-set_ne, get_elem?-set_self, get_or, if◌then◌else◌, inl, inr,
  leb, leb→le, length, length-append, length-drop, length-map, length-replicate, length-set,
  length-take, ltb, ltb→lt, lt→ltb, map, max, min, none, not, not_lt→ltb, refl, replicate, set,
  some, suc, sym, take, take-append-drop, tests, true, zero, ℕ, ◌%◌, ◌&&◌, ◌*◌, ◌++◌, ◌+◌, ◌-◌, ◌/◌,
  ◌<◌, ◌==◌, ◌^◌, ◌||◌, ◌↔◌, ◌∙◌, ◌∷◌, ◌≡◌, ◌≢◌, ◌≤◌, ◌⊎◌,
}
use fiwix_arm.Base.Int.{ℤ}
use fiwix_arm.Base.Store.{Store}
use fiwix_arm.Base.Errno.{intr, pipe, again, fail, done, Result}

abbrev pub pipe_buf : ℕ
pipe_buf = 4096

-- `struct pipefs_inode`, with `i_size` of its inode
pub record Pipe : Type 0 where
  pub bytes : Store ℕ
  pub readoff : ℕ
  pub writeoff : ℕ
  pub readers : ℕ
  pub writers : ℕ
  pub size : ℕ

-- One return of `sleep`: its value is not 0 where a signal ended it.
pub record Wake : Type 0 where
  pub pipe : Pipe
  pub signalled : Bool

-- `memcpy_b(dest + at, src + from, n)`
abbrev pub copy : Store ℕ → ℕ → Store ℕ → ℕ → ℕ → Store ℕ
copy dest at src from n j =
    if ltb j at then dest j else if ltb j (at + n) then src (from + (j - at)) else dest j

-- How far `pipefs_read` can go without turning round.
abbrev pub read_limit : Pipe → ℕ
read_limit p =
    if not (p.writeoff == 0)
    then (if leb p.writeoff p.readoff then pipe_buf - p.readoff else p.writeoff - p.readoff)
    else pipe_buf - p.readoff

abbrev pub turned : ℕ → ℕ
turned off = if leb pipe_buf off then 0 else off

-- How one turn of the loop of `pipefs_read` ends.
pub data ReadTurn : Type 0 where
  took : Pipe → Store ℕ → ℕ → ReadTurn  -- `break`, with the bytes read
  rewound : Pipe → ReadTurn  -- `continue`
  read_again : ReadTurn  -- return of -EAGAIN
  read_sleep : ReadTurn

pub read_turn : Pipe → Bool → Store ℕ → ℕ → ReadTurn
read_turn p nonblock buffer count =
    let n = min (read_limit p) count in
    if not (p.size == 0) && not (n == 0)
    then took
        (record p { readoff = p.readoff + n; size = p.size - n; writeoff = turned p.writeoff })
        (copy buffer 0 p.bytes p.readoff n) n
    else if not (p.writers == 0)
    then (if nonblock then read_again else read_sleep)
    else if not (p.size == 0) && leb pipe_buf p.readoff
    then rewound (record p { readoff = 0 })
    else took p buffer 0

-- What a call has come to: it returned, or it still sleeps when the given sleeps are used up.
pub data Outcome : Type 0 where
  returned : Pipe → Store ℕ → Result ℕ → Outcome
  asleep : Pipe → Outcome

-- An empty pipe starts again at offset 0.
abbrev pub settle : Pipe → Pipe
settle p = if p.size == 0 then record p { readoff = 0; writeoff = 0 } else p

-- The loop of `pipefs_read` for a count that is not 0. `none` means that the fuel ran out.
pub read_loop : ℕ → List Wake → Pipe → Bool → Store ℕ → ℕ → Option Outcome
read_loop zero wakes p nonblock buffer count = none
read_loop (suc fuel) wakes p nonblock buffer count = elim (read_turn p nonblock buffer count) [
  | took q out n ↦ some (returned (settle q) out (done n))
  | rewound q ↦ read_loop fuel wakes q nonblock buffer count
  | read_again ↦ some (returned p buffer (fail again))
  | read_sleep ↦ elim wakes [
    | [] ↦ some (asleep p)
    | w ∷ ws ↦
        if w.signalled
        then some (returned w.pipe buffer (fail intr))
        else read_loop fuel ws w.pipe nonblock buffer count
  ]
]

pub pipefs_read : ℕ → List Wake → Pipe → Bool → Store ℕ → ℕ → Option Outcome
pipefs_read fuel wakes p nonblock buffer count =
    let run = read_loop fuel wakes p nonblock buffer count in
    if count == 0 then some (returned (settle p) buffer (done 0)) else run

-- How far `pipefs_write` can go without turning round.
abbrev pub write_limit : Pipe → ℕ
write_limit p =
    if not (p.readoff == 0)
    then (if leb p.writeoff p.readoff then p.readoff else pipe_buf)
    else pipe_buf

-- `limit - i_writeoff`, unsigned
abbrev pub room : Pipe → ℕ
room p = (write_limit p + 2 ^ 32 - p.writeoff) % 2 ^ 32

pub data WriteTurn : Type 0 where
  put : Pipe → ℕ → WriteTurn  -- `continue`, with the bytes written by this turn
  broken : WriteTurn  -- SIGPIPE to the caller and return of -EPIPE
  write_again : WriteTurn
  write_sleep : WriteTurn

pub write_turn : Pipe → Bool → Store ℕ → ℕ → ℕ → WriteTurn
write_turn p nonblock buffer count written =
    let n = min (count - written) (room p) in
    if p.readers == 0
    then broken
    else if not (n == 0) && leb n pipe_buf
    then put
        (record p {
          bytes = copy p.bytes p.writeoff buffer written n;
          writeoff = p.writeoff + n;
          size = p.size + n;
          readoff = turned p.readoff;
        })
        n
    else if nonblock
    then write_again
    else write_sleep

pub write_loop : ℕ → List Wake → Pipe → Bool → Store ℕ → ℕ → ℕ → Option Outcome
write_loop zero wakes p nonblock buffer count written = none
write_loop (suc fuel) wakes p nonblock buffer count written =
    let turn : Option Outcome = elim (write_turn p nonblock buffer count written) [
      | put q n ↦ write_loop fuel wakes q nonblock buffer count (written + n)
      | broken ↦ some (returned p buffer (fail pipe))
      | write_again ↦ some (returned p buffer (fail again))
      | write_sleep ↦ elim wakes [
        | [] ↦ some (asleep p)
        | w ∷ ws ↦
            if w.signalled
            then some (returned w.pipe buffer (fail intr))
            else write_loop fuel ws w.pipe nonblock buffer count written
      ]
    ] in
    if ltb written count then turn else some (returned p buffer (done written))

pub pipefs_write : ℕ → List Wake → Pipe → Bool → Store ℕ → ℕ → Option Outcome
pipefs_write fuel wakes p nonblock buffer count = write_loop fuel wakes p nonblock buffer count 0

-- `f->flags & O_ACCMODE`
pub data Access : Type 0 where
  rdonly wronly rdwr : Access

-- Who is woken by a close: the writers, the readers.
pub record Closed : Type 0 where
  pub pipe : Pipe
  pub wakes_write : Bool
  pub wakes_read : Bool

-- `--i_readers` and `--i_writers`, unsigned
abbrev pub less_one : ℕ → ℕ
less_one n = (n + 2 ^ 32 - 1) % 2 ^ 32

pub pipefs_close : Pipe → Access → Closed
pipefs_close p rdonly = record {
  pipe = record p { readers = less_one p.readers };
  wakes_write = less_one p.readers == 0;
  wakes_read = false;
}
pipefs_close p wronly = record {
  pipe = record p { writers = less_one p.writers };
  wakes_write = false;
  wakes_read = less_one p.writers == 0;
}
pipefs_close p rdwr = record {
  pipe = record p { readers = less_one p.readers; writers = less_one p.writers };
  wakes_write = less_one p.readers == 0;
  wakes_read = less_one p.writers == 0;
}

-- SEL_R, SEL_W, and any other flag
pub data Select : Type 0 where
  sel_r sel_w sel_other : Select

pub pipefs_select : Pipe → Select → Bool
pipefs_select p sel_r = not (p.size == 0) || p.writers == 0
pipefs_select p sel_w = ltb p.size pipe_buf || p.readers == 0
pipefs_select p sel_other = false
