-- ===== src/Pipe/Blocking.antt =====
-- Where a call on a pipe waits, or fails, although bytes could be moved; and a transfer that does not.
use fiwix_arm.Base.{
  Bool, [], ap, arith, false, min, refl, some, suc, true, zero, ℕ, ◌%◌, ◌++◌, ◌+◌, ◌-◌, ◌<◌, ◌∙◌,
  ◌≡◌, ◌≤◌,
}
use fiwix_arm.Pipe.{
  write_again, settle, turned, again, copy, fail, asleep, sel_r, done, put, read_turn, returned,
  pipe_buf, read_loop, room, pipefs_read, write_loop, Store, pipefs_select, Pipe, pipefs_write,
  write_turn,
}
use fiwix_arm.Pipe.Valid.{advance, room-le, extend, IsValid}
use fiwix_arm.Base.Slice.{slice}
use fiwix_arm.Pipe.Window.{window, slice-copy, contents}
use fiwix_arm.Pipe.Fifo.{contents-extend}

write_turn_once :
    (p : Pipe) (nonblock : Bool) (buffer : Store ℕ) (count written n : ℕ)
    → min (count - written) (room p) ≡ n
    → 0 < p.readers
    → 0 < n
    → n ≤ pipe_buf
    → write_turn p nonblock buffer count written ≡ put (extend p buffer written n) n
unfolding write_turn
write_turn_once p nonblock buffer count written n e open_ pos le = rw e (ground arith)

-- What fits goes in at once.
write_once :
    (p : Pipe) (nonblock : Bool) (buffer : Store ℕ) (count : ℕ)
    → IsValid p
    → 0 < p.readers
    → 0 < count
    → count ≤ room p
    → pipefs_write 2 [] p nonblock buffer count
      ≡ some (returned (extend p buffer 0 count) buffer (done count))
unfolding pipefs_write write_loop
write_once p nonblock buffer count v open_ pos le =
    ground
      (arith, room-le p v, write_turn_once p nonblock buffer count 0 count (omega arith) open_ pos)

-- Between 1 and 4096 bytes written to an empty valid pipe with a reader go in at once, and reading as
-- many takes exactly these bytes out, in order, and leaves the pipe empty.
pub read-write :
    (p : Pipe) (nonblock nonblock' : Bool) (buffer dest : Store ℕ) (count : ℕ)
    → IsValid p
    → p.size ≡ 0
    → 0 < p.readers
    → 0 < count
    → count ≤ pipe_buf
    → (q : Pipe) × (pipefs_write 2 [] p nonblock buffer count
        ≡ some (returned q buffer (done count)))
      × (r : Pipe) × (out : Store ℕ) × (pipefs_read 1 [] q nonblock' dest count
          ≡ some (returned r out (done count)))
      × (slice out 0 count ≡ slice buffer 0 count)
      × (r.size ≡ 0)
read-write p nonblock nonblock' buffer dest count v empty open_ pos le = (
  extend p buffer 0 count,
  write_once p nonblock buffer count v open_ pos (ground arith),
  settle (advance (extend p buffer 0 count) count),
  copy dest 0 (extend p buffer 0 count).bytes (extend p buffer 0 count).readoff count,
  unfold pipefs_read read_loop read_turn in ground arith,
  slice-copy dest 0 (extend p buffer 0 count).bytes (extend p buffer 0 count).readoff count ∙ held,
  ground arith,
)
  where
    offsets : (p.readoff ≡ 0) × (p.writeoff ≡ 0)
    offsets = ground (arith, v)

    held :
        slice (copy p.bytes p.writeoff buffer 0 count) (turned p.readoff) count
        ≡ slice buffer 0 count
    held =
        ap (λ h. slice (copy p.bytes p.writeoff buffer 0 count) h count) (ground (arith, offsets))
        ∙ slice-copy p.bytes p.writeoff buffer 0 count

-- A reader that may block sleeps, and one that may not gets EAGAIN, on a valid pipe that holds bytes and
-- that `select` reports readable, whenever the reading offset has come to the end of the buffer
-- and the pipe has a writer.
pub reader_stuck :
    (p : Pipe) (buffer : Store ℕ) (count : ℕ)
    → IsValid p
    → p.readoff ≡ pipe_buf
    → 0 < p.writers
    → 0 < count
    → (0 < p.size)
      × (pipefs_select p sel_r ≡ true)
      × (pipefs_read 1 [] p false buffer count ≡ some (asleep p))
      × (pipefs_read 1 [] p true buffer count ≡ some (returned p buffer (fail again)))
unfolding pipefs_select pipefs_read read_loop read_turn
reader_stuck p buffer count v far writers pos =
    (ground arith, ground arith, ground arith, ground arith)

window_zero : (d : Store ℕ) (h n : ℕ) → n ≡ 0 → window d h n ≡ []
window_zero d h zero e = refl
window_zero d h (suc n) e = absurd (omega arith)

contents_zero : (p : Pipe) → p.size ≡ 0 → contents p ≡ []
unfolding contents
contents_zero p e = window_zero p.bytes (p.readoff % pipe_buf) p.size e

-- A writer that may not block and has more bytes than an empty valid pipe with a reader takes gets
-- EAGAIN, not a count, although the first `n` of its bytes, `n` being PIPE_BUF, are in the pipe.
pub writer_uncounted :
    (p : Pipe) (buffer : Store ℕ) (count n : ℕ)
    → n ≡ pipe_buf
    → IsValid p
    → p.size ≡ 0
    → 0 < p.readers
    → n < count
    → let q = extend p buffer 0 n in
      (pipefs_write 2 [] p true buffer count ≡ some (returned q buffer (fail again)))
      × (contents q ≡ slice buffer 0 n)
writer_uncounted p buffer count n all v empty open_ more = (
  unfold pipefs_write write_loop in
      ground (
        arith,
        offsets,
        write_turn_once p true buffer count 0 n (ground (arith, offsets)) open_,
        full,
      ),
  contents-extend p buffer 0 n v (omega arith) (ground (arith, offsets))
      ∙ ap (λ t. t ++ slice buffer 0 n) (contents_zero p empty),
)
  where
    offsets : (p.readoff ≡ 0) × (p.writeoff ≡ 0)
    offsets = ground (arith, v)

    full : write_turn (extend p buffer 0 n) true buffer count (0 + n) ≡ write_again
    full = unfold write_turn in ground (arith, offsets)
