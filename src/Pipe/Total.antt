-- ===== src/Pipe/Total.antt =====
-- Both loops end: one turn for each byte and each sleep is enough for a write, and two turns for each
-- sleep for a read.
use fiwix_arm.Base.{
  Bool, List, Option, [], arith, if◌then◌else◌, leb, length, min, none, refl, some, suc, zero, ℕ,
  ◌*◌, ◌+◌, ◌-◌, ◌<◌, ◌==◌, ◌∷◌, ◌≡◌, ◌≢◌,
}
use fiwix_arm.Pipe.{
  done, settle, returned, room, Store, Wake, pipefs_read, read_turn, pipe_buf, write_turn,
  pipefs_write, Outcome, read_loop, Pipe, write_loop,
}
use fiwix_arm.Pipe.Valid.{extend}

write_loop-ne-none :
    (fuel : ℕ) (wakes : List Wake) (p : Pipe) (nonblock : Bool) (buffer : Store ℕ)
    (count written : ℕ)
    → count - written + length wakes < fuel
    → write_loop fuel wakes p nonblock buffer count written ≢ none
unfolding write_loop write_turn
write_loop-ne-none zero wakes p nonblock buffer count written h = absurd (omega arith)
write_loop-ne-none (suc fuel) [] p nonblock buffer count written h =
    let n = min (count - written) (room p) in
    ground (
      arith,
      write_loop-ne-none fuel [] (extend p buffer written n) nonblock buffer count (written + n),
    )
write_loop-ne-none (suc fuel) (w ∷ ws) p nonblock buffer count written h =
    let n = min (count - written) (room p) in
    ground (
      arith,
      write_loop-ne-none fuel (w ∷ ws) (extend p buffer written n) nonblock buffer count
          (written + n),
      write_loop-ne-none fuel ws w.pipe nonblock buffer count written,
    )

-- 1 for a pipe whose reading offset has come to the end of the buffer.
abbrev at_end : Pipe → ℕ
at_end p = if leb pipe_buf p.readoff then 1 else 0

read_loop-ne-none :
    (fuel : ℕ) (wakes : List Wake) (p : Pipe) (nonblock : Bool) (buffer : Store ℕ) (count : ℕ)
    → 2 * length wakes + at_end p < fuel
    → read_loop fuel wakes p nonblock buffer count ≢ none
unfolding read_loop read_turn
read_loop-ne-none zero wakes p nonblock buffer count h = absurd (omega arith)
read_loop-ne-none (suc fuel) [] p nonblock buffer count h =
    ground (arith, read_loop-ne-none fuel [] (record p { readoff = 0 }) nonblock buffer count)
read_loop-ne-none (suc fuel) (w ∷ ws) p nonblock buffer count h = ground (
  arith,
  read_loop-ne-none fuel (w ∷ ws) (record p { readoff = 0 }) nonblock buffer count,
  read_loop-ne-none fuel ws w.pipe nonblock buffer count,
)

some_of_ne_none : (o : Option Outcome) → o ≢ none → (r : Outcome) × (o ≡ some r)
some_of_ne_none none h = absurd (h refl)
some_of_ne_none (some r) h = (r, refl)

-- Whatever the pipe and the sleeps, `pipefs_write` of `count` bytes comes to a result or is still
-- asleep after at most as many turns as there are bytes and sleeps, and `pipefs_read` after two
-- turns for each sleep and two more.
pub pipe_calls_end :
    (wakes : List Wake) (p : Pipe) (nonblock : Bool) (buffer : Store ℕ) (count fuel : ℕ)
    → ((count + length wakes < fuel
        → (o : Outcome) × (pipefs_write fuel wakes p nonblock buffer count ≡ some o)))
      × ((2 * length wakes + 1 < fuel
          → (o : Outcome) × (pipefs_read fuel wakes p nonblock buffer count ≡ some o)))
unfolding pipefs_write pipefs_read
pipe_calls_end wakes p nonblock buffer count fuel = (
  λ h. some_of_ne_none _ (write_loop-ne-none fuel wakes p nonblock buffer count 0 (omega arith)),
  λ h. some_of_ne_none _ (reads h),
)
  where
    reads :
        2 * length wakes + 1 < fuel
        → (let run = read_loop fuel wakes p nonblock buffer count in
            if count == 0 then some (returned (settle p) buffer (done 0)) else run)
          ≢ none
    reads h = ground (arith, read_loop-ne-none fuel wakes p nonblock buffer count (ground arith))
