-- ===== src/Pipe/Tests.antt =====
-- Runs of the pipe calls.
use fiwix_arm.Base.{Option, [], arith, false, none, refl, some, true, ℕ, ◌*◌, ◌+◌, ◌<◌, ◌∷◌, ◌≡◌}
use fiwix_arm.Base.Store.{Store}
use fiwix_arm.Pipe.{
  again, fail, asleep, done, read_loop, sel_r, returned, write_turn, read_turn, pipefs_read,
  write_loop, pipefs_select, pipefs_write, Outcome, Pipe,
}
use fiwix_arm.Pipe.Valid.{write_turn-IsValid, read_turn-IsValid, AfterWrite, AfterRead, IsValid}
use fiwix_arm.Pipe.Transfer.{pipefs_write_lem, Wrote}
use fiwix_arm.Pipe.Receive.{pipefs_read_lem, Took}
use fiwix_arm.Pipe.Total.{pipe_calls_end}
use fiwix_arm.Base.Slice.{slice}
use fiwix_arm.Pipe.Blocking.{reader_stuck, read-write}

abbrev zeros : Store ℕ
zeros n = 0

abbrev letters : Store ℕ
letters n = 97 + n

abbrev fresh : Pipe
fresh = record { bytes = zeros; readoff = 0; writeoff = 0; readers = 1; writers = 1; size = 0 }

-- 100 bytes, with the reading offset at the end of the buffer.
abbrev at_the_end : Pipe
at_the_end = record fresh { readoff = 4096; writeoff = 100; size = 100 }

fresh-IsValid : IsValid fresh
fresh-IsValid = omega arith

at_the_end-IsValid : IsValid at_the_end
at_the_end-IsValid = omega arith

abbrev left : Option Outcome → Pipe
left none = fresh
left (some (returned p out r)) = p
left (some (asleep p)) = p

-- 4096 bytes in, 100 out, 100 in, and the 3996 to the end of the buffer out.
reaches_the_end :
    let a = left (pipefs_write 3 [] fresh false letters 4096) in
    let b = left (pipefs_read 2 [] a false zeros 100) in
    let c = left (pipefs_write 3 [] b false letters 100) in
    let d = left (pipefs_read 2 [] c false zeros 3996) in
    (d.readoff ≡ 4096) × (d.size ≡ 100) × (d.writers ≡ 1)
unfolding pipefs_write write_loop write_turn pipefs_read read_loop read_turn
reaches_the_end = (refl, refl, refl)

pipe_calls_end_example :
    ((3 + 0 < 4 → (o : Outcome) × (pipefs_write 4 [] fresh true letters 3 ≡ some o)))
    × ((2 * 0 + 1 < 4 → (o : Outcome) × (pipefs_read 4 [] fresh true letters 3 ≡ some o)))
pipe_calls_end_example = pipe_calls_end [] fresh true letters 3 4

read_turn-IsValid_example : AfterRead (read_turn at_the_end true zeros 7)
read_turn-IsValid_example = read_turn-IsValid at_the_end true zeros 7 at_the_end-IsValid

write_turn-IsValid_example : AfterWrite (write_turn at_the_end true letters 7 0)
write_turn-IsValid_example = write_turn-IsValid at_the_end true letters 7 0 at_the_end-IsValid

pipefs_write_lem_example :
    (o : Outcome) × (pipefs_write 4 [] fresh true letters 3 ≡ some o)
    × Wrote fresh true letters 3 0 o
pipefs_write_lem_example = pipefs_write_lem fresh true letters 3 4 fresh-IsValid (omega arith)

pipefs_read_lem_example :
    (o : Outcome) × (pipefs_read 2 [] at_the_end true zeros 3 ≡ some o) × Took at_the_end true 3 o
pipefs_read_lem_example = pipefs_read_lem at_the_end true zeros 3 2 at_the_end-IsValid (omega arith)

read-write_example :
    (q : Pipe) × (pipefs_write 2 [] fresh true letters 3 ≡ some (returned q letters (done 3)))
    × (r : Pipe) × (out : Store ℕ) × (pipefs_read 1 [] q true zeros 3
        ≡ some (returned r out (done 3)))
    × (slice out 0 3 ≡ 97 ∷ 98 ∷ 99 ∷ [])
    × (r.size ≡ 0)
read-write_example =
    read-write fresh true true letters zeros 3 fresh-IsValid refl (omega arith) (omega arith)
      (omega arith)

reader_stuck_example :
    (0 < 100)
    × (pipefs_select at_the_end sel_r ≡ true)
    × (pipefs_read 1 [] at_the_end false zeros 5 ≡ some (asleep at_the_end))
    × (pipefs_read 1 [] at_the_end true zeros 5 ≡ some (returned at_the_end zeros (fail again)))
reader_stuck_example =
    reader_stuck at_the_end zeros 5 at_the_end-IsValid refl (omega arith) (omega arith)
