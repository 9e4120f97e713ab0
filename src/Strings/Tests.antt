-- ===== src/Strings/Tests.antt =====
-- Runs of the byte and string routines.
use fiwix_arm.Base.{arith, if◌then◌else◌, ltb, refl, suc, zero, ℕ, ◌+◌, ◌<◌, ◌≡◌, ◌≢◌}
use fiwix_arm.Base.Store.{Store}
use fiwix_arm.Strings.Cstring.{IsCstring}
use fiwix_arm.Strings.{memmove}
use fiwix_arm.Strings.Copies.{memmove_lem, pasted}

-- "abc" at 10 and at 20
abbrev memory : Store ℕ
memory j =
    if ltb j 10
    then 0
    else if ltb j 13
    then 87 + j
    else if ltb j 20
    then 0
    else if ltb j 23
    then 77 + j
    else 0

abc : IsCstring memory 10 3
abc = (omega arith, (omega arith, (omega arith, refl)))

abc2 : IsCstring memory 20 3
abc2 = (omega arith, (omega arith, (omega arith, refl)))

memmove_lem_example : memmove memory 11 10 3 ≡ pasted memory 11 (λ i. memory (10 + i)) 3
memmove_lem_example = memmove_lem memory 11 10 3

full_two : (i : ℕ) → i < 2 → memory (10 + i) ≢ 0
full_two zero lt = omega arith
full_two (suc zero) lt = omega arith
full_two (suc (suc i)) lt = absurd (omega (arith, lt))
