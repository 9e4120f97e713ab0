-- ===== src/Charq/Tests.antt =====
-- Runs of the character queues.
use fiwix_arm.Charq.Shape.{Put, IsValid}
use fiwix_arm.Base.{[], arith, refl, some, ℕ, ◌+◌, ◌∷◌, ◌≡◌}
use fiwix_arm.Base.Store.{Store}
use fiwix_arm.Charq.{charq_putchar, Status, blank, Clist}
use fiwix_arm.Charq.Take.{reads-contents, reads}
use fiwix_arm.Charq.Put.{charq_putchar_lem}

abbrev letters : Store ℕ
letters n = 97 + n

-- "bcd" in one block, and one block in the pool
abbrev three : Clist
three = record {
  count = 3;
  cb_num = 1;
  blocks = record { start_off = 1; end_off = 4; chars = letters } ∷ [];
  pool = blank ∷ [];
}

three-IsValid : IsValid three
unfolding IsValid
three-IsValid = (refl, omega arith, omega arith, refl)

charq_putchar_lem_example :
    (r : Clist) × (s : Status) × (charq_putchar 2 three 120 ≡ some (r, s)) × Put three 120 r s
charq_putchar_lem_example = charq_putchar_lem three 120 0 three-IsValid

reads-contents_example : reads 3 three ≡ 98 ∷ 99 ∷ 100 ∷ []
reads-contents_example = reads-contents three three-IsValid
