-- ===== src/Strings/Copies.antt =====
-- What the copying routines leave in memory.
use fiwix_arm.Base.{
  ap, arith, fun_ext, if-cases, if◌then◌else◌, inl, ltb, ltb→lt, suc, zero, ℕ, ◌+◌, ◌-◌, ◌<◌, ◌∙◌,
  ◌≡◌, ◌≤◌, ◌⊎◌,
}
use fiwix_arm.Strings.{update, Store, memcpy, copy_down, memmove, memset}
use native.Mathlib.Decide.{ℕ_discrete, dec_lt}

-- `count` cells from `dest` on are those of `from`, the others those of `mem`.
abbrev pub pasted : Store ℕ → ℕ → (ℕ → ℕ) → ℕ → Store ℕ
pasted mem dest from count j =
    if ltb j dest then mem j else if ltb j (dest + count) then from (j - dest) else mem j

-- Upwards, where the destination does not stand inside the rest of the source.
memcpy-pasted :
    (count : ℕ) (mem : Store ℕ) (dest src : ℕ)
    → (dest < src) ⊎ (src + count ≤ dest)
    → (j : ℕ) → memcpy mem dest src count j ≡ pasted mem dest (λ i. mem (src + i)) count j
unfolding memcpy
memcpy-pasted zero mem dest src apart j = ground arith
memcpy-pasted (suc count) mem dest src apart j =
    memcpy-pasted count (update mem dest (mem src)) (dest + 1) (src + 1) (omega (arith, apart)) j
    ∙ elim (dec_lt dest j) [
      | yes lt ↦
          let a : src + 1 + (j - (dest + 1)) ≡ src + (j - dest) = omega arith in
          ground (arith, ap mem a)
      | no nlt ↦ elim (ℕ_discrete dest j) [
        | yes e ↦ let a : src ≡ src + (j - dest) = omega arith in ground (arith, ap mem a)
        | no ne ↦ ground arith
      ]
    ]

copy_down-pasted :
    (count : ℕ) (mem : Store ℕ) (dest src : ℕ)
    → src ≤ dest
    → (j : ℕ) → copy_down mem dest src count j ≡ pasted mem dest (λ i. mem (src + i)) count j
unfolding copy_down
copy_down-pasted zero mem dest src le j = ground arith
copy_down-pasted (suc count) mem dest src le j =
    copy_down-pasted count (update mem (dest + count) (mem (src + count))) dest src le j
    ∙ elim (ℕ_discrete (dest + count) j) [
      | yes e ↦ let a : src + count ≡ src + (j - dest) = omega arith in ground (arith, ap mem a)
      | no ne ↦ ground arith
    ]

-- `memmove` leaves at the destination what stood at the source before the call, however the two
-- overlap, and every other cell as it was.
pub memmove_lem :
    (mem : Store ℕ) (dest src count : ℕ)
    → memmove mem dest src count ≡ pasted mem dest (λ i. mem (src + i)) count
unfolding memmove
memmove_lem mem dest src count = fun_ext λ j.
    if-cases (λ (m : Store ℕ). m j ≡ pasted mem dest (λ i. mem (src + i)) count j) (ltb dest src)
      (λ e. memcpy-pasted count mem dest src (inl (ltb→lt dest src e)) j)
      (λ e. copy_down-pasted count mem dest src (ground (arith, e)) j)

-- `memcpy` does the same where the destination stands below the source or behind its end.
pub memcpy_lem :
    (mem : Store ℕ) (dest src count : ℕ)
    → (dest < src) ⊎ (src + count ≤ dest)
    → memcpy mem dest src count ≡ pasted mem dest (λ i. mem (src + i)) count
memcpy_lem mem dest src count apart = fun_ext λ j. memcpy-pasted count mem dest src apart j

-- `memset` stores the value in `count` cells from `dest` on and leaves the others as they were.
pub memset_lem :
    (mem : Store ℕ) (dest value count : ℕ)
    → memset mem dest value count ≡ pasted mem dest (λ i. value) count
unfolding memset
memset_lem mem dest value zero = fun_ext λ j. ground arith
memset_lem mem dest value (suc count) =
    memset_lem (update mem dest value) (dest + 1) value count ∙ fun_ext λ j. ground arith
