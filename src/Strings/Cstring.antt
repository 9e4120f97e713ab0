-- ===== src/Strings/Cstring.antt =====
-- The routines on NUL-terminated strings.
use fiwix_arm.Base.{
  Option, ap, ap₂, arith, drop, get_or, inl, inr, length, refl, some, suc, sym, zero, ℕ, ◌+◌, ◌<◌,
  ◌∙◌, ◌∷◌, ◌≡◌, ◌≢◌, ◌≤◌, ◌⊎◌,
}
use fiwix_arm.Base.Slice.{slice}
use fiwix_arm.Strings.{
  memcpy, strncpy_loop, strcpy, strcpy_loop, update, strncpy, strcmp, strlen_loop, Store, strlen,
}
use native.Mathlib.Decide.{ℕ_discrete}
use fiwix_arm.Base.Store.{update_ne}

-- A string of length `len` at `str`.
abbrev pub IsCstring : Store ℕ → ℕ → ℕ → Type 0
IsCstring mem str zero = mem str ≡ 0
IsCstring mem str (suc len) = (mem str ≢ 0) × IsCstring mem (str + 1) len

strlen_loop_ends :
    (len fuel : ℕ) (mem : Store ℕ) (str n : ℕ)
    → IsCstring mem str len
    → len < fuel
    → strlen_loop fuel mem str n ≡ some (n + len)
unfolding strlen_loop
strlen_loop_ends zero (suc fuel) mem str n h lt = ground (arith, h)
strlen_loop_ends (suc len) (suc fuel) mem str n (ne, h) lt =
    let rest = strlen_loop_ends len fuel mem (str + 1) (n + 1) h (omega arith) in
    ground (arith, rest, ne)
strlen_loop_ends len zero mem str n h lt = absurd (omega (arith, lt))

-- With fuel for the string and its NUL byte, `strlen` ends and returns the string's length.
pub strlen_lem :
    (len fuel : ℕ) (mem : Store ℕ) (str : ℕ)
    → str ≢ 0
    → IsCstring mem str len
    → len < fuel
    → strlen fuel mem str ≡ some len
unfolding strlen
strlen_lem len fuel mem str ne h lt = ground (arith, strlen_loop_ends len fuel mem str 0 h lt)

-- With fuel for the shorter string and its NUL byte, `strcmp` of two strings ends, and it returns 0
-- if the strings are the same, and 1 if not.
pub strcmp_lem :
    (len fuel : ℕ) (mem : Store ℕ) (str1 str2 len2 : ℕ)
    → IsCstring mem str1 len
    → IsCstring mem str2 len2
    → len < fuel
    → ((slice mem str1 len ≡ slice mem str2 len2) × (strcmp fuel mem str1 str2 ≡ some 0))
      ⊎ ((slice mem str1 len ≢ slice mem str2 len2) × (strcmp fuel mem str1 str2 ≡ some 1))
unfolding strcmp
strcmp_lem len zero mem str1 str2 len2 h k lt = absurd (omega (arith, lt))
strcmp_lem zero (suc fuel) mem str1 str2 zero h k lt = inl (refl, ground (arith, h, k))
strcmp_lem zero (suc fuel) mem str1 str2 (suc len2) h (ne, k) lt =
    inr (λ e. omega (arith, ap length e), ground (arith, h, ne))
strcmp_lem (suc len) (suc fuel) mem str1 str2 zero (ne, h) k lt =
    inr (λ e. omega (arith, ap length e), ground (arith, ne, k))
strcmp_lem (suc len) (suc fuel) mem str1 str2 (suc len2) (ne, h) (ne2, k) lt =
    elim (ℕ_discrete (mem str1) (mem str2)) [
      | no differ ↦ inr (λ e. differ (ap (λ l. get_or l 0 0) e), ground (arith, ne, differ))
      | yes same ↦ elim (strcmp_lem len fuel mem (str1 + 1) (str2 + 1) len2 h k (omega arith)) [
        | inl (e, r) ↦ inl (ap₂ ◌∷◌ same e, ground (arith, ne, same, r))
        | inr (ne', r) ↦ inr (λ e. ne' (ap (drop 1) e), ground (arith, ne, same, r))
      ]
    ]

IsCstring-update :
    (mem : Store ℕ) (str len k v : ℕ)
    → IsCstring mem str len
    → (k < str) ⊎ (str + len < k)
    → IsCstring (update mem k v) str len
IsCstring-update mem str zero k v h out = ground (arith, h, out)
IsCstring-update mem str (suc len) k v (ne, h) out = (
  λ e. ne (ground (arith, e, out)),
  IsCstring-update mem (str + 1) len k v h (omega (arith, out)),
)

strcpy_loop_ends :
    (len fuel : ℕ) (mem : Store ℕ) (dest src : ℕ)
    → IsCstring mem src len
    → (dest < src) ⊎ (src + len < dest)
    → len < fuel
    → strcpy_loop fuel mem dest src ≡ some (memcpy mem dest src (suc len), dest + len)
unfolding strcpy_loop memcpy
strcpy_loop_ends len zero mem dest src h out lt = absurd (omega (arith, lt))
strcpy_loop_ends zero (suc fuel) mem dest src h out lt =
    let z : dest ≡ dest + 0 = omega arith in
    let result : ℕ → ℕ → Option (Store ℕ × ℕ) = λ v k. some (update mem dest v, k) in
    ground (arith, h, ap₂ result (sym h) z)
strcpy_loop_ends (suc len) (suc fuel) mem dest src (ne, h) out lt =
    let mem' = update mem dest (mem src) in
    let at : dest + 1 + len ≡ dest + suc len = omega arith in
    let rest =
      strcpy_loop_ends len fuel mem' (dest + 1) (src + 1)
        (IsCstring-update mem (src + 1) len dest (mem src) h (omega (arith, out)))
        (omega (arith, out)) (omega arith) in
    ground (arith, ne, rest ∙ ap (λ k. some (memcpy mem' (dest + 1) (src + 1) (suc len), k)) at)

-- With fuel for the string and its NUL byte, `strcpy` to a place below the string or behind its
-- end copies the string with its NUL byte and returns the address of that byte.
pub strcpy_lem :
    (len fuel : ℕ) (mem : Store ℕ) (dest src : ℕ)
    → dest ≢ 0
    → src ≢ 0
    → IsCstring mem src len
    → (dest < src) ⊎ (src + len < dest)
    → len < fuel
    → strcpy fuel mem dest src ≡ some (memcpy mem dest src (suc len), dest + len)
unfolding strcpy
strcpy_lem len fuel mem dest src d s h out lt =
    ground (arith, strcpy_loop_ends len fuel mem dest src h out lt, d, s)

strncpy_loop_nul :
    (len : ℕ) (mem : Store ℕ) (dest src : ℕ)
    → ((i : ℕ) → i < len → mem (src + i) ≢ 0)
    → (src + len ≤ dest) ⊎ (dest + len < src)
    → strncpy_loop mem dest src len (dest + len) ≡ 0
unfolding strncpy_loop
strncpy_loop_nul zero mem dest src full apart = ground arith
strncpy_loop_nul (suc len) mem dest src full apart =
    let mem' = update mem dest (mem src) in
    let at : dest + suc len ≡ dest + 1 + len = omega arith in
    let first : mem src ≢ 0 = λ e. full 0 (omega arith) (ap mem (omega arith) ∙ e) in
    let still : (i : ℕ) → i < len → mem' (src + 1 + i) ≢ 0 = λ i lt e. full (suc i) (omega arith) (
      ap mem (omega arith)
      ∙ sym (update_ne mem dest (src + 1 + i) (mem src) (omega (arith, apart)))
      ∙ e) in
    let rest = strncpy_loop_nul len mem' (dest + 1) (src + 1) still (omega (arith, apart)) in
    ground (arith, first, ap (strncpy_loop mem' (dest + 1) (src + 1) len) at ∙ rest)

-- `strncpy` of a string of at least `len` bytes, `len` not 0 and the two apart, also stores a NUL
-- behind the `len` bytes that it copies, where a C library's `strncpy` stores nothing.
pub strncpy_overrun :
    (len : ℕ) (mem : Store ℕ) (dest src : ℕ)
    → dest ≢ 0
    → src ≢ 0
    → ((i : ℕ) → i < len → mem (src + i) ≢ 0)
    → (src + len ≤ dest) ⊎ (dest + len < src)
    → strncpy mem dest src len (dest + len) ≡ 0
unfolding strncpy
strncpy_overrun len mem dest src d s full apart =
    ground (arith, strncpy_loop_nul len mem dest src full apart, d, s)
