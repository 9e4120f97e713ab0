-- ===== src/Strings.antt =====
-- lib/strings.c: the byte and string routines, on memory as a function from addresses to bytes.
-- Each loop that ends at a NUL byte runs on fuel, one unit for each byte; `none` means that the fuel
-- ran out. An address is not 0 unless it is NULL.
pub mod Cstring
pub mod Copies
mod Tests
use fiwix_arm.Base.{
  Bool, Option, if◌then◌else◌, ltb, none, not, some, suc, zero, ℕ, ◌&&◌, ◌+◌, ◌-◌, ◌==◌, ◌||◌,
}
use fiwix_arm.Base.Store.{update, Store}

infixl 5 ◌>>=◌
abbrev pub ◌>>=◌ : {A B : Type 0} → Option A → (A → Option B) → Option B
o >>= f = elim o [ none ↦ none | some a ↦ f a ]

-- `strlen`, with `n` counted so far; NULL has length 0.
pub strlen_loop : ℕ → Store ℕ → ℕ → ℕ → Option ℕ
strlen_loop zero mem str n = none
strlen_loop (suc fuel) mem str n =
    let rest = strlen_loop fuel mem (str + 1) (n + 1) in if mem str == 0 then some n else rest

pub strlen : ℕ → Store ℕ → ℕ → Option ℕ
unfolding strlen_loop
strlen fuel mem str = let n = strlen_loop fuel mem str 0 in if str == 0 then some 0 else n

pub strcmp : ℕ → Store ℕ → ℕ → ℕ → Option ℕ
strcmp zero mem str1 str2 = none
strcmp (suc fuel) mem str1 str2 =
    let rest = strcmp fuel mem (str1 + 1) (str2 + 1) in
    if not (mem str1 == 0)
    then (if not (mem str1 == mem str2) then some 1 else rest)
    else if mem str2 == 0
    then some 0
    else some 1

-- `n` counts down to 0; a negative one is 0 here.
pub strncmp : Store ℕ → ℕ → ℕ → ℕ → ℕ
strncmp mem str1 str2 zero = 0
strncmp mem str1 str2 (suc n) =
    let rest = strncmp mem (str1 + 1) (str2 + 1) n in if not (mem str1 == mem str2) then 1 else rest

-- The loop of `strcpy`, with the store of the NUL byte behind it and the address of that byte.
pub strcpy_loop : ℕ → Store ℕ → ℕ → ℕ → Option (Store ℕ × ℕ)
strcpy_loop zero mem dest src = none
strcpy_loop (suc fuel) mem dest src =
    let rest = strcpy_loop fuel (update mem dest (mem src)) (dest + 1) (src + 1) in
    if not (mem src == 0) then rest else some (update mem dest 0, dest)

-- `strcpy` returns the address of the NUL byte, or NULL.
pub strcpy : ℕ → Store ℕ → ℕ → ℕ → Option (Store ℕ × ℕ)
unfolding strcpy_loop
strcpy fuel mem dest src =
    let copied = strcpy_loop fuel mem dest src in
    if dest == 0 || (src == 0) then some (mem, 0) else copied

-- The loop of `strncpy` and `strncat`, with the store of the NUL byte behind it.
pub strncpy_loop : Store ℕ → ℕ → ℕ → ℕ → Store ℕ
strncpy_loop mem dest src zero = update mem dest 0
strncpy_loop mem dest src (suc len) =
    let rest = strncpy_loop (update mem dest (mem src)) (dest + 1) (src + 1) len in
    if not (mem src == 0) then rest else update mem dest 0

pub strncpy : Store ℕ → ℕ → ℕ → ℕ → Store ℕ
unfolding strncpy_loop
strncpy mem dest src len =
    let copied = strncpy_loop mem dest src len in if dest == 0 || (src == 0) then mem else copied

-- The address of the NUL byte of a string.
pub end_of : ℕ → Store ℕ → ℕ → Option ℕ
end_of zero mem str = none
end_of (suc fuel) mem str =
    let rest = end_of fuel mem (str + 1) in if mem str == 0 then some str else rest

-- `strcat` and `strncat` return `dest`.
pub strcat : ℕ → Store ℕ → ℕ → ℕ → Option (Store ℕ × ℕ)
unfolding end_of strcpy_loop
strcat fuel mem dest src = do
  at ← end_of fuel mem dest
  copied ← strcpy_loop fuel mem at src
  some (copied.0, dest)

pub strncat : ℕ → Store ℕ → ℕ → ℕ → ℕ → Option (Store ℕ × ℕ)
unfolding end_of strncpy_loop
strncat fuel mem dest src len = do
  at ← end_of fuel mem dest
  some (strncpy_loop mem at src len, dest)

-- `is_dir`: whether the last byte before the NUL is a slash; byte 0 is not looked at as an end.
pub is_dir : ℕ → Store ℕ → ℕ → Option Bool
is_dir zero mem path = none
is_dir (suc fuel) mem path =
    let rest = is_dir fuel mem (path + 1) in
    if not (mem (path + 1) == 0) then rest else some (mem path == 47)

-- `remove_trailing_slash` from address `p` down to `path`
pub strip_loop : ℕ → Store ℕ → ℕ → Store ℕ
strip_loop path mem zero = mem
strip_loop path mem (suc p) =
    let rest = strip_loop path (update mem (suc p) 0) p in
    if ltb path (suc p) && (mem (suc p) == 47) then rest else mem

pub remove_trailing_slash : ℕ → Store ℕ → ℕ → Option (Store ℕ)
unfolding strlen strip_loop
remove_trailing_slash fuel mem path = do
  len ← strlen fuel mem path
  some (strip_loop path mem (path + len - 1))

-- `memcpy_b`, `memcpy_w` and `memcpy_l` differ in the width of a cell.
pub memcpy : Store ℕ → ℕ → ℕ → ℕ → Store ℕ
memcpy mem dest src zero = mem
memcpy mem dest src (suc count) = memcpy (update mem dest (mem src)) (dest + 1) (src + 1) count

-- `memset_b`, `memset_w` and `memset_l`
pub memset : Store ℕ → ℕ → ℕ → ℕ → Store ℕ
memset mem dest value zero = mem
memset mem dest value (suc count) = memset (update mem dest value) (dest + 1) value count

-- The loop of `memmove` that goes down.
pub copy_down : Store ℕ → ℕ → ℕ → ℕ → Store ℕ
copy_down mem dest src zero = mem
copy_down mem dest src (suc count) =
    copy_down (update mem (dest + count) (mem (src + count))) dest src count

pub memmove : Store ℕ → ℕ → ℕ → ℕ → Store ℕ
unfolding memcpy copy_down
memmove mem dest src count =
    let up = memcpy mem dest src count in
    let down = copy_down mem dest src count in if ltb dest src then up else down
