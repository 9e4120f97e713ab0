-- ===== src/Pipe/Window.antt =====
-- The bytes of a pipe in the order in which they were written.
use fiwix_arm.Base.{
  List, [], ap, ap₂, arith, length, refl, suc, zero, ℕ, ◌%◌, ◌++◌, ◌+◌, ◌-◌, ◌<◌, ◌∙◌, ◌∷◌, ◌≡◌,
  ◌≤◌,
}
use fiwix_arm.Base.Store.{Store}
use fiwix_arm.Base.Slice.{slice, slice_agree}
use fiwix_arm.Pipe.{copy, pipe_buf, Pipe}
use native.Mathlib.Nat.{suc-add, zero-add}

-- `n` bytes of the buffer from offset `h` on, going round at its end
abbrev pub window : Store ℕ → ℕ → ℕ → List ℕ
window d h zero = []
window d h (suc n) = d h ∷ window d ((h + 1) % pipe_buf) n

unfoldable pub contents : Pipe → List ℕ
contents p = window p.bytes (p.readoff % pipe_buf) p.size

pub length-window : (d : Store ℕ) (h n : ℕ) → length (window d h n) ≡ n
length-window d h zero = refl
length-window d h (suc n) = ap suc (length-window d ((h + 1) % pipe_buf) n)

pub window_split :
    (d : Store ℕ) (h a b k : ℕ)
    → k ≡ (h + a) % pipe_buf
    → h < pipe_buf
    → window d h (a + b) ≡ window d h a ++ window d k b
window_split d h zero b k e lt = let e' : k ≡ h = omega arith in rw (e', zero-add) refl
window_split d h (suc a) b k e lt =
    rw suc-add
      (ap (λ t. d h ∷ t) (window_split d ((h + 1) % pipe_buf) a b k (omega arith) (omega arith)))

pub window_contiguous : (d : Store ℕ) (h n : ℕ) → h + n ≤ pipe_buf → window d h n ≡ slice d h n
window_contiguous d h zero fits = refl
window_contiguous d h (suc zero) fits = refl
window_contiguous d h (suc (suc n)) fits =
    let e : (h + 1) % pipe_buf ≡ h + 1 = omega arith in
    ap (λ t. d h ∷ t)
      (ap (λ t. window d t (suc n)) e ∙ window_contiguous d (h + 1) (suc n) (omega arith))

pub window_agree :
    (d e : Store ℕ) (h n : ℕ)
    → h < pipe_buf
    → ((i : ℕ) → i < n → d ((h + i) % pipe_buf) ≡ e ((h + i) % pipe_buf))
    → window d h n ≡ window e h n
window_agree d e h zero lt same = refl
window_agree d e h (suc n) lt same =
    ap₂ ◌∷◌ first (window_agree d e ((h + 1) % pipe_buf) n (omega arith) rest)
  where
    at_start : (h + 0) % pipe_buf ≡ h
    at_start = omega arith

    first : d h ≡ e h
    first = rw (← at_start) (same 0 (omega arith))

    shift : (i : ℕ) → ((h + 1) % pipe_buf + i) % pipe_buf ≡ (h + suc i) % pipe_buf
    shift i = omega arith

    rest :
        (i : ℕ)
        → i < n
        → d (((h + 1) % pipe_buf + i) % pipe_buf) ≡ e (((h + 1) % pipe_buf + i) % pipe_buf)
    rest i lt' = rw (shift i) (same (suc i) (omega arith))

-- What `memcpy_b` copies arrives where it was sent.
pub slice-copy :
    (dest : Store ℕ) (at : ℕ) (src : Store ℕ) (from n : ℕ)
    → slice (copy dest at src from n) at n ≡ slice src from n
slice-copy dest at src from n =
    slice_agree (copy dest at src from n) src at from n (λ i lt. ground (arith, ap src (back i)))
  where
    back : (i : ℕ) → from + (at + i - at) ≡ from + i
    back i = omega arith
