-- ===== src/Pipe/Fifo.antt =====
-- A pipe is first in, first out: a read takes the oldest bytes and a write adds at the end.
use fiwix_arm.Base.{
  Bool-cases, ap, ap₂, arith, inl, inr, refl, suc, sym, zero, ℕ, ◌%◌, ◌++◌, ◌+◌, ◌-◌, ◌<◌, ◌==◌,
  ◌∙◌, ◌≡◌, ◌≤◌, ◌⊎◌,
}
use fiwix_arm.Base.Store.{Store}
use fiwix_arm.Base.Slice.{slice}
use fiwix_arm.Pipe.Window.{
  slice-copy, window_agree, window_contiguous, window_split, window, contents,
}
use fiwix_arm.Pipe.{turned, copy, settle, pipe_buf, room, read_limit, Pipe}
use fiwix_arm.Pipe.Valid.{read_limit-le, room-le, advance, extend, IsValid}

window_none : (d : Store ℕ) (h k n : ℕ) → n ≡ 0 → window d h n ≡ window d k n
window_none d h k zero e = refl
window_none d h k (suc n) e = absurd (omega arith)

pub contents-settle : (p : Pipe) → contents (settle p) ≡ contents p
unfolding contents
contents-settle p = elim (Bool-cases (p.size == 0)) [
  | inl e ↦ rw e (window_none p.bytes (0 % pipe_buf) (p.readoff % pipe_buf) p.size (ground arith))
  | inr e ↦ rw e
]

-- Reading `n` bytes, no more than the limit of one turn, takes the first `n` of the contents, in
-- order, and leaves the rest.
pub contents-advance :
    (p : Pipe) (n : ℕ)
    → IsValid p
    → 0 < p.size
    → 0 < n
    → n ≤ read_limit p
    → contents p ≡ slice p.bytes p.readoff n ++ contents (settle (advance p n))
contents-advance p n v held pos le = rw (contents-settle (advance p n)) (unfold contents in whole)
  where
    bounds : (read_limit p ≤ p.size) × (p.readoff + read_limit p ≤ pipe_buf)
    bounds = read_limit-le p v held

    start : p.readoff % pipe_buf ≡ p.readoff
    start = omega (arith, bounds)

    parts : n + (p.size - n) ≡ p.size
    parts = omega (arith, bounds)

    whole :
        window p.bytes (p.readoff % pipe_buf) p.size
        ≡ slice p.bytes p.readoff n ++ window p.bytes ((p.readoff + n) % pipe_buf) (p.size - n)
    whole =
        ap₂ (λ h k. window p.bytes h k) start (sym parts)
        ∙ window_split p.bytes p.readoff n (p.size - n) ((p.readoff + n) % pipe_buf) refl
            (omega (arith, bounds))
        ∙ ap (λ t. t ++ window p.bytes ((p.readoff + n) % pipe_buf) (p.size - n))
            (window_contiguous p.bytes p.readoff n (omega (arith, bounds)))

-- A write does not touch the bytes that are held.
extend-spares :
    (p : Pipe) (n i : ℕ)
    → IsValid p
    → 0 < n
    → n ≤ room p
    → i < p.size
    → ((p.readoff % pipe_buf + i) % pipe_buf < p.writeoff)
      ⊎ (p.writeoff + n ≤ (p.readoff % pipe_buf + i) % pipe_buf)
extend-spares p n i v pos le lt = ground arith

-- Writing `n` bytes, no more than the room of one turn, adds them at the end of the contents.
pub contents-extend :
    (p : Pipe) (buffer : Store ℕ) (written n : ℕ)
    → IsValid p
    → 0 < n
    → n ≤ room p
    → contents (extend p buffer written n) ≡ contents p ++ slice buffer written n
contents-extend p buffer written n v pos le =
    unfold contents in
    (ap (λ h. window new h (p.size + n)) start
      ∙ window_split new (p.readoff % pipe_buf) p.size n p.writeoff finish (omega arith)
      ∙ ap₂ (λ s t. s ++ t)
          (window_agree new p.bytes (p.readoff % pipe_buf) p.size (omega arith) spared)
          (window_contiguous new p.writeoff n (omega (arith, bounds))
            ∙ slice-copy p.bytes p.writeoff buffer written n))
  where
    new : Store ℕ
    new = copy p.bytes p.writeoff buffer written n

    bounds : (room p ≤ pipe_buf - p.size) × (p.writeoff + room p ≤ pipe_buf)
    bounds = room-le p v

    start : turned p.readoff % pipe_buf ≡ p.readoff % pipe_buf
    start = ground (arith, v)

    finish : p.writeoff ≡ (p.readoff % pipe_buf + p.size) % pipe_buf
    finish = ground (arith, v, bounds)

    outside :
        (i : ℕ)
        → i < p.size
        → ((p.readoff % pipe_buf + i) % pipe_buf < p.writeoff)
          ⊎ (p.writeoff + n ≤ (p.readoff % pipe_buf + i) % pipe_buf)
    outside i lt = extend-spares p n i v pos le lt

    spared :
        (i : ℕ)
        → i < p.size
        → new ((p.readoff % pipe_buf + i) % pipe_buf)
          ≡ p.bytes ((p.readoff % pipe_buf + i) % pipe_buf)
    spared i lt = ground (arith, outside i lt)
