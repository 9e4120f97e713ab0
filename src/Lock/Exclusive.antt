-- ===== src/Lock/Exclusive.antt =====
-- No process holds a lock on a file that another process has locked exclusively.
use fiwix_arm.Base.{
  differs, inl, Bool, List, Option, [], arith, false, if-cases, inr, not, refl, some, sym, true, ℕ,
  ◌&&◌, ◌+◌, ◌==◌, ◌||◌, ◌∷◌, ◌≡◌, ◌≢◌, ◌⊎◌,
}
use fiwix_arm.Lock.{blocked, Scan, lock_ex, lock_sh, granted, has_bits, scan, Flock}
use mathlib.Core.Path.{subst}

abbrev pub IsIn : Flock → List Flock → Type 0
IsIn f [] = ⊥
IsIn f (g ∷ gs) = (f ≡ g) ⊎ IsIn f gs

-- An entry that is a lock; `flock` with neither LOCK_SH nor LOCK_EX makes others.
abbrev pub holds : Flock → Bool
holds f = has_bits f.type lock_sh || has_bits f.type lock_ex

-- Where one entry is an exclusive lock, the locks of its file are of its process.
abbrev pub IsExclusive : List Flock → Type 0
IsExclusive t =
    (f g : Flock)
    → IsIn f t
    → IsIn g t
    → f.inode ≡ g.inode
    → has_bits f.type lock_ex ≡ true
    → holds g ≡ true
    → f.proc ≡ g.proc

-- What the loop has seen when it grants the lock: an exclusive lock of the process itself; or no
-- lock of another process that excludes the new one.
abbrev pub Seen : ℕ → ℕ → ℕ → List Flock → Type 0
Seen current i op t =
    ((f : Flock) × IsIn f t × (f.inode ≡ i) × (f.proc ≡ current) × (has_bits f.type lock_ex ≡ true))
    ⊎ ((f : Flock)
        → IsIn f t
        → f.inode ≡ i
        → (has_bits op lock_sh ≡ true → has_bits f.type lock_ex ≡ false)
          × (has_bits op lock_ex ≡ true → f.proc ≡ current))

Seen-skip :
    (current i op : ℕ) (ff : Flock) (rest : List Flock)
    → (ff.inode ≡ i
        → (has_bits op lock_sh ≡ true → has_bits ff.type lock_ex ≡ false)
          × (has_bits op lock_ex ≡ true → ff.proc ≡ current))
    → Seen current i op rest
    → Seen current i op (ff ∷ rest)
Seen-skip current i op ff rest h (inl (f, is, a, b, c)) = inl (f, inr is, a, b, c)
Seen-skip current i op ff rest h (inr k) = inr λ f is e. elim is [
  | inl same ↦
      subst
        (λ (g : Flock).
          g.inode ≡ i
          → (has_bits op lock_sh ≡ true → has_bits g.type lock_ex ≡ false)
            × (has_bits op lock_ex ≡ true → g.proc ≡ current))
        (sym same) h e
  | inr later ↦ k f later e
]

pub scan-Seen :
    (current i op k : ℕ) (new new' : Option ℕ) (t : List Flock)
    → scan current i op k new t ≡ granted new'
    → Seen current i op t
unfolding scan
scan-Seen current i op k new new' [] e = inr λ f is. absurd is
scan-Seen current i op k new new' (ff ∷ rest) e =
    if-cases P (not (ff.inode == i))
      (λ no e. skip (λ q. absurd (other no q)) (scan-Seen current i op (k + 1) new new' rest e))
      (λ yes.
        if-cases P (has_bits op lock_sh && has_bits ff.type lock_ex)
          (λ both.
            if-cases P (ff.proc == current)
              (λ own e. inl (ff, inl refl, same_inode yes, same_proc own, both_ex both))
              (λ no e. absurd (blocked_lem new' e)))
          (λ not_both.
            if-cases P (has_bits op lock_ex)
              (λ ex.
                if-cases P (ff.proc == current)
                  (λ own e.
                    skip (λ q. (no_ex not_both, λ x. same_proc own))
                      (scan-Seen current i op (k + 1) (some k) new' rest e))
                  (λ no e. absurd (blocked_lem new' e)))
              (λ no e.
                skip (λ q. (no_ex not_both, λ x. absurd (differs x no)))
                  (scan-Seen current i op (k + 1) new new' rest e))))
      e
  where
    P : Scan → Type 0
    P r = r ≡ granted new' → Seen current i op (ff ∷ rest)

    skip :
        (ff.inode ≡ i
          → (has_bits op lock_sh ≡ true → has_bits ff.type lock_ex ≡ false)
            × (has_bits op lock_ex ≡ true → ff.proc ≡ current))
        → Seen current i op rest
        → Seen current i op (ff ∷ rest)
    skip = Seen-skip current i op ff rest

    other : not (ff.inode == i) ≡ true → ff.inode ≢ i
    other e q = ground (arith, e, q)

    same_inode : not (ff.inode == i) ≡ false → ff.inode ≡ i
    same_inode e = ground (arith, e)

    same_proc : (ff.proc == current) ≡ true → ff.proc ≡ current
    same_proc e = ground (arith, e)

    both_ex :
        (has_bits op lock_sh && has_bits ff.type lock_ex) ≡ true → has_bits ff.type lock_ex ≡ true
    both_ex e = ground (arith, e)

    no_ex :
        (has_bits op lock_sh && has_bits ff.type lock_ex) ≡ false
        → has_bits op lock_sh ≡ true
        → has_bits ff.type lock_ex ≡ false
    no_ex e h = ground (arith, e, h)

    blocked_lem : (n : Option ℕ) → blocked ≡ granted n → ⊥
    blocked_lem n e = ground (arith, e)
