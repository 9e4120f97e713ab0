-- ===== src/Fd/Close.antt =====
-- Closing a descriptor.
use fiwix_arm.Base.{
  differs, ap, Bool, arith, false, if-cases, inl, inr, none, not, refl, some, sym, true, ℕ, ◌+◌,
  ◌-◌, ◌<◌, ◌==◌, ◌^◌, ◌∙◌, ◌≡◌, ◌≢◌, ◌⊎◌,
}
use fiwix_arm.Base.Store.{Store, update, update_self, update_ne}
use fiwix_arm.Fd.{
  inval, fail, flock_release_inode, Fd, success, is_bad, Status, release_user_fd, Closed, open_max,
  u16, sys_close, release_fd, Files,
}
use fiwix_arm.Fd.Counts.{refs-update, eq01, IsCounted, refs}
use fiwix_arm.Fd.Keep.{not_bad}
use fiwix_arm.Lock.{Flocks}
use native.Mathlib.Decide.{ℕ_discrete}

-- The files when descriptor `ufd` has been given back and its entry counted down.
abbrev lessened : Files → ℕ → Files
lessened st ufd =
    let n = st.fd ufd in
    let file = st.fd_table n in
    record st {
      fd = update st.fd ufd 0;
      fd_table = update st.fd_table n (record file { count = u16 (file.count + 2 ^ 16 - 1) });
    }

-- One reference to its entry less, which has at least one.
refs-closed :
    (fd : Store ℕ) (ufd k : ℕ)
    → ufd < open_max
    → k ≢ 0
    → refs open_max (update fd ufd 0) k + eq01 (fd ufd) k ≡ refs open_max fd k
refs-closed fd ufd k lt ne =
    let e = refs-update open_max fd ufd 0 k lt in
    let z : eq01 0 k ≡ 0 = ground (arith, ne) in omega (arith, e, z)

IsCounted-lessened :
    (others : Store ℕ) (ufd : ℕ) (st : Files)
    → IsCounted others st
    → ufd < open_max
    → (st.fd_table (st.fd ufd)).count < 2 ^ 16
    → IsCounted others (lessened st ufd)
IsCounted-lessened others ufd st counted lt fits k ne =
    let n = st.fd ufd in
    let fewer = refs-closed st.fd ufd k lt ne in
    let file = st.fd_table n in
    let file' = record file { count = u16 (file.count + 2 ^ 16 - 1) } in
    elim (ℕ_discrete n k) [
      | yes e ↦
          let count : (update st.fd_table n file' k).count ≡ u16 (file.count + 2 ^ 16 - 1) =
            ap (λ x. (update st.fd_table n file' x).count) (sym e)
            ∙ ap (λ (y : Fd). y.count) (update_self st.fd_table n file') in
          let one : eq01 n k ≡ 1 = ground (arith, e) in
          let was : file.count ≡ others k + refs open_max st.fd k =
            ap (λ x. (st.fd_table x).count) e ∙ counted k ne in
          count ∙ omega (arith, fewer, one, was, fits)
      | no d ↦
          let count : (update st.fd_table n file' k).count ≡ (st.fd_table k).count =
            ap (λ (y : Fd). y.count) (update_ne st.fd_table n k file' d) in
          let none_less : eq01 n k ≡ 0 = ground (arith, d) in
          count ∙ omega (arith, fewer, none_less, counted k ne)
    ]

IsCounted-release_fd :
    (others : Store ℕ) (n : ℕ) (st : Files)
    → IsCounted others st
    → (st.fd_table n).count ≡ 0
    → IsCounted others (release_fd n st)
unfolding release_fd
IsCounted-release_fd others n st counted z k ne =
    let file' = record (st.fd_table n) { count = 0 } in
    elim (ℕ_discrete n k) [
      | yes e ↦
          ap (λ x. (update st.fd_table n file' x).count) (sym e)
          ∙ ap (λ (y : Fd). y.count) (update_self st.fd_table n file')
          ∙ sym z
          ∙ ap (λ x. (st.fd_table x).count) e
          ∙ counted k ne
      | no d ↦ ap (λ (y : Fd). y.count) (update_ne st.fd_table n k file' d) ∙ counted k ne
    ]

-- What a close leaves. The counts are right, and no other descriptor has changed. With another
-- reference left, nothing else happens. With the last one the locks of the process on the file are
-- released, and the file is closed and its inode put, unless it has no `close`: then the call fails.
abbrev pub Shut : Store ℕ → (ℕ → Bool) → ℕ → ℕ → Files → Flocks → Closed × Status → Type 0
Shut others has_close current ufd st t (c, s) =
    let file = st.fd_table (st.fd ufd) in
    IsCounted others c.files
    × (c.files.fd ufd ≡ 0)
    × ((j : ℕ) → ufd ≢ j → c.files.fd j ≡ st.fd j)
    × (((1 < file.count) × (c.locks ≡ t) × (c.put ≡ none) × (s ≡ success))
        ⊎ ((file.count ≡ 1)
            × (c.locks ≡ flock_release_inode file.inode current t)
            × (((has_close file.inode ≡ true) × (c.put ≡ some file.inode) × (s ≡ success))
                ⊎ ((has_close file.inode ≡ false) × (c.put ≡ none) × (s ≡ fail inval)))))

-- `close` of a descriptor that is open, where the references of the process and of the others are
-- counted right and the count of the open file fits in 16 bits: the descriptor is free, no other
-- descriptor has changed, and the counts are right again. With another reference left the call
-- returns 0, and the locks stay. With the last one the locks of the process on the file are released,
-- and the file is closed and its inode put, or, where the inode has no `close`, the call fails.
pub sys_close-Shut :
    (others : Store ℕ) (has_close : ℕ → Bool) (current ufd : ℕ) (st : Files) (t : Flocks)
    → IsCounted others st
    → is_bad st ufd ≡ false
    → (st.fd_table (st.fd ufd)).count < 2 ^ 16
    → Shut others has_close current ufd st t (sys_close has_close current ufd st t)
unfolding sys_close release_user_fd
sys_close-Shut others has_close current ufd st t counted good fits =
    let n = st.fd ufd in
    let file = st.fd_table n in
    let (lt, in_use) = not_bad st ufd good in
    let less = IsCounted-lessened others ufd st counted lt fits in
    let one : eq01 n n ≡ 1 = ground arith in
    let some_ref : 0 < file.count =
      omega (arith, counted n in_use, refs-closed st.fd ufd n lt in_use, one) in
    let zeroed = update_self st.fd ufd 0 in
    let rest : (j : ℕ) → ufd ≢ j → update st.fd ufd 0 j ≡ st.fd j =
      λ j ne. update_ne st.fd ufd j 0 ne in
    let count : ℕ = u16 (file.count + 2 ^ 16 - 1) in
    let P : Closed × Status → Type 0 = Shut others has_close current ufd st t in
    if-cases P (is_bad st ufd) (λ bad. absurd (differs bad good))
      (λ ok.
        if-cases P (not (count == 0))
          (λ e. (
            less,
            zeroed,
            rest,
            inl (omega (arith, not_zero count e, some_ref, fits), refl, refl, refl),
          ))
          (λ e.
            let z : count ≡ 0 = is_zero count e in
            let last : file.count ≡ 1 = omega (arith, z, some_ref, fits) in
            let at_n : ((lessened st ufd).fd_table n).count ≡ 0 =
              ap (λ (y : Fd). y.count) (update_self st.fd_table n (record file { count = count }))
              ∙ z in
            if-cases P (has_close file.inode)
              (λ h. (
                IsCounted-release_fd others n (lessened st ufd) less at_n,
                zeroed,
                rest,
                inr (last, refl, inl (h, refl, refl)),
              ))
              (λ h. (less, zeroed, rest, inr (last, refl, inr (h, refl, refl))))))
  where
    not_zero : (c : ℕ) → not (c == 0) ≡ true → 0 < c
    not_zero c e = ground (arith, e)

    is_zero : (c : ℕ) → not (c == 0) ≡ false → c ≡ 0
    is_zero c e = ground (arith, e)
