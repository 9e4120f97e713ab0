-- ===== src/Fd/Keep.antt =====
-- The calls on descriptors keep the counts of open files right.
use fiwix_arm.Base.{
  Bool, Option, ap, arith, false, inl, inr, min, none, refl, some, sym, ℕ, ◌+◌, ◌-◌, ◌<◌, ◌==◌, ◌^◌,
  ◌∙◌, ◌≡◌, ◌≢◌, ◌≤◌, ◌⊎◌,
}
use fiwix_arm.Base.Store.{update, Store, update_self, update_ne}
use fiwix_arm.Base.Search.{first_index, Found, first_index-Found}
use fiwix_arm.Fd.{
  sys_dup, is_bad, Fd, mfile, fail, u16, done, fd_taken, get_new_user_fd, Result, open_max,
  dup_from, fill, Files,
}
use fiwix_arm.Fd.Counts.{refs-update, eq01, IsCounted, refs}
use native.Mathlib.Decide.{ℕ_discrete}
use mathlib.Core.Path.{subst}

-- A descriptor that is free becomes one more reference to entry `n`.
refs-filled :
    (fd : Store ℕ) (m n k : ℕ)
    → m < open_max
    → fd m ≡ 0
    → k ≢ 0
    → refs open_max (update (update fd m fd_taken) m n) k ≡ refs open_max fd k + eq01 n k
refs-filled fd m n k lt free ne =
    let fd' = update fd m fd_taken in
    let second = refs-update open_max fd' m n k lt in
    let first = refs-update open_max fd m fd_taken k lt in
    let taken : eq01 (fd' m) k ≡ eq01 fd_taken k = ap (λ x. eq01 x k) (update_self fd m fd_taken) in
    let none_now : eq01 (fd m) k ≡ 0 = ap (λ x. eq01 x k) free ∙ ground (arith, ne) in
    omega (arith, second, first, taken, none_now)

-- What a duplicate leaves: the lowest free descriptor from `start` on is the same open file, whose
-- count is right; or there is none below the limit, and nothing has changed.
abbrev pub Duped : Store ℕ → ℕ → ℕ → ℕ → Files → Files × Result ℕ → Type 0
Duped others limit start ufd st (st', r) =
    ((m : ℕ) × (r ≡ done m)
      × (start ≤ m)
      × (m < min open_max limit)
      × (st.fd m ≡ 0)
      × ((j : ℕ) → start ≤ j → j < m → st.fd j ≢ 0)
      × (st'.fd m ≡ st.fd ufd)
      × ((j : ℕ) → m ≢ j → st'.fd j ≡ st.fd j)
      × IsCounted others st')
    ⊎ ((r ≡ fail mfile) × (st' ≡ st) × ((j : ℕ) → start ≤ j → j < min open_max limit → st.fd j ≢ 0))

-- The files when descriptor `m` has been filled with entry `n`.
abbrev filled : Files → Store ℕ → ℕ → ℕ → Files
filled st flags m n =
    let file = st.fd_table n in
    record {
      fd_table = update st.fd_table n (record file { count = u16 (file.count + 1) });
      fd = update (update st.fd m fd_taken) m n;
      fd_flags = flags;
    }

IsCounted-filled :
    (others : Store ℕ) (m n : ℕ) (st : Files) (flags : Store ℕ)
    → IsCounted others st
    → m < open_max
    → st.fd m ≡ 0
    → (st.fd_table n).count + 1 < 2 ^ 16
    → IsCounted others (filled st flags m n)
IsCounted-filled others m n st flags counted lt free fits k ne =
    let more = refs-filled st.fd m n k lt free ne in
    let file = st.fd_table n in
    let file' = record file { count = u16 (file.count + 1) } in
    elim (ℕ_discrete n k) [
      | yes e ↦
          let count : (update st.fd_table n file' k).count ≡ u16 (file.count + 1) =
            ap (λ x. (update st.fd_table n file' x).count) (sym e)
            ∙ ap (λ (y : Fd). y.count) (update_self st.fd_table n file') in
          let one : eq01 n k ≡ 1 = ground (arith, e) in
          let was : file.count ≡ others k + refs open_max st.fd k =
            ap (λ x. (st.fd_table x).count) e ∙ counted k ne in
          count ∙ omega (arith, more, one, was, fits)
      | no d ↦
          let count : (update st.fd_table n file' k).count ≡ (st.fd_table k).count =
            ap (λ (y : Fd). y.count) (update_ne st.fd_table n k file' d) in
          let none_more : eq01 n k ≡ 0 = ground (arith, d) in
          count ∙ omega (arith, more, none_more, counted k ne)
    ]

fill_lem :
    (ufd m : ℕ) (st : Files) (flags : Store ℕ)
    → m ≢ ufd
    → fill ufd m (record st { fd = update st.fd m fd_taken; fd_flags = flags })
      ≡ filled st flags m (st.fd ufd)
unfolding fill
fill_lem ufd m st flags ne = ap (filled st flags m) (update_ne st.fd m ufd fd_taken ne)

-- What CHECK_UFD lets through
pub not_bad : (st : Files) (ufd : ℕ) → is_bad st ufd ≡ false → (ufd < open_max) × (st.fd ufd ≢ 0)
not_bad st ufd e = (ground (arith, e), λ q. absurd (in_use e q))
  where
    in_use : is_bad st ufd ≡ false → st.fd ufd ≢ 0
    in_use e q = ground (arith, e, q)

pub dup_from-Duped :
    (others : Store ℕ) (limit start ufd : ℕ) (st : Files)
    → IsCounted others st
    → st.fd ufd ≢ 0
    → (st.fd_table (st.fd ufd)).count + 1 < 2 ^ 16
    → start ≤ min open_max limit
    → Duped others limit start ufd st (dup_from limit start ufd st)
unfolding dup_from get_new_user_fd
dup_from-Duped others limit start ufd st counted used fits le =
    at_free (first_index test start 1 k) (first_index-Found test start k)
  where
    test : ℕ → Bool
    test n = st.fd n == 0

    k : ℕ
    k = min open_max limit - start

    at_free :
        (o : Option ℕ)
        → Found test start k o
        → let md : Option (ℕ × Files) = elim o [
          | none ↦ none
          | some n ↦
              some
                (n, record st { fd = update st.fd n fd_taken; fd_flags = update st.fd_flags n 0 })
        ] in
          let r : Files × Result ℕ = elim md [
            | none ↦ (st, fail mfile)
            | some (n, st') ↦ (fill ufd n st', done n)
          ] in
          Duped others limit start ufd st r
    at_free none f = inr (refl, refl, λ j lo hi. in_use j (f j lo (omega (arith, hi, le))))
      where
        in_use : (j : ℕ) → test j ≡ false → st.fd j ≢ 0
        in_use j e q = ground (arith, e, q)
    at_free (some m) (is, lo, hi, before) =
        let free : st.fd m ≡ 0 = ground (arith, is) in
        let other : m ≢ ufd = λ e. used (ap st.fd (sym e) ∙ free) in
        let n = st.fd ufd in
        let flags = update st.fd_flags m 0 in
        let in_use : (j : ℕ) → test j ≡ false → st.fd j ≢ 0 =
          λ j e q. absurd (omega (arith, not_zero j e, q)) in
        let lt : m < min open_max limit = omega (arith, hi, le) in
        let others_same : (j : ℕ) → m ≢ j → (filled st flags m n).fd j ≡ st.fd j =
          λ j ne. update_ne (update st.fd m fd_taken) m j n ne ∙ update_ne st.fd m j fd_taken ne in
        subst (λ (f : Files). Duped others limit start ufd st (f, done m))
          (sym (fill_lem ufd m st flags other))
          (inl (
            m,
            refl,
            lo,
            lt,
            free,
            λ j a b. in_use j (before j a b),
            update_self (update st.fd m fd_taken) m n,
            others_same,
            IsCounted-filled others m n st flags counted (omega (arith, lt)) free fits,
          ))
      where
        not_zero : (j : ℕ) → test j ≡ false → 0 < st.fd j
        not_zero j e = ground (arith, e)

-- `dup` of an open descriptor: it takes the lowest free one, which is then the same open file, and
-- the counts stay right; or it returns EMFILE where none is free below the limit, and changes nothing.
pub sys_dup-Duped :
    (others : Store ℕ) (limit ufd : ℕ) (st : Files)
    → IsCounted others st
    → is_bad st ufd ≡ false
    → (st.fd_table (st.fd ufd)).count + 1 < 2 ^ 16
    → Duped others limit 0 ufd st (sys_dup limit ufd st)
unfolding sys_dup
sys_dup-Duped others limit ufd st counted good fits =
    rw good
      (dup_from-Duped others limit 0 ufd st counted (not_bad st ufd good).1 fits (omega arith))
