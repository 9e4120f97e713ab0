-- ===== src/Fd/Position.antt =====
-- What lseek, read and write check.
use fiwix_arm.Base.{
  if-cases, Option, Option-elim, arith, bit_and, false, if◌then◌else◌, leb, none, not, not_le→leb,
  refl, some, ℕ, ◌<◌, ◌==◌, ◌^◌, ◌≡◌, ◌≤◌,
}
use fiwix_arm.Base.Bits.{bit_and-le_right}
use fiwix_arm.Base.Errno.{Errno, Result, fail, inval, badf, perm}
use fiwix_arm.Process.{has_bits}
use fiwix_arm.Fd.{Fd, Files, is_bad}
use fiwix_arm.Fd.Seek.{
  sys_lseek, sys_read, sys_write, o_rdonly, o_wronly, Whence, new_offset, at_offset,
}

-- Every position is that of an int that is not negative.
abbrev pub ArePositions : Files → Type 0
ArePositions st = (n : ℕ) → (st.fd_table n).offset < 2 ^ 31

-- What a lseek leaves: positions, and the same descriptors.
abbrev pub IsSought : Files → Files × Result ℕ → Type 0
IsSought st r = ArePositions r.0 × ((ufd : ℕ) → r.0.fd ufd ≡ st.fd ufd)

sys_lseek-IsSought :
    (llseek : ℕ → Option (ℕ → ℕ)) (i_size : ℕ → ℕ) (ufd offset : ℕ) (whence : Whence) (st : Files)
    → ArePositions st
    → IsSought st (sys_lseek llseek i_size ufd offset whence st)
unfolding sys_lseek at_offset
sys_lseek-IsSought llseek i_size ufd offset whence st ok =
    let kept : (e : Errno) → IsSought st (st, fail e) = λ e. (ok, λ ufd. refl) in
    let n = st.fd ufd in
    let file = st.fd_table n in
    if-cases (IsSought st) (is_bad st ufd) (λ e. kept badf)
      (λ e.
        Option-elim (IsSought st) (new_offset whence file.offset (i_size file.inode) offset)
          (kept inval)
          (λ o _.
            if-cases (IsSought st) (leb (2 ^ 31) o) (λ e. kept inval)
              (λ small. Option-elim (IsSought st) (llseek file.inode) (kept perm) (λ f _. (
                λ m.
                    if-cases (λ (x : Fd). x.offset < 2 ^ 31) (n == m) (λ e. not_leb o small)
                      (λ e. ok m),
                λ ufd. refl,
              )))))
  where
    not_leb : (o : ℕ) → leb (2 ^ 31) o ≡ false → o < 2 ^ 31
    not_leb o e = ground (arith, e)

nothing_refused : (n : ℕ) → has_bits n o_rdonly ≡ false
nothing_refused n = of (bit_and n 0) (bit_and-le_right n 0)
  where
    of : (m : ℕ) → m ≤ 0 → not (m == 0) ≡ false
    of m h = ground (arith, h)

is_zero : (n : ℕ) → 0 < n → (n == 0) ≡ false
is_zero n h = ground (arith, h)

-- On an open descriptor, with a good address and a count above 0, the test of read refuses a file that
-- is open for writing only; that of write refuses none, whatever the flags of the file are.
pub sys_write-sys_read :
    (op : ℕ → ℕ → Files → Files × Result ℕ) (ufd count : ℕ) (st : Files)
    → is_bad st ufd ≡ false
    → 0 < count
    → count < 2 ^ 31
    → let n = st.fd ufd in
      (sys_write (λ i. some op) ufd count none st ≡ op n count st)
      × (sys_read (λ i. some op) ufd count none st
          ≡ (if has_bits (st.fd_table n).flags o_wronly then (st, fail badf) else op n count st))
unfolding sys_write sys_read
sys_write-sys_read op ufd count st good positive small = (
  rw good (
      rw (nothing_refused (st.fd_table (st.fd ufd)).flags)
        (rw (is_zero count positive) (rw (not_le→leb (2 ^ 31) count small) refl))),
  rw good (rw (is_zero count positive) (rw (not_le→leb (2 ^ 31) count small) refl)),
)
