-- ===== src/Lock/Tests.antt =====
-- Runs of the file locks, and the theorems about them at a concrete table.
use fiwix_arm.Base.{
  differs, [], ap, arith, false, inl, inr, none, refl, some, sym, true, ℕ, ◌+◌, ◌∙◌, ◌∷◌, ◌≡◌,
}
use fiwix_arm.Lock.{
  lock_ex, has_bits, again, fail, success, f_wrlck, lock_nb, f_setlkw, f_setlk, lock_sh, posix_lock,
  flock_inode, Flock, Flocks,
}
use fiwix_arm.Lock.Keep.{StaysExclusive, flock_inode-StaysExclusive}
use fiwix_arm.Lock.Exclusive.{IsExclusive}

abbrev entry : ℕ → ℕ → ℕ → Flock
entry i k p = record { inode = i; type = k; proc = p }

-- File 7 is locked by process 3, file 8 is shared by processes 3 and 4.
abbrev locks : Flocks
locks = record { flock_file_table = entry 7 2 3 ∷ entry 8 1 3 ∷ entry 8 1 4 ∷ []; nr_flocks = 3 }

blocked_now : flock_inode 4 true 7 (lock_sh + lock_nb) [] locks ≡ some (locks, fail again)
unfolding flock_inode
blocked_now = refl

blocked_sleeps : flock_inode 4 true 7 lock_sh [] locks ≡ none
unfolding flock_inode
blocked_sleeps = refl

-- F_SETLK sleeps, and F_SETLKW does not.
setlk_sleeps : posix_lock 4 true 7 f_setlk f_wrlck [] locks ≡ none
unfolding posix_lock
setlk_sleeps = refl

setlkw_returns : posix_lock 4 true 7 f_setlkw f_wrlck [] locks ≡ some (locks, fail again, none)
unfolding posix_lock
setlkw_returns = refl

-- Sharing a file twice makes two entries, of which one unlock removes one.
shared_twice :
    flock_inode 4 true 8 lock_sh [] locks
    ≡ some (
      record {
        flock_file_table = entry 7 2 3 ∷ entry 8 1 3 ∷ entry 8 1 4 ∷ entry 8 1 4 ∷ [];
        nr_flocks = 4;
      },
      success,
    )
unfolding flock_inode
shared_twice = refl

locks-IsExclusive : IsExclusive locks.flock_file_table
locks-IsExclusive f g (inl a) (inl b) same ex h = ap (λ (y : Flock). y.proc) (a ∙ sym b)
locks-IsExclusive f g (inl a) (inr (inl b)) same ex h =
    absurd (omega (arith, ap (λ (y : Flock). y.inode) a, ap (λ (y : Flock). y.inode) b, same))
locks-IsExclusive f g (inl a) (inr (inr (inl b))) same ex h =
    absurd (omega (arith, ap (λ (y : Flock). y.inode) a, ap (λ (y : Flock). y.inode) b, same))
locks-IsExclusive f g (inl a) (inr (inr (inr b))) same ex h = absurd b
locks-IsExclusive f g (inr (inr (inr a))) b same ex h = absurd a
locks-IsExclusive f g (inr (inl a)) b same ex h =
    absurd (differs ex (ap (λ (y : Flock). has_bits y.type lock_ex) a))
locks-IsExclusive f g (inr (inr (inl a))) b same ex h =
    absurd (differs ex (ap (λ (y : Flock). has_bits y.type lock_ex) a))

-- Process 3 takes the file that it shares with 4, which has let go of it while 3 slept.
abbrev let_go : Flocks
let_go = record { flock_file_table = entry 7 2 3 ∷ []; nr_flocks = 1 }

let_go-IsExclusive : IsExclusive let_go.flock_file_table
let_go-IsExclusive f g (inl a) (inl b) same ex h = ap (λ (y : Flock). y.proc) (a ∙ sym b)
let_go-IsExclusive f g (inl a) (inr b) same ex h = absurd b
let_go-IsExclusive f g (inr a) b same ex h = absurd a

flock_inode-StaysExclusive_example :
    StaysExclusive
      (flock_inode 3 true 8 lock_ex (record { is_signal = false; table = let_go } ∷ []) locks)
flock_inode-StaysExclusive_example =
    flock_inode-StaysExclusive 3 true 8 lock_ex (record { is_signal = false; table = let_go } ∷ [])
      locks (omega arith) locks-IsExclusive (let_go-IsExclusive, tt)
