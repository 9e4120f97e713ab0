-- ===== src/Fd/Tests.antt =====
-- Runs of the calls on descriptors, and the theorems about them at a concrete process.
use fiwix_arm.Base.{[], arith, if◌then◌else◌, none, refl, some, true, ℕ, ◌==◌, ◌≡◌}
use fiwix_arm.Fd.{
  sys_close, open_max, mfile, fail, done, sys_dup2, sys_dup, Store, update, Fd, Files,
}
use fiwix_arm.Fd.Seek.{sys_lseek, sys_read, sys_write, seek_set, seek_end}
use fiwix_arm.Fd.Position.{sys_write-sys_read}
use fiwix_arm.Base.Errno.{Result, inval, badf}
use fiwix_arm.Process.{has_bits}
use fiwix_arm.Fd.Counts.{eq01, refs-none, refs-update, IsCounted, refs}
use fiwix_arm.Fd.Close.{Shut, sys_close-Shut}
use fiwix_arm.Fd.Keep.{Duped, sys_dup-Duped}
use fiwix_arm.Lock.{Flocks}
use native.Mathlib.Decide.{ℕ_discrete}

-- Descriptor 0 is entry 3, which another process has open too; descriptor 256 is past the array.
abbrev shared : Fd
shared = record { inode = 70; flags = 2; count = 2; offset = 0; private_data = 0 }

abbrev unused : Fd
unused = record { inode = 0; flags = 0; count = 0; offset = 0; private_data = 0 }

abbrev files : Files
files = record {
  fd_table = update (λ n. unused) 3 shared;
  fd = update (λ n. 0) 0 3;
  fd_flags = λ n. 0;
}

abbrev others : Store ℕ
others n = if 3 == n then 1 else 0

abbrev no_locks : Flocks
no_locks = record { flock_file_table = []; nr_flocks = 0 }

files-IsCounted : IsCounted others files
files-IsCounted n ne =
    let one = refs-update open_max (λ j. 0) 0 3 n (omega arith) in
    let empty = refs-none open_max n ne in
    let zero_now : eq01 0 n ≡ 0 = ground (arith, ne) in
    let counts : refs open_max files.fd n ≡ eq01 3 n = omega (arith, one, empty, zero_now) in
    elim (ℕ_discrete 3 n) [ yes e ↦ ground (arith, e, counts) | no d ↦ ground (arith, d, counts) ]

dup_example_run : (sys_dup 20 0 files).1 ≡ done 1
unfolding sys_dup fiwix_arm.Base.Search.first_index
dup_example_run = refl

-- Above the limit `dup2` closes the descriptor, and then fails.
abbrev limited : Files
limited = record files { fd = update files.fd 30 3 }

dup2_closes :
    let (c, r) = sys_dup2 (λ i. true) 9 20 0 30 limited no_locks in
    (r ≡ fail mfile) × (c.files.fd 30 ≡ 0)
unfolding sys_dup2 fiwix_arm.Base.Search.first_index
dup2_closes = (refl, refl)

-- Descriptor OPEN_MAX is not refused, and what is past the array is read: here it is not 0, so that
-- it is closed, which does nothing.
dup2_past_end : (sys_dup2 (λ i. true) 9 1000 0 256 files no_locks).1 ≡ fail mfile
unfolding sys_dup2 fiwix_arm.Base.Search.first_index
dup2_past_end = refl

sys_dup-Duped_example : Duped others 20 0 0 files (sys_dup 20 0 files)
sys_dup-Duped_example = sys_dup-Duped others 20 0 files files-IsCounted refl (omega arith)

sys_close-Shut_example :
    Shut others (λ i. true) 9 0 files no_locks (sys_close (λ i. true) 9 0 files no_locks)
sys_close-Shut_example =
    sys_close-Shut others (λ i. true) 9 0 files no_locks files-IsCounted refl (omega arith)

-- The file of descriptor 0 with other flags, and an operation that transfers all.
abbrev with_flags : ℕ → Files
with_flags flags = record files {
  fd_table = update files.fd_table 3 (record shared { flags = flags });
}

abbrev all_of : ℕ → ℕ → Files → Files × Result ℕ
all_of n count st = (st, done count)

-- A seek before the start is refused, one behind the end is not.
before_start :
    (sys_lseek (λ i. some (λ o. o)) (λ i. 100) 0 4294967295 seek_set files).1 ≡ fail inval
unfolding sys_lseek
before_start = refl

behind_end : (sys_lseek (λ i. some (λ o. o)) (λ i. 100) 0 5 seek_end files).1 ≡ done 105
unfolding sys_lseek
behind_end = refl

sys_write-sys_read_example :
    (sys_write (λ i. some all_of) 0 8 none (with_flags 0) ≡ (with_flags 0, done 8))
    × (sys_read (λ i. some all_of) 0 8 none (with_flags 0) ≡ (
        if has_bits ((with_flags 0).fd_table 3).flags 1
        then (with_flags 0, fail badf)
        else (with_flags 0, done 8)))
sys_write-sys_read_example =
    sys_write-sys_read all_of 0 8 (with_flags 0) refl (omega arith) (omega arith)
