-- ===== src/Fd/Seek.antt =====
-- kernel/syscalls/lseek.c, read.c and write.c: the position of an open file, and the way to the
-- operations of its inode, which are arguments. An int is its 32-bit pattern.
use fiwix_arm.Base.{Option, if◌then◌else◌, leb, none, some, ℕ, ◌+◌, ◌==◌, ◌^◌}
use fiwix_arm.Base.Store.{update}
use fiwix_arm.Base.Bits.{u32}
use fiwix_arm.Base.Errno.{Errno, Result, fail, done, inval, badf, perm}
use fiwix_arm.Process.{has_bits}
use fiwix_arm.Fd.{Files, is_bad}

pub data Whence : Type 0 where
  seek_set seek_cur seek_end other : Whence

unfoldable pub new_offset : Whence → ℕ → ℕ → ℕ → Option ℕ
new_offset seek_set at size offset = some offset
new_offset seek_cur at size offset = some (u32 (at + offset))
new_offset seek_end at size offset = some (u32 (size + offset))
new_offset other at size offset = none

-- `at_offset` stores the position in the open file.
unfoldable pub at_offset : Files → ℕ → ℕ → Files
at_offset st n offset = record st {
  fd_table = update st.fd_table n (record (st.fd_table n) { offset = offset });
}

-- `llseek` is the operation of the inode, if it has one, which answers with a position; `i_size` is
-- the size of each inode.
unfoldable pub sys_lseek :
    (ℕ → Option (ℕ → ℕ)) → (ℕ → ℕ) → ℕ → ℕ → Whence → Files → Files × Result ℕ
unfolding new_offset at_offset
sys_lseek llseek i_size ufd offset whence st =
    let n = st.fd ufd in
    let file = st.fd_table n in
    let sought : ℕ → Files × Result ℕ = λ o. elim (llseek file.inode) [
      | none ↦ (st, fail perm)
      | some f ↦ (at_offset st n o, done (u32 (f o)))
    ] in
    let moved : Files × Result ℕ = elim (new_offset whence file.offset (i_size file.inode) offset) [
      | none ↦ (st, fail inval)
      | some o ↦ if leb (2 ^ 31) o then (st, fail inval) else sought o
    ] in
    if is_bad st ufd then (st, fail badf) else moved

abbrev pub o_rdonly : ℕ
o_rdonly = 0

abbrev pub o_wronly : ℕ
o_wronly = 1

-- `read` or `write` of an inode, if it has one: it takes the open file and the count.
abbrev pub Operation : Type 0
Operation = ℕ → Option (ℕ → ℕ → Files → Files × Result ℕ)

-- `area` is what `check_user_area` answers; `refused` is the flag that forbids the call.
unfoldable pub transfer : ℕ → Operation → ℕ → ℕ → Option Errno → Files → Files × Result ℕ
transfer refused op ufd count area st =
    let n = st.fd ufd in
    let file = st.fd_table n in
    let called : Files × Result ℕ = elim (op file.inode) [
      | none ↦ (st, fail inval)
      | some f ↦ f n count st
    ] in
    let checked : Files × Result ℕ =
      if has_bits file.flags refused
      then (st, fail badf)
      else if count == 0
      then (st, done 0)
      else if leb (2 ^ 31) count
      then (st, fail inval)
      else called in
    let allowed : Files × Result ℕ = elim area [ none ↦ checked | some e ↦ (st, fail e) ] in
    if is_bad st ufd then (st, fail badf) else allowed

unfoldable pub sys_read : Operation → ℕ → ℕ → Option Errno → Files → Files × Result ℕ
unfolding transfer
sys_read read ufd count area st = transfer o_wronly read ufd count area st

unfoldable pub sys_write : Operation → ℕ → ℕ → Option Errno → Files → Files × Result ℕ
unfolding transfer
sys_write write ufd count area st = transfer o_rdonly write ufd count area st
