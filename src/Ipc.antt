-- ===== src/Ipc.antt =====
-- kernel/syscalls/ipc.c and include/fiwix/ipc.h: the permissions of System V IPC.
pub mod Perms
mod Tests
use fiwix_arm.Base.{
  ==_iff, Bool, Bool-cases, List, Option, Option-cases, [], ap, ap₂, arith, bit_and, bit_or, drop,
  false, fun_ext, get_elem?, get_elem?-set_ne, get_elem?-set_self, get_or, if◌then◌else◌, inl, inr,
  leb, leb→le, length, length-append, length-drop, length-map, length-replicate, length-set,
  length-take, ltb, ltb→lt, lt→ltb, map, max, min, none, not, not_lt→ltb, refl, replicate, set,
  some, suc, sym, take, take-append-drop, tests, true, zero, ℕ, ◌%◌, ◌&&◌, ◌*◌, ◌++◌, ◌+◌, ◌-◌, ◌/◌,
  ◌<◌, ◌==◌, ◌^◌, ◌||◌, ◌↔◌, ◌∙◌, ◌∷◌, ◌≡◌, ◌≢◌, ◌≤◌, ◌⊎◌,
}
use fiwix_arm.Process.{is_superuser, Proc}

-- `struct ipc_perm`; a key is a 32-bit pattern.
pub record IpcPerm : Type 0 where
  pub key : ℕ
  pub uid : ℕ
  pub gid : ℕ
  pub cuid : ℕ
  pub cgid : ℕ
  pub mode : ℕ
  pub seq : ℕ

abbrev pub ipc_creat : ℕ
ipc_creat = 512

abbrev pub ipc_excl : ℕ
ipc_excl = 1024

-- IPC_NOWAIT is 1 << 11.
abbrev pub ipc_nowait_bit : ℕ
ipc_nowait_bit = 11

abbrev pub ipc_r : ℕ
ipc_r = 256

abbrev pub ipc_w : ℕ
ipc_w = 128

-- The bits that are looked at: those of the owner, of the group, or of the others.
abbrev pub asked_bits : Proc → IpcPerm → ℕ → ℕ
asked_bits current perm mode =
    let of_group =
      if not (current.egid == perm.gid) || not (current.egid == perm.cgid)
      then mode / 8 / 8
      else mode / 8 in
    if not (current.euid == perm.uid) || not (current.euid == perm.cuid) then of_group else mode

unfoldable pub ipc_has_perms : Proc → IpcPerm → ℕ → Bool
ipc_has_perms current perm mode =
    let mode' = asked_bits current perm mode in
    if is_superuser current
    then true
    else if mode' == 0
    then true
    else if not (bit_and perm.mode mode' == 0)
    then true
    else false
