-- ===== src/Process.antt =====
-- include/fiwix/process.h and include/fiwix/signal.h: the fields of `struct proc` that the modelled
-- system calls read and write, with the numbers that the headers define.
pub mod Sample
use fiwix_arm.Base.{ℕ, Bool, true, false, not, Option, List, bit_and, ◌==◌}

pub data State : Type 0 where
  running sleeping zombie stopped idle : State

-- `struct sigaction`; a handler is its address, so SIG_DFL is 0 and SIG_IGN is 1.
pub record Sigaction : Type 0 where
  pub sa_handler : ℕ
  pub sa_mask : ℕ
  pub sa_flags : ℕ

-- A pointer to a process is the number of its slot in `proc_table`.
pub record Proc : Type 0 where
  pub slot : ℕ
  pub ppid : ℕ  -- the slot of the parent
  pub pid : ℕ
  pub pgid : ℕ
  pub sid : ℕ
  pub flags : ℕ
  pub groups : List (Option ℕ)  -- NGROUPS_MAX entries, `none` for -1
  pub ctty : Option ℕ
  pub state : State
  pub exit_code : ℕ
  pub uid : ℕ
  pub gid : ℕ
  pub euid : ℕ
  pub egid : ℕ
  pub suid : ℕ
  pub sgid : ℕ
  pub umask : ℕ
  pub sigpending : ℕ
  pub sigblocked : ℕ
  pub sigaction : ℕ → Sigaction  -- NSIG entries, signal `n` at n - 1
  pub nsignals : ℕ  -- usage.ru_nsignals

abbrev pub pf_kproc : ℕ
pf_kproc = 1

abbrev pub pf_pexec : ℕ
pf_pexec = 2

abbrev pub pf_usereal : ℕ
pf_usereal = 4

abbrev pub pf_notinterrupt : ℕ
pf_notinterrupt = 8

abbrev pub ngroups_max : ℕ
ngroups_max = 32

abbrev pub init_pid : ℕ
init_pid = 1

abbrev pub is_zombie : State → Bool
is_zombie zombie = true
is_zombie _ = false

-- `flags & mask` as a condition
abbrev pub has_bits : ℕ → ℕ → Bool
has_bits flags mask = not (bit_and flags mask == 0)

-- IS_SUPERUSER, of the process that runs
abbrev pub is_superuser : Proc → Bool
is_superuser current = current.euid == 0

-- PG_LEADER
abbrev pub pg_leader : Proc → Bool
pg_leader p = p.pid == p.pgid
