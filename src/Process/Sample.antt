-- ===== src/Process/Sample.antt =====
-- Processes to try the system calls on: one of a user, one of the superuser, and INIT.
use fiwix_arm.Base.{none, replicate, ℕ}
use fiwix_arm.Process.{State, Proc, Sigaction}

-- Every signal has its default action.
abbrev pub all_default : ℕ → Sigaction
all_default n = record { sa_handler = 0; sa_mask = 0; sa_flags = 0 }

abbrev pub a_user : Proc
a_user = record {
  slot = 5;
  ppid = 1;
  pid = 40;
  pgid = 40;
  sid = 40;
  flags = 0;
  groups = replicate 32 none;
  ctty = none;
  state = State.running;
  exit_code = 0;
  uid = 1000;
  gid = 100;
  euid = 1000;
  egid = 100;
  suid = 1000;
  sgid = 100;
  umask = 18;
  sigpending = 0;
  sigblocked = 0;
  sigaction = all_default;
  nsignals = 0;
}

abbrev pub a_root : Proc
a_root = record a_user { uid = 0; euid = 0; suid = 0 }

abbrev pub an_init : Proc
an_init = record a_root { pid = 1; slot = 1 }
