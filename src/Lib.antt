-- ===== src/Lib.antt =====
-- The core of the Fiwix kernel (the arm64 port's tree), as pure functions over explicit state, with
-- the theorems that make them correct.
--
-- The parts and how they meet. A process is a record of the fields of `struct proc` that the system
-- calls below read and write (Process, for include/fiwix/process.h, signal.h and sched.h). The
-- identity calls change its IDs (Cred, Groups); the IDs decide who may signal whom and who may use
-- an IPC object (Signal, Ipc). `send_sig` posts signals, `issig` picks the one to act on before a
-- process returns to user mode, and the mask calls say which ones wait. A pipe blocks its readers
-- and writers in `sleep`, which a signal ends; so does a semaphore operation. The character queues
-- stand between the ttys and their drivers, and the byte routines below all of them. `sleep` and
-- `wakeup` work on the sleep queues (Sleep), with which resources are locked; callouts run functions
-- at a later tick (Callout). Message queues (Msg) stand beside the semaphores. Descriptors lead to
-- open files (Fd), and a file may be locked (Lock) until its last descriptor is closed. Process
-- groups and sessions (Session) say which processes a signal to a group reaches. The timer interrupt
-- (Timer) counts down the timers and timeouts of processes, nanosleep's among them, and charges its
-- ticks to the process that runs, whose time is limited like its descriptors (Limits).
--
-- Which file models which part:
--   Base      shared: Boolean tests, arrays and lists over the native numbers, 32-bit masks and
--             16-bit words, signed integers, memory as a function, error numbers
--             (include/fiwix/errno.h) and results.
--   Process   include/fiwix/process.h: the process record; Process.Sample has example processes.
--   Cred      kernel/syscalls/setuid.c, setgid.c, setreuid.c, setregid.c, umask.c.
--   Groups    kernel/syscalls/setgroups.c, getgroups.c.
--   Signal    kernel/signal.c: can_signal, send_sig (its stages are `discard`, `force_fault`,
--             `dispose` and `post`), with runnable and wakeup_proc of kernel/sleep.c; Signal.Issig:
--             issig; Signal.Kill: kill_pid, kill_pgrp and kernel/syscalls/kill.c; Signal.Reap: the
--             part of kernel/syscalls/wait4.c with which send_sig reaps children; Signal.Mask:
--             kernel/syscalls/sigprocmask.c, sgetmask.c, ssetmask.c, sigpending.c, sigaction.c and
--             signal.c.
--   Pipe      fs/pipefs/pipe.c: pipefs_read, pipefs_write, pipefs_close, pipefs_select. One turn of
--             a loop is `read_turn` or `write_turn`. Window and Fifo say what bytes a pipe holds,
--             Valid how its offsets belong together, Transfer and Receive what a call moves,
--             Total that calls end, Blocking when they do not go on.
--   Charq     drivers/char/charq.c: every operation on a queue and on the pool of blocks.
--   Ipc       kernel/syscalls/ipc.c: ipc_has_perms.
--   Sem       kernel/syscalls/semget.c: the pools; Sem.Semget: sys_semget; of
--             kernel/syscalls/semop.c, Sem.Pass has one pass through the operations with
--             semundo_ops, and Sem.Semop the call around it; Sem.Semctl: semctl.c.
--   Strings   lib/strings.c: comparing, copying, joining and filling.
--   Callout   kernel/timer.c: the table of callouts, from add_callout and del_callout to the part of
--             irq_timer_bh that counts down and do_callouts_bh; Callout.Schedule is the abstract
--             schedule, Insert and Fire refine it.
--   Timer     kernel/timer.c: interval timers, with kernel/syscalls/setitimer.c, getitimer.c and
--             alarm.c, the accounting of irq_timer_bh, and mktime; Timer.Periods, Accounting and
--             Calendar have their theorems. Timer.Nanosleep: kernel/syscalls/nanosleep.c, and
--             Timer.Sleeping how long it sleeps.
--   Limits    kernel/syscalls/setrlimit.c and getrlimit.c; Limits.Lower says what calls can do.
--   Msg       kernel/syscalls/msgget.c: the pools and sys_msgget; Msg.Send: msgsnd.c; Msg.Receive:
--             msgrcv.c; Msg.Control: msgctl.c. Msg.Queue is the abstract queue, a list of messages;
--             Relink, Append and Typed have the lemmas on links, Fifo, Take, Refine and Remove the
--             calls.
--   Lock      fs/locks.c: flock_inode, posix_lock and flock_release_inode.
--   Fd        fs/fd.c with kernel/syscalls/dup.c, dup2.c, close.c, fcntl.c and flock.c; Fd.Seek:
--             lseek.c, read.c and write.c; Fd.Position says what they check; Fd.Counts
--             counts the references to an open file. A close gives up the locks of Lock.
--   Session   kernel/syscalls/setpgid.c, setsid.c, getpgid.c, getpgrp.c, getsid.c, and the permissions
--             of files in kernel/syscalls.c.
--   Sleep     kernel/sleep.c: run queue, hash chains, resources and areas; Sleep.Resource has the
--             processes that contend for a resource as a step relation.
--
-- How the code is read. A pointer into a pool is an index of the pool, and a chain of pointers the
-- list of its elements; only the undo entries of a semaphore set and the messages of a queue keep
-- their links. A user's buffer is a function from offsets to bytes, and what `check_user_area` and
-- `kmalloc` answer is an argument. An error return is `fail` with the error's name.
-- Unsigned words and short integers are numbers with their wrap-around written out; a short int is
-- its 16-bit pattern, compared by its value moved by 2^15. Where a call sleeps, what others do
-- meanwhile is an argument: the list of the states that its sleeps leave, each with whether a signal
-- ended it; a call whose list is used up still sleeps. Interrupt flags are left out,
-- and so are `lock_resource` and `wakeup` where they are called: Sleep models what they do. In sys_semop and sys_semctl a
-- NULL `sem_base` is an outcome of its own, since the code would go through it.
--
-- Fuel. A write to a pipe takes one unit for each byte and each sleep and one more, a read two
-- for each sleep and two more: every turn moves a byte, sleeps, or is the last one, and a
-- reader goes round at most once between sleeps. issig goes through at most 31 signals.
-- charq_putchar calls itself at most once, so 2 is enough. A string routine takes one unit for
-- each byte of the string and one for its NUL byte. A chain of undo entries has at most SEMMSL
-- of them, and a chain of messages fewer than 2^16, since `msg_qnum` counts them. A run of the
-- callouts that are due takes one unit for each entry of the chain and one more, while the
-- functions leave the table alone. The reaping of children takes one unit for each process of the
-- table, since none is waited for twice. Loops with a counter, and the loop of sys_semop along its sleeps, recur on the
-- structure and have no fuel. The loop of a table of fixed size has that size.
--
-- Not modelled: booting, traps and interrupts (kernel/*.S, traps.c, irq.c), the scheduler
-- (kernel/sched.c), memory management (mm), the file systems other than the pipe's operations (fs),
-- the drivers other than the character queues (drivers), the network (net), shared memory: they
-- touch hardware, or are yet to come. `psig`, which builds a handler's frame on the user's stack, is
-- left out for the same reason; semexit, which undoes the operations of an exiting process,
-- set_system_time, and the calls that go through the names of files are yet to come.
--
pub mod Base
pub mod Process
pub mod Cred
pub mod Groups
pub mod Signal
pub mod Pipe
pub mod Charq
pub mod Ipc
pub mod Sem
pub mod Strings
pub mod Callout
pub mod Msg
pub mod Lock
pub mod Fd
pub mod Sleep
pub mod Session
pub mod Timer
pub mod Limits
