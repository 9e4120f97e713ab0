-- ===== src/Sem/Pass.antt =====
-- kernel/syscalls/semop.c: one pass of `sys_semop` through its operations, and `semundo_ops`.
pub mod Undone
pub mod Atomic
use fiwix_arm.Base.{
  Bool, List, [], false, if◌then◌else◌, leb, ltb, max, not, suc, true, zero, ℕ, ◌+◌, ◌-◌, ◌==◌, ◌^◌,
  ◌||◌, ◌∷◌,
}
use fiwix_arm.Sem.{sem_undo_bit, update, Store, semvmx, Sem}
use fiwix_arm.Base.Bits.{testbit, u16}
use fiwix_arm.Ipc.{ipc_nowait_bit}

-- `struct sembuf`; the two short ints are 16-bit patterns.
pub record Sembuf : Type 0 where
  pub sem_num : ℕ
  pub sem_op : ℕ
  pub sem_flg : ℕ

-- The value of a short int, moved by 2^15, so that its order is that of the values.
abbrev pub biased : ℕ → ℕ
biased n = u16 (n + 2 ^ 15)

-- `sem_op > 0` and `sem_op < 0`
abbrev pub is_positive : ℕ → Bool
is_positive op = ltb (2 ^ 15) (biased op)

-- `(sem_op + s->semval) > SEMVMX` and `(sem_op + s->semval) >= 0`, computed as ints
abbrev pub exceeds : ℕ → ℕ → Bool
exceeds op semval = ltb (semvmx + 2 ^ 16) (biased op + biased semval)

abbrev pub is_covered : ℕ → ℕ → Bool
is_covered op semval = leb (2 ^ 16) (biased op + biased semval)

abbrev pub at_sem : Store Sem → ℕ → (Sem → Sem) → Store Sem
at_sem sma i f = update sma i (f (sma i))

abbrev pub add_op : ℕ → Sem → Sem
add_op op s = record s { semval = u16 (s.semval + op) }

abbrev pub sub_op : ℕ → Sem → Sem
sub_op op s = record s { semval = u16 (s.semval + 2 ^ 16 - op) }

-- The first `max` operations, taken back in the order in which they were done.
pub semundo_ops : Store Sem → ℕ → List Sembuf → ℕ → Store Sem
semundo_ops sma base sops zero = sma
semundo_ops sma base [] (suc max) = sma
semundo_ops sma base (o ∷ sops) (suc max) =
    semundo_ops (at_sem sma (base + o.sem_num) (sub_op o.sem_op)) base sops max

-- How one pass through the operations ends.
pub data Pass : Type 0 where
  passed : Store Sem → Bool → Pass  -- every operation done, and whether one has SEM_UNDO
  out_of_range : Store Sem → Pass  -- return of -ERANGE
  blocked : Store Sem → Bool → Bool → ℕ → Pass
      -- IPC_NOWAIT of the operation, whether it waits for 0, and the semaphore it waits for

-- The loop from operation `n` on, whose operations are `rest`; `sops` are all of them.
pub pass_from : ℕ → List Sembuf → ℕ → List Sembuf → Store Sem → Bool → Pass
pass_from base sops n [] sma need_undo = passed sma need_undo
pass_from base sops n (o ∷ rest) sma need_undo =
    let i = base + o.sem_num in
    let semval = (sma i).semval in
    let nowait = testbit o.sem_flg ipc_nowait_bit == 1 in
    let undone = semundo_ops sma base sops n in
    let with_undo : Bool =
      if o.sem_op == 0 then need_undo else need_undo || (testbit o.sem_flg sem_undo_bit == 1) in
    let stepped = if o.sem_op == 0 then sma else at_sem sma i (add_op o.sem_op) in
    let next = pass_from base sops (n + 1) rest stepped with_undo in
    if is_positive o.sem_op
    then (if exceeds o.sem_op semval then out_of_range undone else next)
    else if not (o.sem_op == 0)
    then (if is_covered o.sem_op semval then next else blocked undone nowait false i)
    else (if semval == 0 then next else blocked undone nowait true i)
