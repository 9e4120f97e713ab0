-- ===== src/Base/Errno.antt =====
-- include/fiwix/errno.h: the error numbers that the modelled code returns, and the result of a
-- call that returns a count, an identifier or a negated error number.

-- The constructors carry the source's names; `-EAGAIN` is `fail again`.
pub data Errno : Type 0 where
  perm noent srch intr too_big badf again nomem acces fault exist inval mfile fbig nospc : Errno
  rofs pipe range nolck nomsg idrm : Errno

pub data Result {ℓ} (A : Type ℓ) : Type ℓ where
  done : A → Result A
  fail : Errno → Result A

-- A call with no result but success, where the source returns 0.
abbrev pub Status : Type 0
Status = Result (Unit {0})

abbrev pub success : Status
success = done tt

pub Result-elim {ℓ κ μ} :
    {A : Type ℓ} {B : Type κ} (P : B → Type μ) (r : Result A) {f : A → B} {g : Errno → B}
    → ((a : A) → P (f a))
    → ((e : Errno) → P (g e))
    → P (elim r [ done a ↦ f a | fail e ↦ g e ])
Result-elim P (done a) p q = p a
Result-elim P (fail e) p q = q e
