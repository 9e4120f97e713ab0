-- ===== src/Lock/Keep.antt =====
-- The operations on the locks keep them exclusive.
use fiwix_arm.Base.{
  differs, sym, Option-elim, ap, inr, Bool, Bool-cases, List, Option, [], arith, false, if-cases,
  inl, ltb, none, not, refl, set, some, suc, true, zero, ℕ, ◌%◌, ◌++◌, ◌+◌, ◌<◌, ◌||◌, ◌∙◌, ◌∷◌,
  ◌≡◌, ◌⊎◌,
}
use fiwix_arm.Lock.{
  lock_un, lock_sh, get_flock_file, lock_nb, lock_ex, blocked, scan, nr_flocks_max, is_of, has_bits,
  unlock, granted, get_new_flock, flock_release_inode, flock_inode, lock, Status, Woken, Scan,
  grant, remove_all, remove_first, Flock, Flocks,
}
use fiwix_arm.Lock.Exclusive.{scan-Seen, holds, IsExclusive, IsIn, Seen}
use mathlib.Core.Path.{subst}

-- Every entry of the new table is an old one or the new lock.
abbrev IsMore : Flock → List Flock → List Flock → Type 0
IsMore n t t' = (f : Flock) → IsIn f t' → IsIn f t ⊎ (f ≡ n)

IsMore-append : (n : Flock) (t : List Flock) → IsMore n t (t ++ n ∷ [])
IsMore-append n [] f (inl e) = inr e
IsMore-append n [] f (inr e) = absurd e
IsMore-append n (g ∷ t) f (inl e) = inl (inl e)
IsMore-append n (g ∷ t) f (inr is) = elim (IsMore-append n t f is) [
  | inl a ↦ inl (inr a)
  | inr e ↦ inr e
]

IsMore-set : (n : Flock) (t : List Flock) (k : ℕ) → IsMore n t (set t k n)
IsMore-set n [] k f is = absurd is
IsMore-set n (g ∷ t) zero f (inl e) = inr e
IsMore-set n (g ∷ t) zero f (inr is) = inl (inr is)
IsMore-set n (g ∷ t) (suc k) f (inl e) = inl (inl e)
IsMore-set n (g ∷ t) (suc k) f (inr is) = elim (IsMore-set n t k f is) [
  | inl a ↦ inl (inr a)
  | inr e ↦ inr e
]

-- An exclusive lock of the file is of the process that gets the lock.
own_ex :
    (current i op : ℕ) (t : List Flock) (f : Flock)
    → IsExclusive t
    → Seen current i op t
    → IsIn f t
    → f.inode ≡ i
    → has_bits f.type lock_ex ≡ true
    → (has_bits op lock_sh || has_bits op lock_ex) ≡ true
    → f.proc ≡ current
own_ex current i op t f x (inl (g, is, e, own, ex)) at ei ef ho =
    sym (x g f is at (e ∙ sym ei) ex (holds_ex ef)) ∙ own
  where
    holds_ex : has_bits f.type lock_ex ≡ true → holds f ≡ true
    holds_ex h = ground (arith, h)
own_ex current i op t f x (inr k) at ei ef ho =
    let (a, b) = k f at ei in
    elim (Bool-cases (has_bits op lock_sh)) [
      | inl s ↦ absurd (differs ef (a s))
      | inr s ↦ b (only_ex ho s)
    ]
  where
    only_ex : {c d : Bool} → (c || d) ≡ true → c ≡ false → d ≡ true
    only_ex p q = ground (arith, p, q)

-- Where the new lock is exclusive, every lock of the file is of the process that gets it.
own_all :
    (current i op : ℕ) (t : List Flock) (g : Flock)
    → IsExclusive t
    → Seen current i op t
    → IsIn g t
    → g.inode ≡ i
    → has_bits op lock_ex ≡ true
    → holds g ≡ true
    → g.proc ≡ current
own_all current i op t g x (inl (f, is, e, own, ex)) at ei ho hg =
    sym (x f g is at (e ∙ sym ei) ex hg) ∙ own
own_all current i op t g x (inr k) at ei ho hg = (k g at ei).1 ho

IsExclusive-more :
    (current i op : ℕ) (t t' : List Flock)
    → IsExclusive t
    → Seen current i op t
    → IsMore (record { inode = i; type = op; proc = current }) t t'
    → IsExclusive t'
IsExclusive-more current i op t t' x s more f g f_in g_in same ex hg = elim (more f f_in) [
  | inl f_old ↦ elim (more g g_in) [
    | inl g_old ↦ x f g f_old g_old same ex hg
    | inr e ↦
        own_ex current i op t f x s f_old (same ∙ ap (λ (y : Flock). y.inode) e) ex
          (subst (λ (y : Flock). holds y ≡ true) e hg)
        ∙ sym (ap (λ (y : Flock). y.proc) e)
  ]
  | inr d ↦ elim (more g g_in) [
    | inl g_old ↦
        ap (λ (y : Flock). y.proc) d
        ∙ sym (
            own_all current i op t g x s g_old (sym same ∙ ap (λ (y : Flock). y.inode) d)
              (subst (λ (y : Flock). has_bits y.type lock_ex ≡ true) d ex) hg)
    | inr e ↦ ap (λ (y : Flock). y.proc) (d ∙ sym e)
  ]
]

-- Fewer entries are exclusive too.
IsExclusive-less :
    (t t' : List Flock) → ((f : Flock) → IsIn f t' → IsIn f t) → IsExclusive t → IsExclusive t'
IsExclusive-less t t' less x f g f_in g_in = x f g (less f f_in) (less g g_in)

remove_first-less : (i p : ℕ) (t : List Flock) (f : Flock) → IsIn f (remove_first i p t) → IsIn f t
unfolding remove_first
remove_first-less i p [] f is = is
remove_first-less i p (ff ∷ rest) f is =
    if-cases (λ l. IsIn f l → IsIn f (ff ∷ rest)) (is_of i p ff) (λ e. inr)
      (λ e h. elim h [ inl a ↦ inl a | inr b ↦ inr (remove_first-less i p rest f b) ]) is

remove_all-less : (i p : ℕ) (t : List Flock) (f : Flock) → IsIn f (remove_all i p t) → IsIn f t
unfolding remove_all
remove_all-less i p [] f is = is
remove_all-less i p (ff ∷ rest) f is =
    if-cases (λ l. IsIn f l → IsIn f (ff ∷ rest)) (is_of i p ff)
      (λ e b. inr (remove_all-less i p rest f b))
      (λ e h. elim h [ inl a ↦ inl a | inr b ↦ inr (remove_all-less i p rest f b) ]) is

grant-IsExclusive :
    (current : ℕ) (has_memory : Bool) (i op : ℕ) (new : Option ℕ) (t : Flocks)
    → op < 256
    → IsExclusive t.flock_file_table
    → Seen current i op t.flock_file_table
    → IsExclusive (grant current has_memory i op new t).0.flock_file_table
unfolding grant get_new_flock
grant-IsExclusive current has_memory i op (some k) t lt x s =
    let e : op % 256 ≡ op = omega (arith, lt) in
    rw e (
      IsExclusive-more current i op t.flock_file_table
        (set t.flock_file_table k (record { inode = i; type = op; proc = current })) x s
        (IsMore-set (record { inode = i; type = op; proc = current }) t.flock_file_table k))
grant-IsExclusive current has_memory i op none t lt x s =
    let e : op % 256 ≡ op = omega (arith, lt) in
    let ff : Flock = record { inode = i; type = op; proc = current } in
    let new =
      IsExclusive-more current i op t.flock_file_table (t.flock_file_table ++ ff ∷ []) x s
        (IsMore-append ff t.flock_file_table) in
    elim (Bool-cases (ltb nr_flocks_max (t.nr_flocks + 1) || not has_memory)) [
      | inl b ↦ rw (grant, get_new_flock, b) x
      | inr b ↦ rw (grant, get_new_flock, b, e) new
    ]

Scan-elim {ℓ κ} :
    {B : Type ℓ} (P : B → Type κ) (r : Scan) {x : B} {f : Option ℕ → B}
    → P x
    → ((n : Option ℕ) → r ≡ granted n → P (f n))
    → P (elim r [ granted n ↦ f n | blocked ↦ x ])
Scan-elim P blocked p q = p
Scan-elim P (granted n) p q = q n refl

-- Every table that a sleep ends with
abbrev pub AllWoken : List Woken → Type 0
AllWoken [] = Unit
AllWoken (w ∷ wakes) = IsExclusive w.table.flock_file_table × AllWoken wakes

abbrev pub StaysExclusive : Option (Flocks × Status) → Type 0
StaysExclusive none = Unit
StaysExclusive (some (t, s)) = IsExclusive t.flock_file_table

lock-StaysExclusive :
    (current : ℕ) (has_memory : Bool) (i op : ℕ) (wakes : List Woken) (t : Flocks)
    → op < 256
    → IsExclusive t.flock_file_table
    → AllWoken wakes
    → StaysExclusive (lock current has_memory i op wakes t)
unfolding lock
lock-StaysExclusive current has_memory i op [] t lt x a =
    Scan-elim StaysExclusive (scan current i op 0 none t.flock_file_table)
      (if-cases StaysExclusive (has_bits op lock_nb) (λ b. x) (λ b. tt))
      (λ n e.
        grant-IsExclusive current has_memory i op n t lt x
          (scan-Seen current i op 0 none n t.flock_file_table e))
lock-StaysExclusive current has_memory i op (w ∷ wakes) t lt x (ws, a) =
    Scan-elim StaysExclusive (scan current i op 0 none t.flock_file_table)
      (if-cases StaysExclusive (has_bits op lock_nb) (λ b. x)
        (λ b.
          if-cases StaysExclusive w.is_signal (λ c. ws)
            (λ c. lock-StaysExclusive current has_memory i op wakes w.table lt ws a)))
      (λ n e.
        grant-IsExclusive current has_memory i op n t lt x
          (scan-Seen current i op 0 none n t.flock_file_table e))

-- `flock_inode` keeps the locks of every file exclusive, whatever it is asked to do and however it
-- ends, if the operation fits in a byte and each table that one of its sleeps ends with is exclusive:
-- where an entry is an exclusive lock, every lock of its file is of the same process.
pub flock_inode-StaysExclusive :
    (current : ℕ) (has_memory : Bool) (i op : ℕ) (wakes : List Woken) (t : Flocks)
    → op < 256
    → IsExclusive t.flock_file_table
    → AllWoken wakes
    → StaysExclusive (flock_inode current has_memory i op wakes t)
unfolding flock_inode unlock
flock_inode-StaysExclusive current has_memory i op wakes t lt x a =
    if-cases StaysExclusive (has_bits op lock_un) (λ b. unlocked)
      (λ b. lock-StaysExclusive current has_memory i op wakes t lt x a)
  where
    unlocked : IsExclusive (unlock i current t).flock_file_table
    unlocked =
        Option-elim (λ (r : Flocks). IsExclusive r.flock_file_table)
          (get_flock_file i current t.flock_file_table) x
          (λ ff e.
            IsExclusive-less t.flock_file_table (remove_first i current t.flock_file_table)
              (remove_first-less i current t.flock_file_table) x)

-- What `flock_release_inode` leaves: no entry of the process for the inode, every other entry, and
-- the locks of every file exclusive.
pub flock_release_inode_lem :
    (i p : ℕ) (t : Flocks)
    → let left = (flock_release_inode i p t).flock_file_table in
      ((f : Flock) → IsIn f left → is_of i p f ≡ false)
      × ((f : Flock) → IsIn f t.flock_file_table → is_of i p f ≡ false → IsIn f left)
      × (IsExclusive t.flock_file_table → IsExclusive left)
unfolding flock_release_inode
flock_release_inode_lem i p t = (
  gone t.flock_file_table,
  kept t.flock_file_table,
  IsExclusive-less t.flock_file_table (remove_all i p t.flock_file_table)
      (remove_all-less i p t.flock_file_table),
)
  where
    gone : (l : List Flock) (f : Flock) → IsIn f (remove_all i p l) → is_of i p f ≡ false
    gone [] f is = absurd is
    gone (ff ∷ rest) f is =
        if-cases (λ l. IsIn f l → is_of i p f ≡ false) (is_of i p ff) (λ e. gone rest f)
          (λ e h. elim h [ inl a ↦ ap (is_of i p) a ∙ e | inr b ↦ gone rest f b ]) is

    kept : (l : List Flock) (f : Flock) → IsIn f l → is_of i p f ≡ false → IsIn f (remove_all i p l)
    kept [] f is other = is
    kept (ff ∷ rest) f is other =
        if-cases (λ l. IsIn f (ff ∷ rest) → IsIn f l) (is_of i p ff)
          (λ e h. elim h [
            | inl a ↦ absurd (differs e (sym (ap (is_of i p) a) ∙ other))
            | inr b ↦ kept rest f b other
          ])
          (λ e h. elim h [ inl a ↦ inl a | inr b ↦ inr (kept rest f b other) ]) is
