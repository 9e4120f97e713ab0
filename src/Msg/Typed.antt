-- ===== src/Msg/Typed.antt =====
-- A message that is received is the first one that the type asks for, and no other is lost.
use fiwix_arm.Base.{
  Bool, Bool-cases, List, Option, [], ap, arith, false, if◌then◌else◌, inl, inr, length, none, refl,
  some, suc, sym, zero, ℕ, ◌++◌, ◌+◌, ◌∷◌, ◌≡◌, ◌≤◌,
}
use fiwix_arm.Base.Store.{update, Store}
use fiwix_arm.Msg.Queue.{IsFresh, InUse, bytes, IsDistinct, view, last_of, Links}
use fiwix_arm.Msg.Relink.{InUse-relinked, bytes-relinked, view-relinked, relink}
use fiwix_arm.Msg.{Msg, ℤ}
use fiwix_arm.Msg.Receive.{scan}
use mathlib.Core.Path.{subst}

-- The message that an abstract queue gives, and the queue that it leaves.
abbrev pub find_msg : (ℤ → Bool) → List (ℤ × List ℕ) → Option (ℤ × List ℕ)
find_msg wanted [] = none
find_msg wanted (x ∷ xs) = if wanted x.0 then some x else find_msg wanted xs

abbrev pub without : (ℤ → Bool) → List (ℤ × List ℕ) → List (ℤ × List ℕ)
without wanted [] = []
without wanted (x ∷ xs) = if wanted x.0 then xs else x ∷ without wanted xs

-- What stands before the message behind `before`.
abbrev pub prev_of : Option ℕ → List ℕ → Option ℕ
prev_of o [] = o
prev_of o (j ∷ js) = prev_of (some j) js

pub prev_of-last_of : (b : ℕ) (bs : List ℕ) → prev_of (some b) bs ≡ some (last_of b bs)
prev_of-last_of b [] = refl
prev_of-last_of b (c ∷ bs) = prev_of-last_of c bs

abbrev pub message : Store Msg → ℕ → ℤ × List ℕ
message pool i = ((pool i).msg_type, (pool i).msg_spot)

-- Where the loop over a chain ends.
abbrev pub Scanned : Store Msg → (ℤ → Bool) → Option ℕ → List ℕ → Option ℕ × Option ℕ → Type 0
Scanned pool wanted mprev ids (p, none) = find_msg wanted (view pool ids) ≡ none
Scanned pool wanted mprev ids (p, some i) =
    (before rest : List ℕ) × (ids ≡ before ++ i ∷ rest)
    × (p ≡ prev_of mprev before)
    × (find_msg wanted (view pool ids) ≡ some (message pool i))
    × (without wanted (view pool ids) ≡ view pool (before ++ rest))

Scanned-next :
    (pool : Store Msg) (wanted : ℤ → Bool) (mprev : Option ℕ) (i : ℕ) (ids : List ℕ)
    (r : Option ℕ × Option ℕ)
    → wanted (pool i).msg_type ≡ false
    → Scanned pool wanted (some i) ids r
    → Scanned pool wanted mprev (i ∷ ids) r
Scanned-next pool wanted mprev i ids (p, none) e s = rw e s
Scanned-next pool wanted mprev i ids (p, some j) e (before, rest, same, prev, found, left) = (
  i ∷ before,
  rest,
  ap (λ l. i ∷ l) same,
  prev,
  rw e found,
  rw e (ap (λ l. message pool i ∷ l) left),
)

-- The loop ends in a chain that the fuel covers.
pub scan-Scanned :
    (fuel : ℕ) (pool : Store Msg) (wanted : ℤ → Bool) (mprev m : Option ℕ) (ids : List ℕ)
    → Links pool m ids
    → length ids ≤ fuel
    → (r : Option ℕ × Option ℕ) × (scan fuel pool wanted mprev m ≡ some r)
      × Scanned pool wanted mprev ids r
unfolding scan
scan-Scanned zero pool wanted mprev m [] l le = ((mprev, none), rw l refl, refl)
scan-Scanned (suc fuel) pool wanted mprev m [] l le = ((mprev, none), rw l refl, refl)
scan-Scanned zero pool wanted mprev m (i ∷ ids) l le = absurd (omega (arith, le))
scan-Scanned (suc fuel) pool wanted mprev m (i ∷ ids) (e, l) le =
    elim (Bool-cases (wanted (pool i).msg_type)) [
      | inl w ↦ ((mprev, some i), rw (e, w) refl, ([], ids, refl, refl, rw w refl, rw w refl))
      | inr w ↦
          let (r, ran, s) =
            scan-Scanned fuel pool wanted (some i) (pool i).msg_next ids l (omega (arith, le)) in
          (r, rw (e, w) ran, Scanned-next pool wanted mprev i ids r w s)
    ]

-- The chain with a message taken out.
module _ (pool : Store Msg) (i : ℕ) where
  abbrev pub unlinked : Option ℕ → Store Msg
  unlinked p = elim p [
    | none ↦ pool
    | some k ↦ update pool k (record (pool k) { msg_next = (pool i).msg_next })
  ]

  abbrev pub first_left : Option ℕ → Option ℕ → Option ℕ
  first_left p first = elim p [ none ↦ (pool i).msg_next | some _ ↦ first ]

  pub Links-rest :
      (o : Option ℕ) (before rest : List ℕ)
      → Links pool o (before ++ i ∷ rest)
      → Links pool (pool i).msg_next rest
  Links-rest o [] rest (e, l) = l
  Links-rest o (b ∷ before) rest (e, l) = Links-rest (pool b).msg_next before rest l

  IsFresh-rest :
      (b : ℕ) (bs rest : List ℕ) → IsDistinct (b ∷ bs ++ i ∷ rest) → IsFresh (last_of b bs) rest
  IsFresh-rest b [] rest ((ne, f), d) = f
  IsFresh-rest b (c ∷ bs) rest (f, d) = IsFresh-rest c bs rest d

  pub Links-unlinked :
      (first : Option ℕ) (before rest : List ℕ)
      → IsDistinct (before ++ i ∷ rest)
      → Links pool first (before ++ i ∷ rest)
      → let p = prev_of none before in Links (unlinked p) (first_left p first) (before ++ rest)
  Links-unlinked first [] rest d (e, l) = l
  Links-unlinked first (b ∷ bs) rest d (e, l) =
      let ids' = b ∷ bs ++ rest in
      let linked : Links (unlinked (some (last_of b bs))) (some b) ids' =
        relink pool b bs (i ∷ rest) rest (pool i).msg_next d (refl, l) (IsFresh-rest b bs rest d)
          (Links-rest (pool b).msg_next bs rest l) in
      subst (λ p. Links (unlinked p) (first_left p first) ids') (sym (prev_of-last_of b bs))
        (subst (λ o. Links (unlinked (some (last_of b bs))) o ids') (sym e) linked)

  -- It has the messages of the pool.
  pub view-unlinked : (p : Option ℕ) (ids : List ℕ) → view (unlinked p) ids ≡ view pool ids
  view-unlinked none ids = refl
  view-unlinked (some k) ids = view-relinked pool k (pool i).msg_next ids

  pub bytes-unlinked : (p : Option ℕ) (ids : List ℕ) → bytes (unlinked p) ids ≡ bytes pool ids
  bytes-unlinked none ids = refl
  bytes-unlinked (some k) ids = bytes-relinked pool k (pool i).msg_next ids

  pub InUse-unlinked : (p : Option ℕ) (ids : List ℕ) → InUse pool ids → InUse (unlinked p) ids
  InUse-unlinked none ids u = u
  InUse-unlinked (some k) ids u = InUse-relinked pool k (pool i).msg_next ids u

  pub bytes-among :
      (before rest : List ℕ)
      → bytes pool (before ++ i ∷ rest) ≡ (pool i).msg_ts + bytes pool (before ++ rest)
  bytes-among [] rest = refl
  bytes-among (b ∷ before) rest = omega (arith, bytes-among before rest)

pub length-among :
    (before : List ℕ) (i : ℕ) (rest : List ℕ)
    → length (before ++ i ∷ rest) ≡ suc (length (before ++ rest))
length-among [] i rest = refl
length-among (b ∷ before) i rest = ap suc (length-among before i rest)
