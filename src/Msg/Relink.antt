-- ===== src/Msg/Relink.antt =====
-- What a change of one link of a queue, and one message more or less, leave of the chain.
use fiwix_arm.Base.{
  ap, List, Option, [], arith, length, refl, some, sym, ℕ, ◌++◌, ◌+◌, ◌∙◌, ◌∷◌, ◌≡◌, ◌≢◌,
}
use fiwix_arm.Base.Store.{update, Store, update_self, update_ne}
use fiwix_arm.Msg.Queue.{Links-update, InUse, bytes, view, last_of, IsDistinct, IsFresh, Links}
use fiwix_arm.Msg.{Msg}
use mathlib.Core.Path.{subst}

-- A link that changes changes no message.
module _ (pool : Store Msg) (l : ℕ) (o : Option ℕ) where
  abbrev pub relinked : Store Msg
  relinked = update pool l (record (pool l) { msg_next = o })

  pub view-relinked : (ids : List ℕ) → view relinked ids ≡ view pool ids
  view-relinked [] = refl
  view-relinked (i ∷ ids) = ground (arith, view-relinked ids)

  pub bytes-relinked : (ids : List ℕ) → bytes relinked ids ≡ bytes pool ids
  bytes-relinked [] = refl
  bytes-relinked (i ∷ ids) = ground (arith, bytes-relinked ids)

  pub InUse-relinked : (ids : List ℕ) → InUse pool ids → InUse relinked ids
  InUse-relinked [] u = tt
  InUse-relinked (i ∷ ids) (a, b, u) = ground (arith, a, b, InUse-relinked ids u)

pub IsFresh-last_of : (b c : ℕ) (cs tail : List ℕ) → IsFresh b (c ∷ cs ++ tail) → b ≢ last_of c cs
IsFresh-last_of b c [] tail (ne, f) = ne
IsFresh-last_of b c (d ∷ cs) tail (ne, f) = IsFresh-last_of b d cs tail f

-- The last of the messages `b ∷ bs` gets another link, to messages that it is not among.
pub relink :
    (pool : Store Msg) (b : ℕ) (bs tail tail' : List ℕ) (o : Option ℕ)
    → IsDistinct (b ∷ bs ++ tail)
    → Links pool (some b) (b ∷ bs ++ tail)
    → IsFresh (last_of b bs) tail'
    → Links pool o tail'
    → Links (relinked pool (last_of b bs) o) (some b) (b ∷ bs ++ tail')
relink pool b [] tail tail' o d l f l' =
    let v = record (pool b) { msg_next = o } in
    (
      refl,
      subst (λ x. Links (relinked pool b o) x tail')
          (sym (ap (λ (y : Msg). y.msg_next) (update_self pool b v)))
          (Links-update pool b v o tail' f l'),
    )
relink pool b (c ∷ cs) tail tail' o (fb, d) (e, (next, l)) f l' =
    let k = last_of c cs in
    let v = record (pool k) { msg_next = o } in
    let same : (relinked pool k o b).msg_next ≡ some c =
      ap (λ (y : Msg). y.msg_next)
        (update_ne pool k b v (λ q. IsFresh-last_of b c cs tail fb (sym q)))
      ∙ next in
    (
      refl,
      subst (λ x. Links (relinked pool k o) x (c ∷ cs ++ tail')) (sym same)
          (relink pool c cs tail tail' o d (refl, l) f l'),
    )

-- Lists of distinct messages
pub IsFresh-append :
    (i : ℕ) (ids js : List ℕ) → IsFresh i ids → IsFresh i js → IsFresh i (ids ++ js)
IsFresh-append i [] js f g = g
IsFresh-append i (j ∷ ids) js (ne, f) g = (ne, IsFresh-append i ids js f g)

pub IsDistinct-snoc :
    (ids : List ℕ) (m : ℕ) → IsDistinct ids → IsFresh m ids → IsDistinct (ids ++ m ∷ [])
IsDistinct-snoc [] m d f = (tt, tt)
IsDistinct-snoc (i ∷ ids) m (fi, d) (ne, f) =
    (IsFresh-append i ids (m ∷ []) fi (λ q. ne (sym q), tt), IsDistinct-snoc ids m d f)

-- One message taken out from among the others.
IsFresh-drop :
    (j : ℕ) (before : List ℕ) (i : ℕ) (rest : List ℕ)
    → IsFresh j (before ++ i ∷ rest)
    → (j ≢ i) × IsFresh j (before ++ rest)
IsFresh-drop j [] i rest (ne, f) = (ne, f)
IsFresh-drop j (b ∷ before) i rest (ne, f) =
    let (ne', f') = IsFresh-drop j before i rest f in (ne', (ne, f'))

pub IsDistinct-drop :
    (before : List ℕ) (i : ℕ) (rest : List ℕ)
    → IsDistinct (before ++ i ∷ rest)
    → IsDistinct (before ++ rest) × IsFresh i (before ++ rest)
IsDistinct-drop [] i rest (f, d) = (d, f)
IsDistinct-drop (b ∷ before) i rest (f, d) =
    let (d', fi) = IsDistinct-drop before i rest d in
    let (ne, fb) = IsFresh-drop b before i rest f in ((fb, d'), (λ q. ne (sym q), fi))

-- A message that is not in use is not among those that are.
pub IsFresh-unused :
    (pool : Store Msg) (m : ℕ) (ids : List ℕ)
    → (pool m).msg_stime ≡ 0
    → InUse pool ids
    → IsFresh m ids
IsFresh-unused pool m [] e u = tt
IsFresh-unused pool m (i ∷ ids) e (pos, len, u) = (
  λ q. absurd (omega (arith, pos, e, ap (λ k. (pool k).msg_stime) q)),
  IsFresh-unused pool m ids e u,
)

module _ (pool : Store Msg) where
  pub view-append : (ids js : List ℕ) → view pool (ids ++ js) ≡ view pool ids ++ view pool js
  view-append [] js = refl
  view-append (i ∷ ids) js = rw (view-append ids js)

  pub bytes-append : (ids js : List ℕ) → bytes pool (ids ++ js) ≡ bytes pool ids + bytes pool js
  bytes-append [] js = omega arith
  bytes-append (i ∷ ids) js = omega (arith, bytes-append ids js)

  pub InUse-append : (ids js : List ℕ) → InUse pool ids → InUse pool js → InUse pool (ids ++ js)
  InUse-append [] js u v = v
  InUse-append (i ∷ ids) js (a, b, u) v = (a, b, InUse-append ids js u v)

  pub InUse-drop :
      (before : List ℕ) (i : ℕ) (rest : List ℕ)
      → InUse pool (before ++ i ∷ rest)
      → (length (pool i).msg_spot ≡ (pool i).msg_ts) × InUse pool (before ++ rest)
  InUse-drop [] i rest (a, b, u) = (b, u)
  InUse-drop (j ∷ before) i rest (a, b, u) =
      let (len, u') = InUse-drop before i rest u in (len, (a, b, u'))
