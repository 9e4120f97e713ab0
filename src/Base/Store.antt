-- ===== src/Base/Store.antt =====
-- Memory as a function: a user's buffer, or an array of fixed size.
use fiwix_arm.Base.{ℕ, ◌≡◌, ◌≢◌, ◌==◌, if◌then◌else◌, arith}

abbrev pub Store {ℓ} : Type ℓ → Type ℓ
Store A = ℕ → A

-- `f[i] = v`
abbrev pub update {ℓ} : {A : Type ℓ} → Store A → ℕ → A → Store A
update f i v j = if i == j then v else f j

pub update_self {ℓ} : {A : Type ℓ} (f : Store A) (i : ℕ) (v : A) → update f i v i ≡ v
update_self f i v = ground arith

pub update_ne {ℓ} : {A : Type ℓ} (f : Store A) (i j : ℕ) (v : A) → i ≢ j → update f i v j ≡ f j
update_ne f i j v ne = ground arith
