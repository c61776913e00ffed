-- ===== src/Base/Result.antt =====
-- Go's `(value, error)` results.
use k_mesh.Base.{◌≡◌, refl, ◌⊎◌, inl, inr, Bool, true, false}
use k_mesh.Base.Text.{Text}

-- `not_found` and `conflict` are the API statuses that the code tests for; `wrap` is `%w`.
pub data Err : Type 0 where
  not_found : Text → Err
  conflict : Text → Err
  failure : Text → Err
  wrap : Text → Err → Err

-- `errors.IsNotFound` of the API machinery
abbrev pub is_not_found : Err → Bool
is_not_found (not_found m) = true
is_not_found (conflict m) = false
is_not_found (failure m) = false
is_not_found (wrap m e) = is_not_found e

pub data Result {ℓ} (A : Type ℓ) : Type ℓ where
  ok : A → Result A
  err : Err → Result A

infixl 5 ◌>>=◌
abbrev pub ◌>>=◌ {ℓ κ} : {A : Type ℓ} {B : Type κ} → Result A → (A → Result B) → Result B
ok a >>= f = f a
err e >>= f = err e

-- To split on a computed result and keep the equation.
pub Result-cases {ℓ} :
    {A : Type ℓ} (r : Result A) → ((a : A) × (r ≡ ok a)) ⊎ ((e : Err) × (r ≡ err e))
Result-cases (ok a) = inl (a, refl)
Result-cases (err e) = inr (e, refl)

pub err-ne-ok {ℓ} : {A : Type ℓ} {e : Err} {a : A} → err e ≡ ok a → ⊥
err-ne-ok h = cc

pub ok-injective {ℓ} : {A : Type ℓ} {a b : A} → ok a ≡ ok b → a ≡ b
ok-injective h = cc

pub ok-ne-err {ℓ} : {A : Type ℓ} {e : Err} {a : A} → ok a ≡ err e → ⊥
ok-ne-err h = cc

pub err-injective {ℓ} : {A : Type ℓ} {x y : Err} → ◌≡◌ {A = Result A} (err x) (err y) → x ≡ y
err-injective h = cc
