-- ===== src/Prelude/Results.antt =====
-- Go's `(T, error)`, where exactly one of the two is given.
use mathlib.Core.Path.{◌≡◌, refl, ap}
use mathlib.Core.Logic.{◌⊎◌, inl, inr}
use native.Mathlib.Omega.{arith}

pub data Result {ℓ κ} (E : Type ℓ) (A : Type κ) : Type (ℓ ⊔ κ) where
  ok : A → Result E A
  err : E → Result E A

infixl 5 ◌>>=◌
abbrev pub ◌>>=◌ {ℓ κ μ} :
    {E : Type ℓ} {A : Type κ} {B : Type μ} → Result E A → (A → Result E B) → Result E B
ok a >>= f = f a
err e >>= f = err e

pub Result-cases {ℓ κ} :
    {E : Type ℓ} {A : Type κ} (r : Result E A) → ((a : A) × (r ≡ ok a)) ⊎ ((e : E) × (r ≡ err e))
Result-cases (ok a) = inl (a, refl)
Result-cases (err e) = inr (e, refl)

-- What succeeded, step by step.
pub then-ok {ℓ κ μ} :
    {E : Type ℓ} {A : Type κ} {B : Type μ} (r : Result E A) (k : A → Result E B) (b : B)
    → (r >>= k) ≡ ok b
    → (a : A) × (r ≡ ok a) × (k a ≡ ok b)
then-ok (ok a) k b h = (a, refl, h)
then-ok (err e) k b h = ground arith

-- What a result holds, or else the value given.
abbrev of_ok {ℓ κ} : {E : Type ℓ} {A : Type κ} → Result E A → A → A
of_ok (ok a) b = a
of_ok (err e) b = b

pub ok-injective {ℓ κ} :
    {E : Type ℓ} {A : Type κ} (a b : A) → Path (Result E A) (ok a) (ok b) → a ≡ b
ok-injective a b h = ap (λ r. of_ok r a) h
