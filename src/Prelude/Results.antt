-- ===== src/Prelude/Results.antt =====
-- A computation that may raise: Python's exceptions as values, with `do` blocks.
use mathlib.Core.Path.{◌≡◌, refl}
use mathlib.Core.Logic.{◌≢◌}

pub data Result {ℓ κ} (E : Type ℓ) (A : Type κ) : Type (ℓ ⊔ κ) where
  err : E → Result E A
  ok : A → Result E A

infixl 5 ◌>>=◌
abbrev pub ◌>>=◌ {ℓ κ μ} :
    {E : Type ℓ} {A : Type κ} {B : Type μ} → Result E A → (A → Result E B) → Result E B
err raised >>= next = err raised
ok value >>= next = next value

-- Inversion of a successful bind.
pub >>=-eq-ok {ℓ κ μ} :
    {E : Type ℓ} {A : Type κ} {B : Type μ} (first : Result E A) (next : A → Result E B) {final : B}
    → (first >>= next) ≡ ok final
    → (between : A) × (first ≡ ok between) × (next between ≡ ok final)
>>=-eq-ok (err raised) next ends = cc
>>=-eq-ok (ok value) next ends = (value, refl, ends)

-- A computation that does not raise a given error, step by step.
abbrev pub Avoids {ℓ κ} : {E : Type ℓ} {A : Type κ} → E → Result E A → Type (ℓ ⊔ κ)
Avoids e r = r ≢ err e

pub Avoids-bind {ℓ κ μ} :
    {E : Type ℓ} {A : Type κ} {B : Type μ} (e : E) (m : Result E A) (f : A → Result E B)
    → Avoids e m
    → ((a : A) → m ≡ ok a → Avoids e (f a))
    → Avoids e (m >>= f)
Avoids-bind e (ok a) f hm hf h = hf a refl h
Avoids-bind e (err x) f hm hf h = hm (cc)

pub ok-injective {ℓ κ} :
    {E : Type ℓ} {A : Type κ} {a b : A} → Path (Result E A) (ok a) (ok b) → a ≡ b
ok-injective h = cc
