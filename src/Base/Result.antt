-- ===== src/Base/Result.antt =====
-- A Go result `(v, err)`: the value where `err` is nil, and else the error.
use mathlib.Core.Path.{◌≡◌, refl}
use mathlib.Core.Logic.{◌⊎◌, inl, inr}

pub data Result {ℓ} (E : Type 0) (A : Type ℓ) : Type ℓ where
  ok : A → Result E A
  err : E → Result E A

-- `if err != nil { return err }`
infixl 5 ◌>>=◌
abbrev pub ◌>>=◌ {ℓ κ} :
    {E : Type 0} {A : Type ℓ} {B : Type κ} → Result E A → (A → Result E B) → Result E B
ok a >>= f = f a
err e >>= f = err e

module _ {ℓ κ} {E : Type 0} {A : Type ℓ} {B : Type κ} where
  -- A chain that ends in a value has one at its first part, from which the rest goes on.
  pub ok_chain :
      (first : Result E A) (rest : A → Result E B) {value : B}
      → (first >>= rest) ≡ ok value
      → (v : A) × (first ≡ ok v) × (rest v ≡ ok value)
  ok_chain (err e) rest p = cc
  ok_chain (ok v) rest p = (v, refl, p)

pub Result-cases {ℓ} :
    {E : Type 0} {A : Type ℓ} (r : Result E A) → ((v : A) × (r ≡ ok v)) ⊎ ((e : E) × (r ≡ err e))
Result-cases (ok v) = inl (v, refl)
Result-cases (err e) = inr (e, refl)
