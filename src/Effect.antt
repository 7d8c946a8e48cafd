-- ===== src/Effect.antt =====
-- Computations over a state `S`: the result, and the state that they leave, on every path.
use mdictlib.Error.{Result, ok, err}

abbrev pub Eff {ℓ κ} : Type ℓ → Type κ → Type (ℓ ⊔ κ)
Eff S A = S → Result A × S

abbrev pub resume {ℓ κ μ} :
    {S : Type ℓ} {A : Type κ} {B : Type μ} → (A → Eff S B) → Result A × S → Result B × S
resume f (ok a, s) = f a s
resume f (err e, s) = (err e, s)

module _ {ℓ} {S : Type ℓ} where
  unfoldable pub lift {κ} : {A : Type κ} → Result A → Eff S A
  lift r s = (r, s)

  infixl 5 ◌>>=◌
  unfoldable pub ◌>>=◌ {κ μ} : {A : Type κ} {B : Type μ} → Eff S A → (A → Eff S B) → Eff S B
  ◌>>=◌ m f s = resume f (m s)

-- What holds of the result and of the state behind it.
abbrev pub After {ℓ κ} : {S : Type ℓ} {A : Type κ} → (A → S → Type 0) → Result A × S → Type 0
After Q (ok a, s) = Q a s
After Q (err e, s) = Unit {0}
