-- ===== src/Error.antt =====
-- The error values of error.rs and index.rs, and the `Result` type alias with its `?` operator.
-- The text of a formatted message is kept as its template and the values that are put into it.
use mathlib.Core.Path.{subst, ap}
use mdictlib.Prelude.{
  ℕ, String, List, Bool, true, false, Option, none, some, ◌≡◌, refl, ◌⊎◌, inl, inr,
}

-- What a `format!` call interpolates.
pub data Arg : Type 0 where
  num : ℕ → Arg
  str : String → Arg

-- An `i128`.
pub data ℤ : Type 0 where
  pos negsuc : ℕ → ℤ

pub data KeyIndexRejection : Type 0 where
  invalid_magic : KeyIndexRejection
  unsupported_format_revision : ℕ → KeyIndexRejection
  unsupported_endian_marker : ℕ → KeyIndexRejection
  incompatible_parser_revision : ℕ → KeyIndexRejection
  incompatible_normalization_revision : ℕ → KeyIndexRejection
  source_identity_mismatch : KeyIndexRejection
  source_length_mismatch : ℕ → ℕ → KeyIndexRejection
  source_modified_mismatch : ℤ → ℤ → KeyIndexRejection
  key_count_mismatch : ℕ → ℕ → KeyIndexRejection
  file_length_mismatch : ℕ → ℕ → KeyIndexRejection
  invalid_layout : String → KeyIndexRejection
  index_checksum_mismatch : String → Option ℕ → ℕ → ℕ → KeyIndexRejection
  source_key_mismatch : ℕ → KeyIndexRejection

pub data Error : Type 0 where
  io : Error
  invalid_format : String → Error
  invalid_data : String → List Arg → Error
  truncated : String → ℕ → ℕ → Error
  limit_exceeded : String → ℕ → ℕ → Error
  allocation_failed : String → ℕ → Error
  checksum_mismatch : String → ℕ → ℕ → Error
  decode_failed : String → String → Error
  missing_passcode : Error
  invalid_passcode : String → Error
  unsupported : String → Error
  key_index_rejected : KeyIndexRejection → Error
  cancelled : String → Error
  source_changed : String → Error

pub data Result {ℓ} (A : Type ℓ) : Type ℓ where
  ok : A → Result A
  err : Error → Result A

-- `if test { return Err(e) }`
abbrev pub fail_if : Bool → Error → Result (Unit {0})
fail_if true e = err e
fail_if false e = ok tt

-- `option.ok_or(e)`
abbrev pub ok_or {ℓ} : {A : Type ℓ} → Option A → Error → Result A
ok_or none e = err e
ok_or (some a) e = ok a

-- The `?` operator: the first error ends the chain.
infixl 5 ◌>>=◌ ◌>>◌
abbrev pub ◌>>=◌ {μ ν} :
    {Value : Type μ} {Next : Type ν} → Result Value → (Value → Result Next) → Result Next
err failure >>= next = err failure
ok value >>= next = next value

abbrev pub ◌>>◌ {μ ν} : {Value : Type μ} {Next : Type ν} → Result Value → Result Next → Result Next
first >> second = first >>= (λ ignored. second)

pub Result-cases {ℓ} :
    {A : Type ℓ} (r : Result A) → ((a : A) × (r ≡ ok a)) ⊎ ((e : Error) × (r ≡ err e))
Result-cases (ok a) = inl (a, refl)
Result-cases (err e) = inr (e, refl)

-- What holds of the result of a chain holds of the rest behind its first step.
pub behind {μ ν} :
    {A : Type μ} {B : Type ν} (r : Result A) (f : A → Result B) (P : B → Type 0)
    → ((a : A) (b : B) → f a ≡ ok b → P b)
    → (b : B) → r >>= f ≡ ok b
    → P b
behind (ok a) f P h b e = h a b e
behind (err x) f P h b e = cc

ok_value {ℓ} : {A : Type ℓ} → A → Result A → A
ok_value d (ok a) = a
ok_value d (err e) = d

pub ok_then {ℓ} : {A : Type ℓ} (a : A) (P : A → Type 0) → P a → (b : A) → ok a ≡ ok b → P b
unfolding ok_value
ok_then a P h b e = subst P (ap (ok_value a) e) h
