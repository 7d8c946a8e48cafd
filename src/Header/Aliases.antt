-- ===== src/Header/Aliases.antt =====
-- format/common/header.rs: the known attributes, whose aliases differ in the case of their names.
pub mod Agreement
use mdictlib.Prelude.{
  ℕ, String, Bool, true, false, not, Option, none, some, [], ◌∷◌, ltb, if◌then◌else◌, ◌==◌,
}
use mdictlib.Error.{Error, Result, ok, err, ◌>>=◌, ◌>>◌, ok_or, fail_if, invalid_data, str, num}
use mdictlib.Descriptors.{Text}
use mdictlib.CaseVariants.{equal_texts, eq_ignore_ascii_case}
use mdictlib.Texts.{codes, parse_radix}
use mdictlib.Header.{Attributes}

abbrev pub conflict : String → Error
conflict canonical_name =
    invalid_data "conflicting aliases for header attribute {}" (str canonical_name ∷ [])

-- The loops of `known_attribute`, `parse_known_bool` and `parse_known_encryption`: the values of the
-- aliases are parsed and must agree.
module _ {A : Type 0} (same : A → A → Bool) (parse : Text → Result A) where
  -- `if let Some(previous) = found && previous != parsed`
  unfoldable pub agree : String → Option A → A → Result (Option A)
  agree canonical_name none parsed = ok (some parsed)
  agree canonical_name (some previous) parsed =
      if same previous parsed then ok (some parsed) else err (conflict canonical_name)

  unfoldable pub find_alias : String → Option A → Attributes → Result (Option A)
  find_alias canonical_name found [] = ok found
  find_alias canonical_name found ((name, value) ∷ rest) =
      let skipped = find_alias canonical_name found rest in
      let taken = parse value >>= (λ parsed.
        agree canonical_name found parsed >>= (λ found'. find_alias canonical_name found' rest)) in
      if eq_ignore_ascii_case name (codes canonical_name) then taken else skipped

unfoldable pub known_attribute : Attributes → String → Result (Option Text)
known_attribute attributes canonical_name = find_alias equal_texts ok canonical_name none attributes

unfoldable pub same_bool : Bool → Bool → Bool
same_bool true b = b
same_bool false b = not b

unfoldable pub parse_bool : String → Text → Result Bool
parse_bool canonical_name value =
    if eq_ignore_ascii_case value (codes "yes")
    then ok true
    else if eq_ignore_ascii_case value (codes "no")
    then ok false
    else err (invalid_data "header attribute {} must be Yes or No" (str canonical_name ∷ []))

unfoldable pub parse_known_bool : Attributes → String → Bool → Result Bool
parse_known_bool attributes canonical_name default = do
  found ← find_alias same_bool (parse_bool canonical_name) canonical_name none attributes
  ok (elim found [ none ↦ default | some parsed ↦ parsed ])

-- `parse_encryption_value`: the bits above the lowest two are not known.
unfoldable pub parse_encryption_value : Text → Result ℕ
parse_encryption_value value = do
  bits ←
      (if eq_ignore_ascii_case value (codes "yes")
        then ok 1
        else if eq_ignore_ascii_case value (codes "no")
        then ok 0
        else ok_or (parse_radix 10 255 value)
            (invalid_data "header attribute Encrypted is malformed" []))
  fail_if (ltb 3 bits)
      (invalid_data "header attribute Encrypted contains unknown bits {:#04x}" (num bits ∷ []))
  ok bits

unfoldable pub parse_known_encryption : Attributes → Result ℕ
parse_known_encryption attributes = do
  found ← find_alias ◌==◌ parse_encryption_value "Encrypted" none attributes
  ok (elim found [ none ↦ 0 | some bits ↦ bits ])

unfoldable pub nonempty_value : Option Text → Option Text
nonempty_value none = none
nonempty_value (some []) = none
nonempty_value (some (c ∷ cs)) = some (c ∷ cs)

-- `clone_optional_attribute`
unfoldable pub optional_attribute : Attributes → String → Result (Option Text)
optional_attribute attributes canonical_name = do
  found ← known_attribute attributes canonical_name
  ok (nonempty_value found)
