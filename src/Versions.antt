-- ===== src/Versions.antt =====
-- format/mod.rs: the version that a file declares, and the grammar that it selects.
pub mod Dispatch
use mdictlib.Prelude.{
  ℕ, Bool, true, false, ◌&&◌, not, Option, none, List, [], ◌∷◌, ◌==◌, ltb, if◌then◌else◌, String,
}
use mdictlib.Error.{Result, ok, err, ok_or, fail_if, invalid_format, unsupported, ◌>>=◌, ◌>>◌}
use mdictlib.Limits.{u32_max}
use mdictlib.Descriptors.{Text}
use mdictlib.Texts.{is_ascii_digit, all_of, parse_radix}

pub data WireVersion : Type 0 where
  v1 v2 : WireVersion

-- `split('.')`: the first component, and the others.
unfoldable pub split_dots : Text → Text × List Text
split_dots [] = ([], [])
split_dots (c ∷ cs) =
    let (first, rest) = split_dots cs in if c == 46 then ([], first ∷ rest) else (c ∷ first, rest)

-- `!component.is_empty() && component.bytes().all(|byte| byte.is_ascii_digit())`
unfoldable pub is_numeric : Text → Bool
is_numeric [] = false
is_numeric (c ∷ cs) = all_of is_ascii_digit (c ∷ cs)

unfoldable pub all_numeric : List Text → Bool
all_numeric [] = true
all_numeric (component ∷ rest) = is_numeric component && all_numeric rest

unfoldable pub major_of : Text → Option ℕ
major_of component = if is_numeric component then parse_radix 10 u32_max component else none

unfoldable pub declared_major_version : Text → String → Result ℕ
declared_major_version version malformed = do
  major ← ok_or (major_of (split_dots version).0) (invalid_format malformed)
  fail_if (not (all_numeric (split_dots version).1)) (invalid_format malformed)
  ok major

unfoldable pub validate_version_relationship : ℕ → ℕ → Result (Unit {0})
validate_version_relationship generated_major required_major = do
  fail_if (required_major == 0)
      (invalid_format "RequiredEngineVersion must have a non-zero major version")
  fail_if (ltb 2 required_major)
      (unsupported "required MDict engine major version other than 1 or 2")
  fail_if ((generated_major == 1) && not (required_major == 1))
      (invalid_format "GeneratedByEngineVersion 1 conflicts with RequiredEngineVersion")

unfoldable pub resolve_wire_version : ℕ → Result WireVersion
resolve_wire_version declared_major =
    if declared_major == 1
    then ok v1
    else if declared_major == 2
    then ok v2
    else err (unsupported "MDict format major version other than 1 or 2")

-- The part of `open_layout` that selects the grammar, from the two versions of the header.
unfoldable pub select_grammar : Text → Text → Result WireVersion
select_grammar generated required = do
  generated_major ← declared_major_version generated "malformed GeneratedByEngineVersion"
  version ← resolve_wire_version generated_major
  required_major ← declared_major_version required "malformed RequiredEngineVersion"
  validate_version_relationship generated_major required_major
  ok version
