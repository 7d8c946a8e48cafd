-- ===== src/Limits.antt =====
-- limits.rs (the limit checks and width conversions) and format/common/checked.rs.
-- A `u64` or `usize` is a number below 2 ^ 64: the model is of a 64-bit target.
pub mod Laws
use mdictlib.Prelude.{
  ℕ, ◌+◌, ◌-◌, ◌*◌, ◌^◌, String, Option, none, some, ltb, leb, if◌then◌else◌, [], ◌∷◌,
}
use mdictlib.Error.{
  Result, ok, err, ok_or, fail_if, limit_exceeded, invalid_format, invalid_data, num, str,
}

-- `u64::MAX` and, on the modelled target, `usize::MAX`.
abbrev pub u64_max : ℕ
u64_max = 2 ^ 64 - 1

abbrev pub usize_max : ℕ
usize_max = 2 ^ 64 - 1

abbrev pub u32_max : ℕ
u32_max = 2 ^ 32 - 1

-- `checked_add` and `checked_mul` of a 64-bit integer.
unfoldable pub checked_add : ℕ → ℕ → Option ℕ
checked_add a b = if leb (a + b) u64_max then some (a + b) else none

unfoldable pub checked_mul : ℕ → ℕ → Option ℕ
checked_mul a b = if leb (a * b) u64_max then some (a * b) else none

unfoldable pub checked_sub : ℕ → ℕ → Option ℕ
checked_sub a b = if leb b a then some (a - b) else none

unfoldable pub widen_u32 : ℕ → ℕ
widen_u32 value = value

unfoldable pub add_u64 : ℕ → ℕ → String → Result ℕ
add_u64 left right context = ok_or (checked_add left right) (invalid_format context)

unfoldable pub mul_u64 : ℕ → ℕ → String → Result ℕ
mul_u64 left right context = ok_or (checked_mul left right) (invalid_format context)

unfoldable pub ensure_u64_ceiling : String → ℕ → ℕ → Result (Unit {0})
ensure_u64_ceiling limit value max = fail_if (ltb max value) (limit_exceeded limit value max)

-- `u64::try_from(max)` of a `usize` cannot fail on the modelled target.
unfoldable pub ensure_u64_limit : String → ℕ → ℕ → Result (Unit {0})
unfolding ensure_u64_ceiling
ensure_u64_limit limit value max =
    if ltb u64_max max
    then err (invalid_format "limit exceeds u64")
    else ensure_u64_ceiling limit value max

unfoldable pub ensure_usize_limit : String → ℕ → ℕ → Result (Unit {0})
ensure_usize_limit limit value max =
    if ltb max value then err (limit_exceeded limit value max) else ok tt

unfoldable pub checked_usize : ℕ → String → Result ℕ
checked_usize value context =
    if leb value usize_max
    then ok value
    else err (
        invalid_data "{} value {} exceeds the platform address space"
          (str context ∷ num value ∷ []))

unfoldable pub checked_u64 : ℕ → String → Result ℕ
checked_u64 value context =
    if leb value u64_max
    then ok value
    else err
        (invalid_data "{} value {} cannot be represented as u64" (str context ∷ num value ∷ []))
