-- ===== src/Bits.antt =====
-- The operators `^`, `&`, `|` and `!` of the unsigned integers, and their rotations.
pub mod Xor
use mdictlib.Prelude.{ℕ, ◌+◌, ◌-◌, ◌*◌, ◌/◌, ◌%◌, ◌^◌}

-- `u32::rotate_left` and `u8::rotate_left`
unfoldable pub rotate_left : ℕ → ℕ → ℕ → ℕ
rotate_left width value by = value * 2 ^ by % 2 ^ width + value / 2 ^ (width - by)

-- `!value` of a `u32`
unfoldable pub not32 : ℕ → ℕ
not32 value = 2 ^ 32 - 1 - value

-- `u32::wrapping_add`
unfoldable pub add32 : ℕ → ℕ → ℕ
add32 a b = (a + b) % 2 ^ 32
