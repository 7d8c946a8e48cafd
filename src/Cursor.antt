-- ===== src/Cursor.antt =====
-- format/common/cursor.rs: a bounds-checked reader over a byte slice. A method that returns an
-- error leaves the cursor as it was, and every caller passes the error on.
pub mod Laws
use mdictlib.Prelude.{
  ℕ, ◌-◌, String, Bool, ◌&&◌, Option, none, some, List, leb, ◌==◌, if◌then◌else◌, length, slice,
}
use mdictlib.Error.{Result, ok, ◌>>=◌, ◌>>◌, ok_or, invalid_format, truncated}
use mdictlib.Limits.{checked_add, widen_u32}
use mdictlib.Bytes.{from_be, from_le}

pub record Cursor : Type 0 where
  pub bytes : List ℕ
  pub offset : ℕ

unfoldable pub new : List ℕ → Cursor
new bytes = record { bytes = bytes; offset = 0 }

-- `len.saturating_sub(offset)`
unfoldable pub remaining : Cursor → ℕ
remaining c = length c.bytes - c.offset

unfoldable pub is_empty : Cursor → Bool
unfolding remaining
is_empty c = remaining c == 0

-- `bytes.get(start..end)`
unfoldable pub get_range : ℕ → ℕ → List ℕ → Option (List ℕ)
get_range start end bytes =
    if leb start end && leb end (length bytes) then some (slice start end bytes) else none

unfoldable pub read_bytes : ℕ → String → Cursor → Result (List ℕ × Cursor)
unfolding checked_add get_range remaining
read_bytes len context c = do
  end ← ok_or (checked_add c.offset len) (invalid_format "cursor offset overflow")
  bytes ← ok_or (get_range c.offset end c.bytes) (truncated context len (remaining c))
  ok (bytes, record c { offset = end })

-- `read_array::<N>` followed by `from_be_bytes` or `from_le_bytes`.
unfoldable pub read_be : ℕ → String → Cursor → Result (ℕ × Cursor)
unfolding read_bytes
read_be width context c = do (bytes, c') ← read_bytes width context c; ok (from_be bytes, c')

unfoldable pub read_u8 : String → Cursor → Result (ℕ × Cursor)
unfolding read_be
read_u8 context c = read_be 1 context c

unfoldable pub read_u16_be : String → Cursor → Result (ℕ × Cursor)
unfolding read_be
read_u16_be context c = read_be 2 context c

unfoldable pub read_u32_be : String → Cursor → Result (ℕ × Cursor)
unfolding read_be
read_u32_be context c = read_be 4 context c

unfoldable pub read_u64_be : String → Cursor → Result (ℕ × Cursor)
unfolding read_be
read_u64_be context c = read_be 8 context c

unfoldable pub read_u32_le : String → Cursor → Result (ℕ × Cursor)
unfolding read_bytes
read_u32_le context c = do (bytes, c') ← read_bytes 4 context c; ok (from_le bytes, c')

unfoldable pub read_u32_be_widened : String → Cursor → Result (ℕ × Cursor)
unfolding read_u32_be widen_u32
read_u32_be_widened context c = do (value, c') ← read_u32_be context c; ok (widen_u32 value, c')
