-- ===== src/Cursor/Laws.antt =====
-- What a read takes from the cursor, and the round trip of the fixed-width integers.
use mdictlib.Prelude.{
  ℕ, ◌+◌, ◌-◌, ◌^◌, ◌≤◌, ◌<◌, String, List, ◌++◌, length, length-append, slice, length-slice,
  slice-append, ◌≡◌, refl, arith,
}
use mdictlib.Error.{ok, err, truncated}
use mdictlib.Limits.{u64_max}
use mdictlib.Bytes.{to_be, from_be-to_be, length-to_be}
use mdictlib.Cursor.{Cursor, read_bytes, read_be}

-- What a successful `read_bytes` did.
pub record Reads (len : ℕ) (c : Cursor) (bytes : List ℕ) (c' : Cursor) : Type 0 where
  pub content : bytes ≡ slice c.offset (c.offset + len) c.bytes
  pub sized : length bytes ≡ len
  pub same : c'.bytes ≡ c.bytes
  pub moved : c'.offset ≡ c.offset + len
  pub inside : c.offset + len ≤ length c.bytes

module _ (len : ℕ) (context : String) (c : Cursor) where
  pub read_bytes_fits :
      c.offset + len ≤ u64_max
      → c.offset + len ≤ length c.bytes
      → read_bytes len context c
        ≡ ok (slice c.offset (c.offset + len) c.bytes, record c { offset = c.offset + len })
  unfolding read_bytes
  read_bytes_fits p q = ground arith

  read_bytes_truncated :
      c.offset + len ≤ u64_max
      → length c.bytes < c.offset + len
      → read_bytes len context c ≡ err (truncated context len (length c.bytes - c.offset))
  unfolding read_bytes
  read_bytes_truncated p q = ground arith

  pub read_bytes-Reads :
      {bytes : List ℕ} {c' : Cursor}
      → read_bytes len context c ≡ ok (bytes, c')
      → Reads len c bytes c'
  unfolding read_bytes
  read_bytes-Reads e = ground (arith, length-slice c.offset (c.offset + len) c.bytes)

inside :
    (n v : ℕ) (before after : List ℕ) → length before + n ≤ length (before ++ (to_be n v ++ after))
inside n v before after = omega (
  arith,
  length-append before (to_be n v ++ after),
  length-append (to_be n v) after,
  length-to_be n v,
)

-- A fixed-width big-endian integer is read back from wherever it stands, and the cursor is behind it.
pub read_be-to_be :
    (n v : ℕ) (context : String) (before after : List ℕ)
    → v < 256 ^ n
    → length before + n ≤ u64_max
    → read_be n context (record { bytes = before ++ (to_be n v ++ after); offset = length before })
      ≡ ok (v, record { bytes = before ++ (to_be n v ++ after); offset = length before + n })
unfolding read_be
read_be-to_be n v context before after small fits = rw (
  read_bytes_fits n context
      (record { bytes = before ++ (to_be n v ++ after); offset = length before }) fits
      (inside n v before after),
  slice-append (length before) n before (to_be n v) after refl (length-to_be n v),
  from_be-to_be n v small,
)
