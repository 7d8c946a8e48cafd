-- ===== src/KeyRows.antt =====
-- `decode_key_rows` of format/v1/keyword.rs and format/v2/keyword.rs: the rows of a decompressed key
-- block. The two functions differ in the width of the record offset only, `field_bytes` of `Wire`.
pub mod RoundTrip
pub mod Accepted
use mdictlib.Prelude.{
  ℕ, zero, suc, ◌+◌, Option, none, some, List, [], ◌∷◌, ltb, ◌==◌, if◌then◌else◌, length,
}
use mdictlib.Error.{Result, ok, err, ◌>>=◌, ◌>>◌, ok_or, fail_if, invalid_format, invalid_data, num}
use mdictlib.Limits.{checked_usize, checked_sub}
use mdictlib.Cursor.{Cursor, read_bytes, is_empty}
use mdictlib.Descriptors.{Text}
use mdictlib.RecordSection.{Wire, v1_wire, v2_wire, read_field}
use mdictlib.Encoding.{LegacyCodecs, TextEncoding, decode_text, split_terminated}

pub record DecodedKeyRow : Type 0 where
  pub key : Text
  pub record_start : ℕ

pub record KeyRowContext : Type 0 where
  pub encoding : TextEncoding
  pub expected_entries : ℕ
  pub total_decoded_record_len : ℕ

-- The variables of the loop; `decoded` is `entries.len()`.
pub record RowState : Type 0 where
  pub cursor : Cursor
  pub decoded : ℕ
  pub previous_record_start : Option ℕ

-- `if let Some(previous) = previous_record_start && previous > record_start`
unfoldable pub check_order : Option ℕ → ℕ → Result (Unit {0})
check_order none record_start = ok tt
check_order (some previous) record_start = fail_if (ltb record_start previous) (
    invalid_data "record starts decrease inside key block from {} to {}"
      (num previous ∷ num record_start ∷ []))

module _ (codecs : LegacyCodecs) (w : Wire) (context : KeyRowContext) where
  -- The text of a row, and the cursor behind it.
  unfoldable pub read_key : Cursor → Result (Text × Cursor)
  unfolding checked_sub
  read_key c = do
    (key_bytes, next_offset) ←
        split_terminated context.encoding c.bytes c.offset "key block entry key"
    key ← decode_text codecs context.encoding key_bytes "key block entry key"
    key_len ← ok_or (checked_sub next_offset c.offset) (invalid_format "key block cursor underflow")
    (_, c') ← read_bytes key_len "key block entry key bytes" c
    ok (key, c')

  -- One round of the loop.
  unfoldable pub key_row : ℕ → RowState → Result (DecodedKeyRow × RowState)
  key_row expected s = do
    fail_if (s.decoded == expected)
        (invalid_data "key block contains data after its declared {} entries" (num expected ∷ []))
    (record_start, c) ← read_field w "key block record offset" s.cursor
    fail_if (ltb context.total_decoded_record_len record_start) (
        invalid_data "record start {} exceeds total record bytes {}"
          (num record_start ∷ num context.total_decoded_record_len ∷ []))
    check_order s.previous_record_start record_start
    (key, c') ← read_key c
    ok (
      record { key = key; record_start = record_start },
      record { cursor = c'; decoded = s.decoded + 1; previous_record_start = some record_start },
    )

  -- The end of the loop.
  unfoldable pub check_count : ℕ → ℕ → Result (List DecodedKeyRow)
  check_count expected decoded =
      if decoded == expected
      then ok []
      else err (
          invalid_data "key block entry count mismatch: expected {}, decoded {}"
            (num expected ∷ num decoded ∷ []))

  -- `while !cursor.is_empty()`. A row takes a byte at least, so the length of the block is enough fuel.
  unfoldable pub key_rows : ℕ → ℕ → RowState → Result (List DecodedKeyRow)
  key_rows zero expected s = check_count expected s.decoded
  key_rows (suc fuel) expected s =
      if is_empty s.cursor
      then check_count expected s.decoded
      else (do (row, s') ← key_row expected s; rows ← key_rows fuel expected s'; ok (row ∷ rows))

  unfoldable pub decode_key_rows : List ℕ → Result (List DecodedKeyRow)
  decode_key_rows bytes = do
    expected ← checked_usize context.expected_entries "decoded key entry count"
    key_rows (length bytes) expected (record {
      cursor = record { bytes = bytes; offset = 0 };
      decoded = 0;
      previous_record_start = none;
    })

-- v1/keyword.rs and v2/keyword.rs
unfoldable pub decode_v1_key_rows :
    LegacyCodecs → KeyRowContext → List ℕ → Result (List DecodedKeyRow)
decode_v1_key_rows codecs context bytes = decode_key_rows codecs v1_wire context bytes

unfoldable pub decode_v2_key_rows :
    LegacyCodecs → KeyRowContext → List ℕ → Result (List DecodedKeyRow)
decode_v2_key_rows codecs context bytes = decode_key_rows codecs v2_wire context bytes
