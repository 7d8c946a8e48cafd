-- ===== src/KeyRows/RoundTrip.antt =====
-- The rows that were written into a key block are read back from it.
use mdictlib.Prelude.{
  ℕ, zero, suc, ◌+◌, ◌^◌, ◌≤◌, ◌<◌, ◌==◌, ltb, true, false, Option, none, some, List, [], ◌∷◌, ◌++◌,
  length, length-append, length-replicate, append_assoc, ◌≡◌, refl, sym, ap, ◌∙◌, arith,
}
use mdictlib.Error.{ok}
use mdictlib.Limits.{u64_max, checked_usize, checked_sub}
use mdictlib.Bytes.{to_be, length-to_be}
use mdictlib.Cursor.{Cursor, is_empty}
use mdictlib.Cursor.Laws.{read_be-to_be, read_bytes_fits}
use mdictlib.Descriptors.{Text}
use mdictlib.RecordSection.{Wire, v1_wire, v2_wire, read_field}
use mdictlib.Encoding.{
  LegacyCodecs, TextEncoding, utf8, utf16_le, gbk, gb18030, big5, unit_size, decode_text,
}
use mdictlib.Encoding.Split.{terminator, Unterminated, split_terminated-ok}
use mdictlib.KeyRows.{
  DecodedKeyRow, KeyRowContext, check_order, read_key, key_row, check_count, key_rows,
  decode_key_rows, decode_v1_key_rows, decode_v2_key_rows,
}

-- A row and the bytes of its key.
pub record WrittenRow : Type 0 where
  pub row : DecodedKeyRow
  pub key_bytes : List ℕ

module _ (codecs : LegacyCodecs) (w : Wire) (context : KeyRowContext) where
  -- The block format: the offset, the key, a terminator.
  abbrev pub write_row : WrittenRow → List ℕ
  write_row r =
      to_be w.field_bytes r.row.record_start ++ (r.key_bytes ++ terminator context.encoding)

  abbrev pub write_rows : List WrittenRow → List ℕ
  write_rows [] = []
  write_rows (r ∷ rs) = write_row r ++ write_rows rs

  abbrev pub rows_of : List WrittenRow → List DecodedKeyRow
  rows_of [] = []
  rows_of (r ∷ rs) = r.row ∷ rows_of rs

  abbrev pub Precedes : Option ℕ → ℕ → Type 0
  Precedes none start = Unit {0}
  Precedes (some previous) start = previous ≤ start

  -- The rows can be written: the offsets fit, do not decrease and stay inside the stream, and the
  -- bytes of a key are an encoding of it without a terminator.
  abbrev pub CanWrite : Option ℕ → List WrittenRow → Type 0
  CanWrite previous [] = Unit {0}
  CanWrite previous (r ∷ rs) =
      Precedes previous r.row.record_start
      × (r.row.record_start ≤ context.total_decoded_record_len)
      × (r.row.record_start < 256 ^ w.field_bytes)
      × Unterminated context.encoding r.key_bytes
      × (decode_text codecs context.encoding r.key_bytes "key block entry key" ≡ ok r.row.key)
      × CanWrite (some r.row.record_start) rs

  -- The cursor of a block in two parts, between them.
  abbrev at : List ℕ → List ℕ → Cursor
  at before after = record { bytes = before ++ after; offset = length before }

  unit_size_bounds : (encoding : TextEncoding) → (1 ≤ unit_size encoding) × (unit_size encoding ≤ 2)
  unfolding unit_size
  unit_size_bounds utf8 = omega arith
  unit_size_bounds utf16_le = omega arith
  unit_size_bounds gbk = omega arith
  unit_size_bounds gb18030 = omega arith
  unit_size_bounds big5 = omega arith

  length-terminator : (encoding : TextEncoding) → length (terminator encoding) ≡ unit_size encoding
  length-terminator encoding = length-replicate (unit_size encoding) 0

  read_key-ok :
      (before key_bytes after : List ℕ) (key : Text)
      → Unterminated context.encoding key_bytes
      → decode_text codecs context.encoding key_bytes "key block entry key" ≡ ok key
      → length before + length key_bytes + 2 ≤ u64_max
      → read_key codecs w context (at before (key_bytes ++ (terminator context.encoding ++ after)))
        ≡ ok (
          key,
          record {
            bytes = before ++ (key_bytes ++ (terminator context.encoding ++ after));
            offset = length before + (length key_bytes + unit_size context.encoding);
          },
        )
  unfolding read_key checked_sub
  read_key-ok before key_bytes after key h d m =
      let units = unit_size_bounds context.encoding in
      let n = length key_bytes + unit_size context.encoding in
      let len : checked_sub (length before + length key_bytes + unit_size context.encoding)
            (length before)
          ≡ some n =
        ground arith in
      rw
        (
          split_terminated-ok context.encoding before key_bytes after "key block entry key" h m,
          d,
          len,
          read_bytes_fits n "key block entry key bytes"
              (at before (key_bytes ++ (terminator context.encoding ++ after))) (omega arith)
              (omega (
                arith,
                length-append before (key_bytes ++ (terminator context.encoding ++ after)),
                length-append key_bytes (terminator context.encoding ++ after),
                length-append (terminator context.encoding) after,
                length-terminator context.encoding,
              )),
        )
        refl

  length-write_row :
      (r : WrittenRow)
      → length (write_row r) ≡ w.field_bytes + (length r.key_bytes + unit_size context.encoding)
  length-write_row r = omega (
    arith,
    length-append (to_be w.field_bytes r.row.record_start)
        (r.key_bytes ++ terminator context.encoding),
    length-append r.key_bytes (terminator context.encoding),
    length-terminator context.encoding,
    length-to_be w.field_bytes r.row.record_start,
  )

  -- The parts of a block around a row.
  parts :
      (r : WrittenRow) (after : List ℕ)
      → write_row r ++ after
        ≡ to_be w.field_bytes r.row.record_start
          ++ (r.key_bytes ++ (terminator context.encoding ++ after))
  parts r after =
      append_assoc (to_be w.field_bytes r.row.record_start)
        (r.key_bytes ++ terminator context.encoding) after
      ∙ ap (λ t. to_be w.field_bytes r.row.record_start ++ t)
          (append_assoc r.key_bytes (terminator context.encoding) after)

  cursor_eq :
      {xs ys : List ℕ} {i j : ℕ}
      → xs ≡ ys
      → i ≡ j
      → ◌≡◌ {A = Cursor} (record { bytes = xs; offset = i }) (record { bytes = ys; offset = j })
  cursor_eq p q = cc

  check_order-ok :
      (previous : Option ℕ) (start : ℕ)
      → Precedes previous start
      → check_order previous start ≡ ok tt
  unfolding check_order
  check_order-ok none start h = refl
  check_order-ok (some previous) start h =
      let off : ltb start previous ≡ false = ground arith in rw off refl

  key_row-ok :
      (expected decoded : ℕ) (previous : Option ℕ) (before after : List ℕ) (r : WrittenRow)
      → decoded < expected
      → Precedes previous r.row.record_start
      → r.row.record_start ≤ context.total_decoded_record_len
      → r.row.record_start < 256 ^ w.field_bytes
      → Unterminated context.encoding r.key_bytes
      → decode_text codecs context.encoding r.key_bytes "key block entry key" ≡ ok r.row.key
      → length before + length (write_row r) + 2 ≤ u64_max
      → key_row codecs w context expected (record {
        cursor = at before (write_row r ++ after);
        decoded = decoded;
        previous_record_start = previous;
      })
        ≡ ok (
          r.row,
          record {
            cursor = at (before ++ write_row r) after;
            decoded = decoded + 1;
            previous_record_start = some r.row.record_start;
          },
        )
  unfolding key_row read_field
  key_row-ok expected decoded previous before after r more order inside small clean d m =
      let start = to_be w.field_bytes r.row.record_start in
      let rest = r.key_bytes ++ (terminator context.encoding ++ after) in
      let open_ended : (decoded == expected) ≡ false = ground arith in
      let bounded : ltb context.total_decoded_record_len r.row.record_start ≡ false =
        ground arith in
      let size = length-write_row r in
      let first = length-append before start in
      let width = length-to_be w.field_bytes r.row.record_start in
      let whole = length-append before (write_row r) in
      let n = length r.key_bytes + unit_size context.encoding in
      let moved_in : ◌≡◌ {A = Cursor}
          (record { bytes = before ++ (start ++ rest); offset = length before + w.field_bytes })
          (at (before ++ start) rest) =
        cursor_eq (sym (append_assoc before start rest)) (omega arith) in
      let moved_out : ◌≡◌ {A = Cursor}
          (record { bytes = (before ++ start) ++ rest; offset = length (before ++ start) + n })
          (at (before ++ write_row r) after) =
        cursor_eq
          (append_assoc before start rest
            ∙ ap (λ t. before ++ t) (sym (parts r after))
            ∙ sym (append_assoc before (write_row r) after))
          (omega arith) in
      rw
        (
          open_ended,
          parts r after,
          read_be-to_be w.field_bytes r.row.record_start "key block record offset" before rest small
              (omega arith),
          bounded,
          check_order-ok previous r.row.record_start order,
          moved_in,
          read_key-ok (before ++ start) r.key_bytes after r.row.key clean d (omega arith),
          moved_out,
        )
        refl

  not_empty :
      (r : WrittenRow) (before after : List ℕ) → is_empty (at before (write_row r ++ after)) ≡ false
  unfolding is_empty
  not_empty r before after =
      let units = unit_size_bounds context.encoding in
      let size = length-write_row r in
      ground (arith, length-append before (write_row r ++ after), length-append (write_row r) after)

  ended : (before : List ℕ) → is_empty (at before []) ≡ true
  unfolding is_empty
  ended before = ground (arith, length-append before [])

  key_rows-ok :
      (rs : List WrittenRow) (fuel decoded : ℕ) (previous : Option ℕ) (before : List ℕ)
      → CanWrite previous rs
      → length (write_rows rs) ≤ fuel
      → length before + length (write_rows rs) + 2 ≤ u64_max
      → key_rows codecs w context fuel (decoded + length rs) (record {
        cursor = at before (write_rows rs);
        decoded = decoded;
        previous_record_start = previous;
      })
        ≡ ok (rows_of rs)
  unfolding key_rows check_count
  key_rows-ok [] zero decoded previous before h f m =
      let all : (decoded == decoded + 0) ≡ true = ground arith in rw all refl
  key_rows-ok [] (suc fuel) decoded previous before h f m =
      let all : (decoded == decoded + 0) ≡ true = ground arith in rw (ended before, all) refl
  key_rows-ok (r ∷ rs) zero decoded previous before h f m =
      let size = length-write_row r in
      let units = unit_size_bounds context.encoding in
      absurd (omega (arith, length-append (write_row r) (write_rows rs)))
  key_rows-ok (r ∷ rs) (suc fuel) decoded previous before
        (order, inside, small, clean, d, next_rows) f m =
      let size = length-write_row r in
      let units = unit_size_bounds context.encoding in
      let total = length-append (write_row r) (write_rows rs) in
      let moved = length-append before (write_row r) in
      let count : decoded + suc (length rs) ≡ decoded + 1 + length rs = omega arith in
      rw
        (
          not_empty r before (write_rows rs),
          key_row-ok (decoded + suc (length rs)) decoded previous before (write_rows rs) r
              (omega arith) order inside small clean d (omega arith),
          count,
          key_rows-ok rs fuel (decoded + 1) (some r.row.record_start) (before ++ write_row r)
              next_rows (omega arith) (omega arith),
        )
        refl

  length-write_rows : (rs : List WrittenRow) → length rs ≤ length (write_rows rs)
  length-write_rows [] = omega arith
  length-write_rows (r ∷ rs) =
      let units = unit_size_bounds context.encoding in
      omega (
        arith,
        length-append (write_row r) (write_rows rs),
        length-write_row r,
        length-write_rows rs,
      )

  decode_key_rows-ok :
      (rs : List WrittenRow)
      → CanWrite none rs
      → context.expected_entries ≡ length rs
      → length (write_rows rs) + 2 ≤ u64_max
      → decode_key_rows codecs w context (write_rows rs) ≡ ok (rows_of rs)
  unfolding decode_key_rows checked_usize
  decode_key_rows-ok rs h n m =
      let small = length-write_rows rs in
      let expected : checked_usize context.expected_entries "decoded key entry count"
          ≡ ok (0 + length rs) =
        ground arith in
      rw (expected, key_rows-ok rs (length (write_rows rs)) 0 none [] h (omega arith) (omega arith))
        refl

-- Rows that can be written are read back exactly by the version 1 decoder, which reads four-byte
-- offsets: the offsets fit and do not decrease, no key holds a terminator, and the declared count is
-- theirs.
pub decode_v1_key_rows-write_rows :
    (codecs : LegacyCodecs) (context : KeyRowContext) (rs : List WrittenRow)
    → CanWrite codecs v1_wire context none rs
    → context.expected_entries ≡ length rs
    → length (write_rows codecs v1_wire context rs) + 2 ≤ u64_max
    → decode_v1_key_rows codecs context (write_rows codecs v1_wire context rs)
      ≡ ok (rows_of codecs v1_wire context rs)
unfolding decode_v1_key_rows
decode_v1_key_rows-write_rows codecs context rs h n m =
    decode_key_rows-ok codecs v1_wire context rs h n m

-- Rows that can be written are read back exactly by the version 2 decoder, which reads eight-byte
-- offsets: the offsets fit and do not decrease, no key holds a terminator, and the declared count is
-- theirs.
pub decode_v2_key_rows-write_rows :
    (codecs : LegacyCodecs) (context : KeyRowContext) (rs : List WrittenRow)
    → CanWrite codecs v2_wire context none rs
    → context.expected_entries ≡ length rs
    → length (write_rows codecs v2_wire context rs) + 2 ≤ u64_max
    → decode_v2_key_rows codecs context (write_rows codecs v2_wire context rs)
      ≡ ok (rows_of codecs v2_wire context rs)
unfolding decode_v2_key_rows
decode_v2_key_rows-write_rows codecs context rs h n m =
    decode_key_rows-ok codecs v2_wire context rs h n m
