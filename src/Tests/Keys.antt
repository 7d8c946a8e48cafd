-- ===== src/Tests/Keys.antt =====
-- Key blocks and a keyword index at concrete bytes.
use mdictlib.Prelude.{ℕ, List, [], ◌∷◌, none, ◌≡◌, refl, length, arith, inl, ◌+◌}
use mdictlib.Error.{ok}
use mdictlib.Descriptors.{KeyBlockDescriptor}
use mdictlib.Descriptors.Verify.{CoversKeys}
use mdictlib.RecordSection.{v1_wire, v2_wire, read_field}
use mdictlib.Encoding.{
  LegacyCodecs, malformed, utf8, utf16_le, decode_text, decode_utf8, utf8_step, decode_utf16,
  le_units, split_terminated, split_bytes, zero_byte, unit_size,
}
use mdictlib.KeyRows.{
  DecodedKeyRow, KeyRowContext, decode_key_rows, key_rows, key_row, read_key, check_order,
  check_count, decode_v1_key_rows, decode_v2_key_rows,
}
use mdictlib.KeyRows.RoundTrip.{
  WrittenRow, write_rows, rows_of, CanWrite, decode_v1_key_rows-write_rows,
  decode_v2_key_rows-write_rows,
}
use mdictlib.KeyRows.Accepted.{Ascending, decode_key_rows-Ascending}
use mdictlib.KeywordIndex.{
  version1, parse_keyword_index_entries, check_totals, entries_end, sum_sizes, index_rows,
  index_row, read_summary, minimum_keyword_index_entry_bytes, wire_of,
}
use mdictlib.KeywordIndex.Rows.{KeysLaidOut, parse_keyword_index_entries-CoversKeys}
use mdictlib.Limits.{checked_mul, checked_usize}
use mdictlib.Bytes.{to_be, from_be}
use mdictlib.Cursor.{is_empty, read_u8}
use mdictlib.Tests.Sample.{limits}

-- No text in a legacy encoding is decoded with these.
abbrev pub legacy : LegacyCodecs
legacy = record {
  max_output = λ encoding len. none;
  decode_to_string = λ encoding bytes. (malformed, 0, []);
}

abbrev utf8_context : KeyRowContext
utf8_context = record { encoding = utf8; expected_entries = 2; total_decoded_record_len = 70 }

abbrev utf16_context : KeyRowContext
utf16_context = record { encoding = utf16_le; expected_entries = 2; total_decoded_record_len = 70 }

-- "é" and "b" in UTF-8.
abbrev utf8_rows : List WrittenRow
utf8_rows =
    record { row = record { key = 233 ∷ []; record_start = 0 }; key_bytes = 195 ∷ 169 ∷ [] }
    ∷ record { row = record { key = 98 ∷ []; record_start = 30 }; key_bytes = 98 ∷ [] }
    ∷ []

-- U+1F600 and "b" in UTF-16LE.
abbrev utf16_rows : List WrittenRow
utf16_rows =
    record {
      row = record { key = 128512 ∷ []; record_start = 0 };
      key_bytes = 61 ∷ 216 ∷ 0 ∷ 222 ∷ [];
    }
    ∷ record { row = record { key = 98 ∷ []; record_start = 30 }; key_bytes = 98 ∷ 0 ∷ [] }
    ∷ []

CanWrite-utf8 : CanWrite legacy v1_wire utf8_context none utf8_rows
unfolding decode_text decode_utf8 utf8_step
CanWrite-utf8 = (
  tt,
  omega arith,
  omega arith,
  omega arith,
  refl,
  (omega arith, omega arith, omega arith, omega arith, refl, tt),
)

CanWrite-utf16 : CanWrite legacy v2_wire utf16_context none utf16_rows
unfolding decode_text decode_utf16 le_units checked_mul
CanWrite-utf16 = (
  tt,
  omega arith,
  omega arith,
  omega arith,
  refl,
  (omega arith, omega arith, omega arith, omega arith, refl, tt),
)

decode_v1_key_rows_example :
    decode_v1_key_rows legacy utf8_context (write_rows legacy v1_wire utf8_context utf8_rows)
    ≡ ok (rows_of legacy v1_wire utf8_context utf8_rows)
unfolding to_be unit_size
decode_v1_key_rows_example =
    decode_v1_key_rows-write_rows legacy utf8_context utf8_rows CanWrite-utf8 refl (omega arith)

decode_v2_key_rows_example :
    decode_v2_key_rows legacy utf16_context (write_rows legacy v2_wire utf16_context utf16_rows)
    ≡ ok (rows_of legacy v2_wire utf16_context utf16_rows)
unfolding to_be unit_size
decode_v2_key_rows_example =
    decode_v2_key_rows-write_rows legacy utf16_context utf16_rows CanWrite-utf16 refl (omega arith)

abbrev one_row : KeyRowContext
one_row = record { encoding = utf8; expected_entries = 1; total_decoded_record_len = 70 }

abbrev one_block : List ℕ
one_block = 0 ∷ 0 ∷ 0 ∷ 5 ∷ 98 ∷ 0 ∷ []

abbrev decoded_row : DecodedKeyRow
decoded_row = record { key = 98 ∷ []; record_start = 5 }

one_decoded : decode_v1_key_rows legacy one_row one_block ≡ ok (decoded_row ∷ [])
unfolding decode_v1_key_rows decode_key_rows key_rows key_row checked_usize is_empty read_field
    from_be check_order read_key split_terminated split_bytes zero_byte decode_text decode_utf8
    check_count
one_decoded = refl

accepted_example :
    (length (decoded_row ∷ []) ≡ one_row.expected_entries)
    × Ascending one_row.total_decoded_record_len none (decoded_row ∷ [])
accepted_example =
    decode_key_rows-Ascending legacy one_row one_block (decoded_row ∷ []) (inl one_decoded)

-- A version 1 index of one block, with the summaries "a" and "b".
abbrev index : List ℕ
index = 0 ∷ 0 ∷ 0 ∷ 2 ∷ 1 ∷ 97 ∷ 1 ∷ 98 ∷ 0 ∷ 0 ∷ 0 ∷ 20 ∷ 0 ∷ 0 ∷ 0 ∷ 30 ∷ []

abbrev index_block : KeyBlockDescriptor
index_block = record {
  entry_count = 2;
  entry_start_index = 0;
  first_key = 97 ∷ [];
  last_key = 98 ∷ [];
  comp_offset = 100;
  comp_size = 20;
  decomp_size = 30;
}

index_parsed :
    parse_keyword_index_entries legacy version1 utf8 limits index 1 100 ≡ ok (index_block ∷ [])
unfolding parse_keyword_index_entries index_rows index_row minimum_keyword_index_entry_bytes
    read_field wire_of read_summary read_u8 from_be decode_text decode_utf8 is_empty
index_parsed = refl

totals_agree : check_totals (index_block ∷ []) 2 20 ≡ ok tt
unfolding check_totals entries_end sum_sizes
totals_agree = refl

index_example :
    CoversKeys (index_block ∷ []) 0 2
    × KeysLaidOut limits (index_block ∷ []) 100 (100 + 20)
    × (length (index_block ∷ []) ≡ 1)
index_example =
    parse_keyword_index_entries-CoversKeys legacy version1 utf8 limits index 1 100 2 20
      (index_block ∷ []) index_parsed totals_agree
