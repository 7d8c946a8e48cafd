-- ===== src/KeywordIndex.antt =====
-- The keyword index of format/v1/keyword.rs and format/v2/keyword.rs: its limits and its rows.
pub mod Rows
use mdictlib.Prelude.{
  ℕ, zero, suc, Bool, true, false, not, Option, none, some, List, [], ◌∷◌, String, ltb, ◌==◌,
  if◌then◌else◌, length,
}
use mdictlib.Error.{
  Error, Result, ok, err, ◌>>=◌, ◌>>◌, ok_or, fail_if, invalid_format, invalid_data,
  checksum_mismatch, num,
}
use mdictlib.Limits.{
  checked_usize, checked_add, checked_mul, ensure_u64_ceiling, ensure_u64_limit, ensure_usize_limit,
}
use mdictlib.Bytes.{from_be, from_le}
use mdictlib.Checksum.{adler32}
use mdictlib.Compression.{ChecksumPolicy, is_skip}
use mdictlib.Cursor.{Cursor, read_bytes, read_u8, read_u16_be, is_empty, remaining}
use mdictlib.Descriptors.{Text, KeyBlockDescriptor}
use mdictlib.RecordSection.{Limits, Wire, v1_wire, v2_wire, read_field}
use mdictlib.Encoding.{LegacyCodecs, TextEncoding, unit_size, decode_text}

pub data KeywordIndexLayout : Type 0 where
  canonical legacy_little_endian_checksum_without_summary_terminators : KeywordIndexLayout

-- The version, and for version 2 the layout of the index.
pub data Grammar : Type 0 where
  version1 : Grammar
  version2 : KeywordIndexLayout → Grammar

unfoldable pub wire_of : Grammar → Wire
wire_of version1 = v1_wire
wire_of (version2 layout) = v2_wire

-- `detect_keyword_index_layout`
unfoldable pub detect_keyword_index_layout :
    List ℕ → List ℕ → ChecksumPolicy → Result KeywordIndexLayout
unfolding is_skip
detect_keyword_index_layout header checksum_bytes policy =
    if adler32 header == from_be checksum_bytes
    then ok canonical
    else if adler32 header == from_le checksum_bytes
    then ok legacy_little_endian_checksum_without_summary_terminators
    else if is_skip policy
    then ok canonical
    else err (checksum_mismatch "keyword section header" (from_be checksum_bytes) (adler32 header))

-- `mem::size_of::<KeyBlockDescriptor>()`: five `u64` and two `String`.
abbrev pub key_descriptor_bytes : ℕ
key_descriptor_bytes = 88

-- `MIN_KEY_INFO_ROW_LEN` of version 1 and `minimum_keyword_index_entry_bytes` of version 2.
unfoldable pub minimum_keyword_index_entry_bytes : TextEncoding → Grammar → Result ℕ
unfolding checked_add checked_mul unit_size
minimum_keyword_index_entry_bytes encoding version1 = ok 14
minimum_keyword_index_entry_bytes encoding (version2 canonical) = do
  terminators ←
      ok_or (checked_mul (unit_size encoding) 2)
        (invalid_format "keyword index entry size overflow")
  ok_or (checked_add 28 terminators) (invalid_format "keyword index entry size overflow")
minimum_keyword_index_entry_bytes encoding
      (version2 legacy_little_endian_checksum_without_summary_terminators) =
    do
      terminators ←
          ok_or (checked_mul (unit_size encoding) 0)
            (invalid_format "keyword index entry size overflow")
      ok_or (checked_add 28 terminators) (invalid_format "keyword index entry size overflow")

-- `validate_keyword_header_counts`
unfoldable pub validate_keyword_header_counts :
    Grammar → TextEncoding → ℕ → ℕ → ℕ → Limits → Result ℕ
unfolding checked_mul checked_usize ensure_usize_limit
validate_keyword_header_counts g encoding num_blocks num_entries index_len limits = do
  fail_if (ltb num_entries num_blocks) (
      invalid_data "keyword block count {} exceeds entry count {}"
        (num num_blocks ∷ num num_entries ∷ []))
  minimum_entry ← minimum_keyword_index_entry_bytes encoding g
  minimum_index_len ←
      ok_or (checked_mul num_blocks minimum_entry)
        (invalid_format "minimum keyword index length overflow")
  fail_if (ltb index_len minimum_index_len) (
      invalid_data "keyword index length {} cannot contain {} blocks"
        (num index_len ∷ num num_blocks ∷ []))
  num_blocks_usize ← checked_usize num_blocks "keyword block count"
  metadata_bytes ←
      ok_or (checked_mul num_blocks_usize key_descriptor_bytes)
        (invalid_format "keyword block metadata size overflow")
  ensure_usize_limit "keyword_block_metadata_bytes" metadata_bytes limits.block_metadata_bytes
  ok num_blocks_usize

-- `validate_key_block_sizes`
unfoldable pub validate_key_block_sizes :
    Wire → TextEncoding → ℕ → ℕ → ℕ → Limits → Result (Unit {0})
unfolding ensure_u64_ceiling ensure_u64_limit checked_add checked_mul
validate_key_block_sizes w encoding entry_count comp_size decomp_size limits = do
  fail_if (entry_count == 0) (invalid_data "keyword blocks must contain at least one entry" [])
  ensure_u64_ceiling "keyword_block_entries" entry_count limits.key_block_entries
  ensure_u64_limit "keyword_block_compressed_bytes" comp_size limits.compressed_block_bytes
  ensure_u64_limit "keyword_block_decompressed_bytes" decomp_size limits.decompressed_block_bytes
  fail_if (ltb comp_size 8)
      (invalid_data "keyword block is {} bytes; at least 8 are required" (num comp_size ∷ []))
  minimum_entry_bytes ←
      ok_or (checked_add w.field_bytes (unit_size encoding))
        (invalid_format "minimum keyword entry size overflow")
  minimum_decompressed_len ←
      ok_or (checked_mul entry_count minimum_entry_bytes)
        (invalid_format "minimum keyword block size overflow")
  fail_if (ltb decomp_size minimum_decompressed_len) (
      invalid_data "keyword block declares {} entries in {} decompressed bytes"
        (num entry_count ∷ num decomp_size ∷ []))

unfoldable pub all_zero : List ℕ → Bool
all_zero [] = true
all_zero (b ∷ bs) = if b == 0 then all_zero bs else false

module _ (codecs : LegacyCodecs) (encoding : TextEncoding) where
  -- The terminator behind a summary, where the layout has one.
  unfoldable pub read_terminator : KeywordIndexLayout → String → Error → Cursor → Result Cursor
  read_terminator canonical context bad c = do
    (terminator, c) ← read_bytes (unit_size encoding) context c
    fail_if (not (all_zero terminator)) bad
    ok c
  read_terminator legacy_little_endian_checksum_without_summary_terminators context bad c = ok c

  -- `read_summary` of version 1, and the summaries inside the loop of version 2.
  unfoldable pub read_summary :
      Grammar → String → String → String → Error → Cursor → Result (Text × Cursor)
  unfolding checked_mul
  read_summary version1 context too_long terminator bad c = do
    (units, c) ← read_u8 context c
    len ←
        ok_or (checked_mul units (unit_size encoding))
          (invalid_format "keyword summary length overflow")
    (bytes, c) ← read_bytes len context c
    key ← decode_text codecs encoding bytes context
    ok (key, c)
  read_summary (version2 layout) context too_long terminator bad c = do
    (units, c) ← read_u16_be context c
    len ← ok_or (checked_mul units (unit_size encoding)) (invalid_format too_long)
    (bytes, c) ← read_bytes len context c
    key ← decode_text codecs encoding bytes context
    c ← read_terminator layout terminator bad c
    ok (key, c)

-- The variables of the row loop, besides `blocks`.
pub record IndexState : Type 0 where
  pub cursor : Cursor
  pub comp_offset : ℕ
  pub entry_start_index : ℕ

module _ (codecs : LegacyCodecs) (g : Grammar) (encoding : TextEncoding) (limits : Limits) where
  -- One round of the row loop.
  unfoldable pub index_row : IndexState → Result (KeyBlockDescriptor × IndexState)
  unfolding checked_add validate_key_block_sizes
  index_row s = do
    (entry_count, c) ← read_field (wire_of g) "keyword block entry count" s.cursor
    (first_key, c) ←
        read_summary codecs encoding g "keyword block first key"
          "keyword block first key length overflow" "keyword block first key terminator"
          (invalid_format "invalid keyword block first-key terminator") c
    (last_key, c) ←
        read_summary codecs encoding g "keyword block last key"
          "keyword block last key length overflow" "keyword block last key terminator"
          (invalid_format "invalid keyword block last-key terminator") c
    (comp_size, c) ← read_field (wire_of g) "keyword block compressed size" c
    (decomp_size, c) ← read_field (wire_of g) "keyword block decompressed size" c
    validate_key_block_sizes (wire_of g) encoding entry_count comp_size decomp_size limits
    next_comp_offset ←
        ok_or (checked_add s.comp_offset comp_size) (invalid_format "keyword block offset overflow")
    next_entry_start_index ←
        ok_or (checked_add s.entry_start_index entry_count)
          (invalid_format "keyword entry index overflow")
    ok (
      record {
        entry_count = entry_count;
        entry_start_index = s.entry_start_index;
        first_key = first_key;
        last_key = last_key;
        comp_offset = s.comp_offset;
        comp_size = comp_size;
        decomp_size = decomp_size;
      },
      record {
        cursor = c;
        comp_offset = next_comp_offset;
        entry_start_index = next_entry_start_index;
      },
    )

  -- `for _ in 0..num_blocks`
  unfoldable pub index_rows : ℕ → IndexState → Result (List KeyBlockDescriptor × IndexState)
  index_rows zero s = ok ([], s)
  index_rows (suc n) s = do
    (block, s') ← index_row s
    (blocks, end) ← index_rows n s'
    ok (block ∷ blocks, end)

  unfoldable pub parse_keyword_index_entries : List ℕ → ℕ → ℕ → Result (List KeyBlockDescriptor)
  unfolding checked_mul checked_usize
  parse_keyword_index_entries bytes num_blocks key_blocks_offset = do
    minimum_entry ← minimum_keyword_index_entry_bytes encoding g
    minimum_usize ← checked_usize minimum_entry "minimum keyword index entry length"
    minimum_len ←
        ok_or (checked_mul num_blocks minimum_usize)
          (invalid_format "minimum keyword index length overflow")
    fail_if (ltb (length bytes) minimum_len) (
        invalid_data "keyword index has {} bytes but {} blocks require at least {}"
          (num (length bytes) ∷ num num_blocks ∷ num minimum_len ∷ []))
    (blocks, s) ← index_rows num_blocks (record {
      cursor = record { bytes = bytes; offset = 0 };
      comp_offset = key_blocks_offset;
      entry_start_index = 0;
    })
    fail_if (not (is_empty s.cursor))
        (invalid_data "keyword index has {} trailing bytes" (num (remaining s.cursor) ∷ []))
    ok blocks

-- The two checks of the header's totals behind the index, in `parse_keyword_section`.
unfoldable pub sum_sizes : List KeyBlockDescriptor → ℕ → Option ℕ
sum_sizes [] acc = some acc
sum_sizes (b ∷ bs) acc = elim (checked_add acc b.comp_size) [
  | none ↦ none
  | some acc' ↦ sum_sizes bs acc'
]

-- `blocks.last()`, and where its entries end.
unfoldable pub entries_end : List KeyBlockDescriptor → Result ℕ
unfolding checked_add
entries_end [] = ok 0
entries_end (b ∷ []) =
    ok_or (checked_add b.entry_start_index b.entry_count)
      (invalid_format "keyword entry count overflow")
entries_end (b ∷ b' ∷ bs) = entries_end (b' ∷ bs)

unfoldable pub check_totals : List KeyBlockDescriptor → ℕ → ℕ → Result (Unit {0})
check_totals blocks num_entries key_blocks_len = do
  total ← entries_end blocks
  fail_if (not (total == num_entries)) (
      invalid_data "keyword entry count mismatch: header={}, summed={}"
        (num num_entries ∷ num total ∷ []))
  total_comp ← ok_or (sum_sizes blocks 0) (invalid_format "keyword blocks length overflow")
  fail_if (not (total_comp == key_blocks_len)) (
      invalid_data "keyword blocks length mismatch: header={}, summed={}"
        (num key_blocks_len ∷ num total_comp ∷ []))
