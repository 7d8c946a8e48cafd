-- ===== src/IndexFormat.antt =====
-- core/persistent/format.rs: the layout of the sections of a persistent key index, when it is built and
-- when it is opened. The arrays over the four kinds of sections are lists in the order of the kinds.
pub mod Layout
use mdictlib.Prelude.{ℕ, ◌-◌, ◌/◌, ◌%◌, not, ◌||◌, List, [], ◌∷◌, String, ltb, ◌==◌, if◌then◌else◌}
use mdictlib.Error.{
  Error, Result, ok, ◌>>=◌, ◌>>◌, ok_or, fail_if, invalid_format, invalid_data, key_index_rejected,
  invalid_layout,
}
use mdictlib.Limits.{checked_add, checked_mul, ensure_u64_ceiling, ensure_usize_limit}

-- `HEADER_BYTES`
abbrev pub header_bytes : ℕ
header_bytes = 224

-- `checksums` is the number of the section's chunk checksums.
pub record SectionFile : Type 0 where
  pub len : ℕ
  pub checksums : ℕ

pub record SectionDescriptor : Type 0 where
  pub offset : ℕ
  pub len : ℕ
  pub checksum_start : ℕ
  pub checksum_count : ℕ

-- The fields of `IndexHeader` that describe the layout.
pub record IndexHeader : Type 0 where
  pub header_len : ℕ
  pub total_len : ℕ
  pub sections : List SectionDescriptor
  pub checksum_count : ℕ

-- `reject(KeyIndexRejection::InvalidLayout(context))`
abbrev pub reject_layout : String → Error
reject_layout context = key_index_rejected (invalid_layout context)

unfoldable pub chunk_count : ℕ → ℕ → Result ℕ
unfolding checked_add
chunk_count len chunk_bytes = do
  fail_if (chunk_bytes == 0) (reject_layout "chunk length is zero")
  (if len == 0 then ok 0 else (do
    value ← ok_or (checked_add len (chunk_bytes - 1)) (reject_layout "chunk count overflow")
    ok (value / chunk_bytes)))

-- `value & !7` of the sum with 7.
unfoldable pub align8 : ℕ → Result ℕ
unfolding checked_add
align8 value = do
  sum ← ok_or (checked_add value 7) (reject_layout "section alignment overflow")
  ok (sum - sum % 8)

-- The first loop of `build_header`.
unfoldable pub count_checksums : ℕ → List SectionFile → ℕ → Result ℕ
unfolding checked_add
count_checksums chunk_bytes [] count = ok count
count_checksums chunk_bytes (s ∷ ss) count = do
  expected ← chunk_count s.len chunk_bytes
  fail_if (not (s.checksums == expected))
      (invalid_format "key-index section checksum count mismatch")
  next ← ok_or (checked_add count s.checksums) (invalid_format "key-index checksum count overflow")
  count_checksums chunk_bytes ss next

-- The second loop of `build_header`: the descriptors, and the end of the last section.
unfoldable pub place_sections : List SectionFile → ℕ → ℕ → Result (List SectionDescriptor × ℕ)
unfolding checked_add
place_sections [] offset checksum_start = ok ([], offset)
place_sections (s ∷ ss) offset checksum_start = do
  aligned ← align8 offset
  next_start ←
      ok_or (checked_add checksum_start s.checksums)
        (invalid_format "key-index checksum index overflow")
  end ← ok_or (checked_add aligned s.len) (invalid_format "key-index section end overflow")
  (descriptors, total) ← place_sections ss end next_start
  ok (
    record {
      offset = aligned;
      len = s.len;
      checksum_start = checksum_start;
      checksum_count = s.checksums;
    }
        ∷ descriptors,
    total,
  )

-- The layout part of `build_header`; the encoding of the header behind it is left out.
unfoldable pub build_layout : ℕ → ℕ → ℕ → List SectionFile → Result IndexHeader
unfolding checked_add checked_mul ensure_u64_ceiling ensure_usize_limit
build_layout max_metadata_bytes max_index_bytes chunk_bytes sections = do
  fail_if (ltb 4294967295 chunk_bytes) (invalid_data "key-index chunk size exceeds u32" [])
  ensure_usize_limit "key_index_header_bytes" header_bytes max_metadata_bytes
  count ← count_checksums chunk_bytes sections 0
  checksum_bytes ← ok_or (checked_mul count 4) (invalid_format "key-index checksum table overflow")
  metadata_bytes ←
      ok_or (checked_add header_bytes checksum_bytes)
        (invalid_format "key-index metadata length overflow")
  ensure_u64_ceiling "key_index_metadata_bytes" metadata_bytes max_metadata_bytes
  offset ← align8 metadata_bytes
  (descriptors, total_len) ← place_sections sections offset 0
  ensure_u64_ceiling "key_index_bytes" total_len max_index_bytes
  ok (record {
    header_len = header_bytes;
    total_len = total_len;
    sections = descriptors;
    checksum_count = count;
  })

-- The loop of `parse_header` over the checksum ranges.
unfoldable pub check_checksums : ℕ → List SectionDescriptor → ℕ → Result ℕ
unfolding checked_add
check_checksums chunk_bytes [] expected = ok expected
check_checksums chunk_bytes (d ∷ ds) expected = do
  fail_if (not (d.checksum_start == expected)) (reject_layout "checksum ranges are not contiguous")
  count ← chunk_count d.len chunk_bytes
  fail_if (not (d.checksum_count == count)) (reject_layout "section checksum count is inconsistent")
  next ← ok_or (checked_add expected d.checksum_count) (reject_layout "checksum count overflow")
  check_checksums chunk_bytes ds next

-- The loop of `validate_section_layout`.
unfoldable pub validate_sections : ℕ → List SectionDescriptor → ℕ → Result ℕ
unfolding checked_add
validate_sections source_len [] cursor = ok cursor
validate_sections source_len (d ∷ ds) cursor = do
  aligned ← align8 cursor
  fail_if (not (d.offset == aligned) || not (d.offset % 8 == 0))
      (reject_layout "sections are not ordered and aligned")
  end ← ok_or (checked_add d.offset d.len) (reject_layout "section end overflow")
  fail_if (ltb source_len end) (reject_layout "section exceeds file length")
  validate_sections source_len ds end

unfoldable pub first_cursor : ℕ → Result ℕ
first_cursor cursor = if cursor % 8 == 0 then ok cursor else align8 cursor

unfoldable pub validate_section_layout : ℕ → IndexHeader → Result (Unit {0})
unfolding checked_add checked_mul
validate_section_layout source_len header = do
  checksum_bytes ←
      ok_or (checked_mul header.checksum_count 4) (reject_layout "checksum table overflow")
  table_end ←
      ok_or (checked_add header.header_len checksum_bytes)
        (reject_layout "checksum table end overflow")
  cursor ← first_cursor table_end
  end ← validate_sections source_len header.sections cursor
  fail_if (not (end == header.total_len))
      (reject_layout "last section does not end at total length")
