-- ===== src/Header/Section.antt =====
-- format/common/header.rs: the header section around its tag.
use mdictlib.Prelude.{ℕ, ◌+◌, ◌/◌, ◌%◌, min, not, none, some, List, ◌==◌, if◌then◌else◌}
use mdictlib.Error.{Result, ok, ok_or, fail_if, invalid_format}
use mdictlib.Error.{◌>>=◌ as and_then}
use mdictlib.Limits.{checked_add, checked_mul, checked_usize, ensure_u64_limit, u64_max}
use mdictlib.Budget.Memory.{MemoryM, lift, ◌>>=◌, with_reserved}
use mdictlib.Cursor.{Cursor, read_u32_be, read_u32_le, read_bytes}
use mdictlib.Cursor
use mdictlib.Checksum.{verify_adler32}
use mdictlib.Source.{FileSource, ensure_range, read_exact_at}
use mdictlib.RecordSection.{Limits}
use mdictlib.Compression.{ChecksumPolicy, is_skip}
use mdictlib.Encoding.{LegacyCodecs, utf16_le, decode_text}
use mdictlib.Texts.{trim, trim_matches}
use mdictlib.Header.{parse_single_tag}
use mdictlib.Header.Metadata.{ContainerKind, HeaderSection, build_header_section}

-- `size_of::<(String, String)>()` and `size_of::<Header>()`.
abbrev pub attribute_bytes : ℕ
attribute_bytes = 48

abbrev pub header_record_bytes : ℕ
header_record_bytes = 296

unfoldable pub header_memory_estimate : ℕ → Limits → Result ℕ
header_memory_estimate xml_len limits =
    let possible_attributes = min limits.header_attributes (min (xml_len / 4 + 1) u64_max) in
    ok_or
      (elim (checked_mul xml_len 8) [
        | none ↦ none
        | some bytes ↦ elim (checked_mul possible_attributes attribute_bytes) [
          | none ↦ none
          | some attributes ↦ elim (checked_add bytes attributes) [
            | none ↦ none
            | some sum ↦ checked_add sum header_record_bytes
          ]
        ]
      ])
      (invalid_format "header memory estimate overflow")

-- `is_multiple_of(2)`
unfoldable pub check_alignment : ℕ → Result (Unit {0})
check_alignment xml_len =
    fail_if (not (xml_len % 2 == 0)) (invalid_format "header XML length is not UTF-16LE aligned")

-- `if checksum_policy == ChecksumPolicy::Verify`
unfoldable pub check_header_checksum : ChecksumPolicy → List ℕ → ℕ → Result (Unit {0})
check_header_checksum policy xml_bytes expected =
    if is_skip policy then ok tt else verify_adler32 "header xml" xml_bytes expected

module _ (legacy : LegacyCodecs) (kind : ContainerKind) (limits : Limits)
    (policy : ChecksumPolicy) where
  -- `parse_header_bytes_with_limits`, behind its reservation.
  unfoldable pub parse_xml : Cursor → ℕ → ℕ → Result HeaderSection
  parse_xml cursor xml_len retained_bytes =
      and_then (read_bytes xml_len "header xml" cursor) (λ xml.
        and_then (read_u32_le "header checksum" xml.1) (λ checksum.
          and_then (check_header_checksum policy xml.0 checksum.0) (λ _.
            and_then (decode_text legacy utf16_le xml.0 "header xml") (λ decoded_xml.
              let raw_xml = trim (trim_matches (λ c. c == 0) decoded_xml) in
              and_then (parse_single_tag limits.header_attributes raw_xml)
                (λ tag. build_header_section kind xml_len raw_xml tag.0 tag.1 retained_bytes)))))

  unfoldable pub parse_header_bytes_with_limits : List ℕ → MemoryM HeaderSection
  parse_header_bytes_with_limits bytes = do
    (xml_len, cursor) ← lift (read_u32_be "header length" (Cursor.new bytes))
    _ ← lift (ensure_u64_limit "header_xml_bytes" xml_len limits.header_xml_bytes)
    _ ← lift (check_alignment xml_len)
    xml_len_usize ← lift (checked_usize xml_len "header XML length")
    retained_bytes ← lift (header_memory_estimate xml_len_usize limits)
    with_reserved retained_bytes (lift (parse_xml cursor xml_len_usize retained_bytes))

  -- `total_len` of `parse_header`.
  unfoldable pub header_total_len : ℕ → Result ℕ
  header_total_len xml_len =
      and_then (ok_or (checked_add 4 xml_len) (invalid_format "header size overflow"))
        (λ before. ok_or (checked_add before 4) (invalid_format "header size overflow"))

  unfoldable pub parse_header : FileSource → MemoryM HeaderSection
  parse_header source = with_reserved 4 (do
    len_bytes ← lift (read_exact_at source 0 4 "header length")
    (xml_len, cursor) ← lift (read_u32_be "header length" (Cursor.new len_bytes))
    _ ← lift (ensure_u64_limit "header_xml_bytes" xml_len limits.header_xml_bytes)
    _ ← lift (check_alignment xml_len)
    total_len ← lift (header_total_len xml_len)
    _ ← lift (ensure_range source 0 total_len "header section")
    total_len_usize ← lift (checked_usize total_len "header section length")
    with_reserved total_len_usize (do
      bytes ← lift (read_exact_at source 0 total_len_usize "header section")
      parse_header_bytes_with_limits bytes))
