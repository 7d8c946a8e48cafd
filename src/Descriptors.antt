-- ===== src/Descriptors.antt =====
-- format/common/descriptors.rs: the geometry that a wire grammar hands to the core, its check
-- `ValidatedLayout::verify`, and the search for the block of a record offset.
-- A text is the list of its Unicode scalar values.
pub mod Search
pub mod Verify
use mdictlib.Prelude.{
  ℕ, zero, suc, ◌+◌, ◌/◌, String, not, Option, none, some, List, [], ◌∷◌, ltb, leb, ◌==◌,
  if◌then◌else◌, length, get_elem?,
}
use mdictlib.Error.{Result, ok, ◌>>=◌, ◌>>◌, fail_if, ok_or, num, str, invalid_format, invalid_data}
use mdictlib.Limits.{checked_add}

abbrev pub Text : Type 0
Text = List ℕ

pub record SectionRange : Type 0 where
  pub offset : ℕ
  pub len : ℕ

-- `SectionRange::end`
unfoldable pub section_end : SectionRange → Result ℕ
unfolding checked_add
section_end s = ok_or (checked_add s.offset s.len) (invalid_format "section range end overflow")

pub record SectionRanges : Type 0 where
  pub header : SectionRange
  pub keyword_header : SectionRange
  pub keyword_index : SectionRange
  pub keyword_blocks : SectionRange
  pub record_header : SectionRange
  pub record_index : SectionRange
  pub record_blocks : SectionRange

abbrev pub ordered : SectionRanges → List (String × SectionRange)
ordered r =
    ("header", r.header)
    ∷ ("keyword header", r.keyword_header)
    ∷ ("keyword index", r.keyword_index)
    ∷ ("keyword blocks", r.keyword_blocks)
    ∷ ("record header", r.record_header)
    ∷ ("record index", r.record_index)
    ∷ ("record blocks", r.record_blocks)
    ∷ []

-- The loop of `verify_contiguous`, over the sections that are left.
unfoldable pub verify_sections : List (String × SectionRange) → String → ℕ → Result (Unit {0})
unfolding section_end
verify_sections [] expected cursor = ok tt
verify_sections ((name, section) ∷ rest) expected cursor = do
  fail_if (not (section.offset == cursor)) (
      invalid_data "{} section starts at {} but {} ended at {}"
        (str name ∷ num section.offset ∷ str expected ∷ num cursor ∷ []))
  cursor' ← section_end section
  verify_sections rest name cursor'

unfoldable pub verify_contiguous : SectionRanges → Result (Unit {0})
verify_contiguous r = verify_sections (ordered r) "header" r.header.offset

pub record KeyBlockDescriptor : Type 0 where
  pub entry_count : ℕ
  pub entry_start_index : ℕ
  pub first_key : Text
  pub last_key : Text
  pub comp_offset : ℕ
  pub comp_size : ℕ
  pub decomp_size : ℕ

pub record RecordBlockDescriptor : Type 0 where
  pub comp_offset : ℕ
  pub comp_size : ℕ
  pub decomp_offset : ℕ
  pub decomp_size : ℕ

-- What `find_record_block` learns from one probe.
pub data Probe : Type 0 where
  overflow below above hit : Probe

unfoldable pub probe : ℕ → ℕ → ℕ → Probe
unfolding checked_add
probe start size target = elim (checked_add start size) [
  | none ↦ overflow
  | some end ↦ if ltb target start then below else if leb end target then above else hit
]

-- The loop of `find_record_block`. The fuel is at least the width of the range in every call.
unfoldable pub find_record_loop : List RecordBlockDescriptor → ℕ → ℕ → ℕ → ℕ → Option ℕ
unfolding probe
find_record_loop blocks target zero left right = none
find_record_loop blocks target (suc fuel) left right =
    let mid = (left + right) / 2 in
    let lower = find_record_loop blocks target fuel left mid in
    let upper = find_record_loop blocks target fuel (mid + 1) right in
    if ltb left right
    then elim (get_elem? blocks mid) [
      | none ↦ none
      | some block ↦ elim (probe block.decomp_offset block.decomp_size target) [
        | overflow ↦ none
        | below ↦ lower
        | above ↦ upper
        | hit ↦ some mid
      ]
    ]
    else none

unfoldable pub find_record_block : List RecordBlockDescriptor → ℕ → Option ℕ
unfolding find_record_loop
find_record_block blocks record_offset =
    find_record_loop blocks record_offset (suc (length blocks)) 0 (length blocks)

-- The two block loops of `ValidatedLayout::verify`.
unfoldable pub verify_key_blocks : List KeyBlockDescriptor → ℕ → Result ℕ
unfolding checked_add
verify_key_blocks [] expected_start = ok expected_start
verify_key_blocks (block ∷ blocks) expected_start = do
  fail_if (not (block.entry_start_index == expected_start)) (
      invalid_data "key block starts at ordinal {} but {} was expected"
        (num block.entry_start_index ∷ num expected_start ∷ []))
  next ←
      ok_or (checked_add block.entry_start_index block.entry_count)
        (invalid_format "keyword entry count overflow")
  verify_key_blocks blocks next

unfoldable pub verify_record_blocks : List RecordBlockDescriptor → ℕ → Result ℕ
unfolding checked_add
verify_record_blocks [] expected_offset = ok expected_offset
verify_record_blocks (block ∷ blocks) expected_offset = do
  fail_if (not (block.decomp_offset == expected_offset)) (
      invalid_data "record block starts at {} but {} was expected"
        (num block.decomp_offset ∷ num expected_offset ∷ []))
  next ←
      ok_or (checked_add block.decomp_offset block.decomp_size)
        (invalid_format "record block offset overflow")
  verify_record_blocks blocks next

-- The geometry of `ValidatedLayout`.
pub record ValidatedLayout : Type 0 where
  pub sections : SectionRanges
  pub total_entries : ℕ
  pub total_decoded_record_len : ℕ
  pub key_blocks : List KeyBlockDescriptor
  pub record_blocks : List RecordBlockDescriptor

unfoldable pub verify : ValidatedLayout → Result (Unit {0})
verify l = do
  verify_contiguous l.sections
  entries ← verify_key_blocks l.key_blocks 0
  fail_if (not (entries == l.total_entries)) (
      invalid_data "key blocks cover {} entries but {} were declared"
        (num entries ∷ num l.total_entries ∷ []))
  bytes ← verify_record_blocks l.record_blocks 0
  fail_if (not (bytes == l.total_decoded_record_len)) (
      invalid_data "record blocks cover {} bytes but {} were declared"
        (num bytes ∷ num l.total_decoded_record_len ∷ []))
