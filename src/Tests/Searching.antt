-- ===== src/Tests/Searching.antt =====
-- Normal forms, the searches, URLs and the index layout at concrete values.
use mdictlib.RecordSpans.{RecordDescriptor, record_at_ordinal}
use mdictlib.RecordSpans.Adjoin.{record_at_ordinal-adjoin}
use mdictlib.KeyEntries.{key_entry_at_ordinal}
use mdictlib.Prelude.{
  ℕ, zero, suc, ◌+◌, ◌-◌, map, Bool, true, false, List, [], ◌∷◌, ◌++◌, none, some, get_elem?,
  length, ◌≡◌, ◌⊎◌, inl, refl, arith, ◌<◌, ◌≤◌, if◌then◌else◌, ◌==◌,
}
use mdictlib.Limits.{u64_max}
use mdictlib.Error.{Result, ok, err, invalid_format}
use mdictlib.Descriptors.{Text, KeyBlockDescriptor}
use mdictlib.CaseVariants.{equal_texts, ascii_lower}
use mdictlib.Encoding.{decode_utf8, utf8_step}
use mdictlib.Normalize.{
  KeyNormalizer, normalize, normalize_into, normalize_bytes_into, normalized_len, encode_all,
  normalize_bytes_loop, push_bytes, skips, retains, separated, encode_utf8, is_ascii_alphanumeric,
}
use mdictlib.Normalize.Agreement.{normalized_len-normalize}
use mdictlib.KeySearch.{find_key_block_by_ordinal}
use mdictlib.KeySearch.Found.{Numbers, find_key_block_by_ordinal-Numbers}
use mdictlib.KeyRows.{DecodedKeyRow}
use mdictlib.KeyEntries.{key_at_ordinal}
use mdictlib.KeyEntries.Complete.{key_at_ordinal-Numbers}
use mdictlib.Iteration.{new_iter, start_of}
use mdictlib.Iteration.Complete.{listing, collect, collect-new_iter}
use mdictlib.FileUrl.{scheme, resolve, windows_drive_path}
use mdictlib.FileUrl.Decoding.{percent_encode, resolve-percent_encode}
use mdictlib.Locator.{KeyLocator, row_text, text_lt, equal_range}
use mdictlib.Locator.Range.{IsSorted, in_range, equal_range-in_range}
use mdictlib.IndexFormat.{
  SectionFile, SectionDescriptor, IndexHeader, build_layout, check_checksums,
  validate_section_layout, count_checksums, place_sections, chunk_count, align8,
}
use mdictlib.IndexFormat.Layout.{build_layout-validate_section_layout}

abbrev same_letter : ℕ → Text
same_letter c = c ∷ []

-- Case is folded and a leading separator of the path is left out.
abbrev resource_names : KeyNormalizer
resource_names = record { case_sensitive = false; strip_profile = false; resource_path = true }

-- "/Aé"
abbrev raw_key : Text
raw_key = 47 ∷ 65 ∷ 233 ∷ []

raw_key-fits : length (normalize_bytes_into same_letter resource_names raw_key []) ≤ u64_max
unfolding normalize_bytes_into normalize_bytes_loop skips retains separated push_bytes encode_utf8
    is_ascii_alphanumeric ascii_lower
raw_key-fits = omega arith

normalized_len_example :
    (normalize_bytes_into same_letter resource_names raw_key []
      ≡ encode_all same_letter resource_names
          (normalize_into same_letter resource_names raw_key []))
    × (normalized_len same_letter resource_names raw_key
        ≡ ok (length (normalize_bytes_into same_letter resource_names raw_key [])))
    × (normalize same_letter resource_names raw_key
        ≡ ok (normalize_into same_letter resource_names raw_key []))
normalized_len_example = normalized_len-normalize same_letter resource_names raw_key raw_key-fits

abbrev key_block : ℕ → ℕ → KeyBlockDescriptor
key_block start count = record {
  entry_count = count;
  entry_start_index = start;
  first_key = 97 ∷ [];
  last_key = 99 ∷ [];
  comp_offset = 100;
  comp_size = 40;
  decomp_size = 60;
}

abbrev key_blocks : List KeyBlockDescriptor
key_blocks = key_block 0 3 ∷ key_block 3 2 ∷ []

find_key_block_example :
    ((4 < 5)
      × (k : ℕ) × (b : KeyBlockDescriptor) × (find_key_block_by_ordinal key_blocks 4 ≡ ok (some k))
      × (get_elem? key_blocks k ≡ some b)
      × Numbers b 4)
    ⊎ ((5 ≤ 4) × (find_key_block_by_ordinal key_blocks 4 ≡ ok none))
find_key_block_example =
    find_key_block_by_ordinal-Numbers key_blocks 5 4 (refl, (refl, (refl, omega arith)))

abbrev row_at : ℕ → DecodedKeyRow
row_at start = record { key = 97 ∷ []; record_start = start }

-- The rows of the two blocks.
abbrev decode_rows : ℕ → Result (List DecodedKeyRow)
decode_rows zero = ok (row_at 0 ∷ row_at 4 ∷ row_at 8 ∷ [])
decode_rows (suc zero) = ok (row_at 12 ∷ row_at 20 ∷ [])
decode_rows (suc (suc k)) = err (invalid_format "key block index out of range")

all_decoded :
    (k : ℕ) (b : KeyBlockDescriptor)
    → get_elem? key_blocks k ≡ some b
    → (rows : List DecodedKeyRow) × (decode_rows k ≡ ok rows) × (length rows ≡ b.entry_count)
all_decoded zero b e = (row_at 0 ∷ row_at 4 ∷ row_at 8 ∷ [], refl, ground arith)
all_decoded (suc zero) b e = (row_at 12 ∷ row_at 20 ∷ [], refl, ground arith)
all_decoded (suc (suc k)) b e = absurd (ground arith)

key_at_ordinal_example :
    ((4 < 5)
      × (k : ℕ) × (b : KeyBlockDescriptor) × (rows : List DecodedKeyRow) × (row : DecodedKeyRow)
      × (get_elem? key_blocks k ≡ some b)
      × Numbers b 4
      × (decode_rows k ≡ ok rows)
      × (get_elem? rows (4 - b.entry_start_index) ≡ some row)
      × (key_at_ordinal decode_rows key_blocks 5 4
          ≡ ok (some (record { ordinal = 4; key = row.key }))))
    ⊎ ((5 ≤ 4) × (key_at_ordinal decode_rows key_blocks 5 4 ≡ ok none))
key_at_ordinal_example =
    key_at_ordinal-Numbers decode_rows key_blocks 5 4 (refl, (refl, (refl, omega arith)))
      all_decoded

abbrev rows_of : ℕ → List DecodedKeyRow
rows_of zero = row_at 0 ∷ row_at 4 ∷ row_at 8 ∷ []
rows_of (suc k) = row_at 12 ∷ row_at 20 ∷ []

all_read :
    (k : ℕ)
    → k < length key_blocks
    → (decode_rows k ≡ ok (rows_of k))
      × (start_of (get_elem? key_blocks k) + length (rows_of k) ≤ u64_max)
unfolding start_of
all_read zero p = (refl, omega arith)
all_read (suc zero) p = (refl, omega arith)
all_read (suc (suc k)) p = absurd (omega arith)

collect_example :
    collect decode_rows key_blocks 6 new_iter
    ≡ map ok (listing key_blocks rows_of 0 (length key_blocks))
unfolding start_of
collect_example = collect-new_iter decode_rows key_blocks rows_of 6 all_read (omega arith)

-- "a b", whose blank is escaped.
abbrev file_name : List ℕ
file_name = 97 ∷ 32 ∷ 98 ∷ []

abbrev is_letter : ℕ → Bool
is_letter b = if b == 32 then false else true

resolve_example :
    resolve (scheme ++ ([] ++ (47 ∷ percent_encode is_letter file_name)))
    ≡ ok (windows_drive_path (47 ∷ file_name))
unfolding decode_utf8 utf8_step
resolve_example =
    resolve-percent_encode is_letter [] file_name (47 ∷ file_name)
      (scheme ++ ([] ++ (47 ∷ percent_encode is_letter file_name))) (inl refl) (omega arith) refl
      refl

-- Three rows, two of them equal.
abbrev locator : KeyLocator
locator = record {
  rows = (98 ∷ []) ∷ (97 ∷ []) ∷ (98 ∷ []) ∷ [];
  order = 1 ∷ 0 ∷ 2 ∷ [];
  raw_digest = 0 ∷ 0 ∷ 0 ∷ [];
}

locator-IsSorted : IsSorted locator.rows locator.order
unfolding row_text text_lt
locator-IsSorted = ((refl, (refl, tt)), ((refl, tt), (tt, tt)))

equal_range_example :
    in_range (equal_range locator (98 ∷ [])) 2 ≡ equal_texts (row_text locator.rows 2) (98 ∷ [])
equal_range_example = equal_range-in_range locator (98 ∷ []) 2 2 locator-IsSorted refl

-- One key, whose normalized text has five bytes.
abbrev section_files : List SectionFile
section_files =
    record { len = 5; checksums = 1 }
    ∷ record { len = 16; checksums = 1 }
    ∷ record { len = 4; checksums = 1 }
    ∷ record { len = 4; checksums = 1 }
    ∷ []

abbrev placed : ℕ → ℕ → ℕ → SectionDescriptor
placed offset len start = record {
  offset = offset;
  len = len;
  checksum_start = start;
  checksum_count = 1;
}

abbrev index_header : IndexHeader
index_header = record {
  header_len = 224;
  total_len = 276;
  sections = placed 240 5 0 ∷ placed 248 16 1 ∷ placed 264 4 2 ∷ placed 272 4 3 ∷ [];
  checksum_count = 4;
}

index_built : build_layout 1000 1000 64 section_files ≡ ok index_header
unfolding build_layout count_checksums chunk_count place_sections align8
index_built = refl

layout_example :
    (check_checksums 64 index_header.sections 0 ≡ ok index_header.checksum_count)
    × (validate_section_layout index_header.total_len index_header ≡ ok tt)
    × (index_header.total_len ≤ 1000)
layout_example =
    build_layout-validate_section_layout 1000 1000 64 section_files index_header index_built

-- The record behind the last row of the first block.
abbrev third_record : RecordDescriptor
third_record = record { key = record { ordinal = 2; key = 97 ∷ [] }; start = 8; end = 12 }

third_described : record_at_ordinal decode_rows key_blocks 5 30 2 ≡ ok (some third_record)
unfolding record_at_ordinal key_entry_at_ordinal find_key_block_by_ordinal
    mdictlib.RecordSpans.descriptor_of mdictlib.RecordSpans.record_descriptor_from_hit
    mdictlib.RecordSpans.span_end mdictlib.RecordSpans.end_behind mdictlib.RecordSpans.block_start
    mdictlib.KeyBlocks.first_row
third_described = refl

record_at_ordinal_example :
    (2 < 5)
    × ((e : RecordDescriptor)
        → record_at_ordinal decode_rows key_blocks 5 30 3 ≡ ok (some e)
        → third_record.end ≡ e.start)
    × (◌≡◌ {A = ℕ} 3 5 → third_record.end ≡ 30)
record_at_ordinal_example =
    record_at_ordinal-adjoin decode_rows key_blocks 5 30 2 third_record
      (refl, (refl, (refl, omega arith))) (omega arith, (omega arith, tt)) all_decoded
      third_described
