-- ===== src/RecordSection.antt =====
-- format/v1/record.rs and format/v2/record.rs: the record section. The two grammars run the same code
-- over fields of 4 and 8 bytes; `Wire` holds the sizes by which they differ. RecordSection/Parse has
-- the whole parser with its memory reservations.
pub mod Rows
pub mod Parse
pub mod Shape
pub mod Peak
use mdictlib.Prelude.{ℕ, zero, suc, String, not, List, [], ◌∷◌, ltb, ◌==◌, length}
use mdictlib.Error.{Result, ok, ◌>>=◌, ◌>>◌, fail_if, ok_or, num, invalid_format, invalid_data}
use mdictlib.Limits.{checked_add, checked_mul, ensure_u64_limit, ensure_usize_limit, checked_usize}
use mdictlib.Cursor.{Cursor, remaining, is_empty, read_be}
use mdictlib.Cursor
use mdictlib.Source.{FileSource, ensure_range}
use mdictlib.Descriptors.{RecordBlockDescriptor}

-- The fields of types.rs `Limits` that bound a file.
pub record Limits : Type 0 where
  pub header_xml_bytes : ℕ
  pub header_attributes : ℕ
  pub key_index_bytes : ℕ
  pub record_index_bytes : ℕ
  pub compressed_block_bytes : ℕ
  pub decompressed_block_bytes : ℕ
  pub block_metadata_bytes : ℕ
  pub key_block_entries : ℕ
  pub materialized_record_bytes : ℕ
  pub locator_entries : ℕ
  pub locator_bytes : ℕ
  pub working_memory_bytes : ℕ

pub record Wire : Type 0 where
  pub field_bytes : ℕ
  pub header_len : ℕ
  pub row_len : ℕ

abbrev pub v1_wire : Wire
v1_wire = record { field_bytes = 4; header_len = 16; row_len = 8 }

abbrev pub v2_wire : Wire
v2_wire = record { field_bytes = 8; header_len = 32; row_len = 16 }

-- `mem::size_of::<RecordBlockDescriptor>()`: four `u64`.
abbrev pub descriptor_bytes : ℕ
descriptor_bytes = 32

-- `read_u64_be`, or `read_u32_be_widened`.
unfoldable pub read_field : Wire → String → Cursor → Result (ℕ × Cursor)
unfolding read_be
read_field w context c = read_be w.field_bytes context c

pub record RecordHeader : Type 0 where
  pub num_blocks : ℕ
  pub num_entries : ℕ
  pub index_len : ℕ
  pub blocks_len : ℕ

unfoldable pub read_record_header : Wire → List ℕ → Result RecordHeader
unfolding read_field Cursor.new
read_record_header w bytes = do
  (num_blocks, c) ← read_field w "record num_blocks" (Cursor.new bytes)
  (num_entries, c) ← read_field w "record num_entries" c
  (index_len, c) ← read_field w "record index length" c
  (blocks_len, c) ← read_field w "record blocks length" c
  ok (record {
    num_blocks = num_blocks;
    num_entries = num_entries;
    index_len = index_len;
    blocks_len = blocks_len;
  })

-- The block count and the index length, as `usize`.
unfoldable pub validate_record_header : Wire → ℕ → ℕ → Limits → Result (ℕ × ℕ)
unfolding checked_mul ensure_u64_limit checked_usize ensure_usize_limit
validate_record_header w num_blocks index_len limits = do
  expected_index_len ←
      ok_or (checked_mul num_blocks w.row_len) (invalid_format "record index length overflow")
  fail_if (not (index_len == expected_index_len)) (
      invalid_data "record index length mismatch: header={}, expected={}"
        (num index_len ∷ num expected_index_len ∷ []))
  ensure_u64_limit "record_index_bytes" index_len limits.record_index_bytes
  index_len_usize ← checked_usize index_len "record index length"
  num_blocks_usize ← checked_usize num_blocks "record block count"
  metadata_bytes ←
      ok_or (checked_mul num_blocks_usize descriptor_bytes)
        (invalid_format "record block metadata size overflow")
  ensure_usize_limit "record_block_metadata_bytes" metadata_bytes limits.block_metadata_bytes
  ok (num_blocks_usize, index_len_usize)

unfoldable pub validate_record_block_sizes : ℕ → ℕ → Limits → Result (Unit {0})
unfolding ensure_u64_limit
validate_record_block_sizes comp_size decomp_size limits = do
  ensure_u64_limit "record_block_compressed_bytes" comp_size limits.compressed_block_bytes
  ensure_u64_limit "record_block_decompressed_bytes" decomp_size limits.decompressed_block_bytes
  fail_if (ltb comp_size 8)
      (invalid_data "record block is {} bytes; at least 8 are required" (num comp_size ∷ []))

-- The variables of the row loop, besides `blocks`.
pub record RowState : Type 0 where
  pub cursor : Cursor
  pub comp_offset : ℕ
  pub decomp_offset : ℕ
  pub total_comp : ℕ

-- One round of the row loop: the block that it pushes, and the variables after it.
unfoldable pub record_row :
    Wire → FileSource → Limits → RowState → Result (RecordBlockDescriptor × RowState)
unfolding read_field validate_record_block_sizes ensure_range checked_add
record_row w source limits s = do
  (comp_size, c) ← read_field w "record block compressed size" s.cursor
  (decomp_size, c) ← read_field w "record block decompressed size" c
  validate_record_block_sizes comp_size decomp_size limits
  ensure_range source s.comp_offset comp_size "record block"
  next_comp_offset ←
      ok_or (checked_add s.comp_offset comp_size) (invalid_format "record block offset overflow")
  next_decomp_offset ←
      ok_or (checked_add s.decomp_offset decomp_size)
        (invalid_format "record block offset overflow")
  total_comp ←
      ok_or (checked_add s.total_comp comp_size) (invalid_format "record block length overflow")
  ok (
    record {
      comp_offset = s.comp_offset;
      comp_size = comp_size;
      decomp_offset = s.decomp_offset;
      decomp_size = decomp_size;
    },
    record {
      cursor = c;
      comp_offset = next_comp_offset;
      decomp_offset = next_decomp_offset;
      total_comp = total_comp;
    },
  )

-- `for _ in 0..num_blocks`
unfoldable pub record_rows :
    Wire → FileSource → Limits → ℕ → RowState → Result (List RecordBlockDescriptor × RowState)
record_rows w source limits zero s = ok ([], s)
record_rows w source limits (suc n) s = do
  (block, s') ← record_row w source limits s
  (blocks, end) ← record_rows w source limits n s'
  ok (block ∷ blocks, end)

-- The checks behind the loop; the result is the decoded length.
unfoldable pub check_record_end : RowState → ℕ → ℕ → Result ℕ
unfolding remaining is_empty checked_add
check_record_end s blocks_offset blocks_len = do
  fail_if (not (s.total_comp == blocks_len)) (
      invalid_data "record blocks length mismatch: header={}, summed={}"
        (num blocks_len ∷ num s.total_comp ∷ []))
  fail_if (not (is_empty s.cursor))
      (invalid_data "record block index has {} trailing bytes" (num (remaining s.cursor) ∷ []))
  expected_blocks_end ←
      ok_or (checked_add blocks_offset blocks_len)
        (invalid_format "record block section end overflow")
  fail_if (not (s.comp_offset == expected_blocks_end))
      (invalid_data "record block ranges do not cover the declared section" [])
  ok s.decomp_offset

abbrev pub first_row : List ℕ → ℕ → RowState
first_row index_bytes blocks_offset = record {
  cursor = record { bytes = index_bytes; offset = 0 };
  comp_offset = blocks_offset;
  decomp_offset = 0;
  total_comp = 0;
}

-- The rows of the index, and the checks.
unfoldable pub parse_record_index :
    Wire → FileSource → Limits → ℕ → List ℕ → ℕ → ℕ → Result (List RecordBlockDescriptor × ℕ)
parse_record_index w source limits num_blocks index_bytes blocks_offset blocks_len = do
  (blocks, s) ← record_rows w source limits num_blocks (first_row index_bytes blocks_offset)
  total ← check_record_end s blocks_offset blocks_len
  ok (blocks, total)
