-- ===== src/RecordSection/Parse.antt =====
-- The whole record-section parser with the reservations that it holds while it runs.
use mdictlib.Prelude.{ℕ, List}
use mdictlib.Error.{ok, ok_or, invalid_format}
use mdictlib.Limits.{checked_add, checked_mul}
use mdictlib.Budget.Memory.{MemoryM, lift, ◌>>=◌, with_reserved}
use mdictlib.Source.{FileSource, ensure_range, read_exact_at}
use mdictlib.Descriptors.{RecordBlockDescriptor, SectionRange}
use mdictlib.RecordSection.{
  Limits, Wire, v1_wire, v2_wire, descriptor_bytes, RecordHeader, read_record_header,
  validate_record_header, parse_record_index,
}

pub record RecordSectionRanges : Type 0 where
  pub header : SectionRange
  pub index : SectionRange
  pub blocks : SectionRange

pub record RecordSection : Type 0 where
  pub num_entries : ℕ
  pub total_decompressed_len : ℕ
  pub blocks : List RecordBlockDescriptor
  pub retained_bytes : ℕ
  pub sections : RecordSectionRanges

module _ (w : Wire) (source : FileSource) (section_offset : ℕ) (limits : Limits) where
  -- From the second read on, with the index and its metadata reserved.
  unfoldable pub read_record_index : RecordHeader → ℕ → ℕ → ℕ → ℕ → ℕ → MemoryM RecordSection
  read_record_index h num_blocks index_len index_offset blocks_offset retained_bytes = do
    index_bytes ← lift (read_exact_at source index_offset index_len "record block index")
    (blocks, total) ←
        lift (parse_record_index w source limits num_blocks index_bytes blocks_offset h.blocks_len)
    lift (
        ok (record {
          num_entries = h.num_entries;
          total_decompressed_len = total;
          blocks = blocks;
          retained_bytes = retained_bytes;
          sections = record {
            header = record { offset = section_offset; len = w.header_len };
            index = record { offset = index_offset; len = h.index_len };
            blocks = record { offset = blocks_offset; len = h.blocks_len };
          };
        }))

  unfoldable pub reserve_record_index : RecordHeader → ℕ → ℕ → ℕ → ℕ → MemoryM RecordSection
  unfolding checked_mul
  reserve_record_index h num_blocks index_len index_offset blocks_offset =
      with_reserved index_len (do
        retained_bytes ← lift (
            ok_or (checked_mul num_blocks descriptor_bytes)
              (invalid_format "record metadata size overflow"))
        with_reserved retained_bytes
            (read_record_index h num_blocks index_len index_offset blocks_offset retained_bytes))

  unfoldable pub parse_record_section_at : MemoryM RecordSection
  unfolding checked_add
  parse_record_section_at = with_reserved w.header_len (do
    header_bytes ← lift (read_exact_at source section_offset w.header_len "record section header")
    h ← lift (read_record_header w header_bytes)
    (num_blocks, index_len) ← lift (validate_record_header w h.num_blocks h.index_len limits)
    index_offset ← lift (
        ok_or (checked_add section_offset w.header_len)
          (invalid_format "record index offset overflow"))
    blocks_offset ← lift (
        ok_or (checked_add index_offset h.index_len)
          (invalid_format "record blocks offset overflow"))
    _ ← lift (ensure_range source index_offset h.index_len "record block index")
    _ ← lift (ensure_range source blocks_offset h.blocks_len "record block section")
    reserve_record_index h num_blocks index_len index_offset blocks_offset)

-- v1/record.rs
unfoldable pub parse_v1_record_section : FileSource → ℕ → Limits → MemoryM RecordSection
parse_v1_record_section source offset limits = parse_record_section_at v1_wire source offset limits

-- v2/record.rs
unfoldable pub parse_v2_record_section : FileSource → ℕ → Limits → MemoryM RecordSection
parse_v2_record_section source offset limits = parse_record_section_at v2_wire source offset limits
