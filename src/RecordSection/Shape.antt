-- ===== src/RecordSection/Shape.antt =====
-- What a parsed record section looks like.
use mdictlib.Prelude.{ℕ, ◌+◌, ◌*◌, ◌≤◌, ◌≡◌, refl, sym, ap, ◌∙◌, arith, length}
use mdictlib.Error.{ok}
use mdictlib.Limits.{u64_max}
use mdictlib.Limits.Laws.{checked_add-ok}
use mdictlib.Source.Laws.{ensure_range-ok}
use mdictlib.Budget.{MemoryBudget}
use mdictlib.Budget.Memory.{
  Balanced, lift-Balanced, bind-Balanced, with_reserved-Balanced, Ensures, with_reserved-Ensures,
  lift_then, ok-Ensures,
}
use mdictlib.Source.{FileSource}
use mdictlib.Descriptors.Verify.{CoversRecords}
use mdictlib.RecordSection.{Limits, Wire, v1_wire, v2_wire, RecordHeader, validate_record_header}
use mdictlib.RecordSection.Rows.{LaidOut, parse_record_index-covers}
use mdictlib.RecordSection.Parse.{
  RecordSection, read_record_index, reserve_record_index, parse_record_section_at,
  parse_v1_record_section, parse_v2_record_section,
}

-- A section that the parser accepts: its three ranges lie one behind the other from `offset`, the
-- index has a row for each block, and the blocks cover the decoded stream and their file range.
pub record IsSection (w : Wire) (source : FileSource) (limits : Limits) (offset : ℕ)
    (s : RecordSection) : Type 0 where
  pub header_at : s.sections.header.offset ≡ offset
  pub header_len : s.sections.header.len ≡ w.header_len
  pub index_at : s.sections.index.offset ≡ offset + w.header_len
  pub index_len : s.sections.index.len ≡ length s.blocks * w.row_len
  pub blocks_at : s.sections.blocks.offset ≡ s.sections.index.offset + s.sections.index.len
  pub blocks_inside : s.sections.blocks.offset + s.sections.blocks.len ≤ source.len
  pub blocks_below : s.sections.blocks.offset + s.sections.blocks.len ≤ u64_max
  pub covers : CoversRecords s.blocks 0 s.total_decompressed_len
  pub laid_out :
      LaidOut source limits s.blocks s.sections.blocks.offset
        (s.sections.blocks.offset + s.sections.blocks.len)

validate_record_header-rows :
    (w : Wire) (num_blocks index_len : ℕ) (limits : Limits) (counts : ℕ × ℕ)
    → validate_record_header w num_blocks index_len limits ≡ ok counts
    → index_len ≡ counts.0 * w.row_len
unfolding validate_record_header
validate_record_header-rows w num_blocks index_len limits counts e = ground arith

module _ (w : Wire) (source : FileSource) (offset : ℕ) (limits : Limits) where
  pub parse_record_section_at-Balanced : Balanced (parse_record_section_at w source offset limits)
  unfolding parse_record_section_at reserve_record_index read_record_index
  parse_record_section_at-Balanced =
      search (with_reserved-Balanced, bind-Balanced, lift-Balanced) depth 40

  module _ (h : RecordHeader) (num_blocks index_offset blocks_offset : ℕ)
      (at : index_offset ≡ offset + w.header_len)
      (behind : blocks_offset ≡ index_offset + h.index_len)
      (rows : h.index_len ≡ num_blocks * w.row_len)
      (inside : blocks_offset + h.blocks_len ≤ source.len)
      (below : blocks_offset + h.blocks_len ≤ u64_max) where
    read_record_index-IsSection :
        (index_len retained : ℕ)
        → Ensures
            (read_record_index w source offset limits h num_blocks index_len index_offset
              blocks_offset retained)
            (IsSection w source limits offset)
    unfolding read_record_index
    read_record_index-IsSection index_len retained = lift_then _ _ _ λ bytes read.
        lift_then _ _ _ λ parsed e.
          let covered =
            parse_record_index-covers w source limits num_blocks bytes blocks_offset h.blocks_len
              parsed.0 parsed.1 e in
          ok-Ensures _ _ (record {
            header_at = refl;
            header_len = refl;
            index_at = at;
            index_len = rows ∙ ap (λ n. n * w.row_len) (sym covered.2);
            blocks_at = behind;
            blocks_inside = inside;
            blocks_below = below;
            covers = covered.0;
            laid_out = covered.1;
          })

    reserve_record_index-IsSection :
        (index_len : ℕ)
        → Ensures
            (reserve_record_index w source offset limits h num_blocks index_len index_offset
              blocks_offset)
            (IsSection w source limits offset)
    unfolding reserve_record_index
    reserve_record_index-IsSection index_len = with_reserved-Ensures _ _ _ (
        lift_then _ _ _ λ retained e.
          with_reserved-Ensures _ _ _ (read_record_index-IsSection index_len retained))

  -- Whatever the parser accepts has the shape `IsSection`.
  parse_record_section_at-IsSection :
      Ensures (parse_record_section_at w source offset limits) (IsSection w source limits offset)
  unfolding parse_record_section_at
  parse_record_section_at-IsSection = with_reserved-Ensures _ _ _ (
      lift_then _ _ _ λ header_bytes _. lift_then _ _ _ λ h _. lift_then _ _ _ λ counts valid.
        lift_then _ _ _ λ index_offset at. lift_then _ _ _ λ blocks_offset behind.
          lift_then _ _ _ λ _ _. lift_then _ _ _ λ _ fits.
            reserve_record_index-IsSection h counts.0 index_offset blocks_offset
              (checked_add-ok _ _ _ _ at).0 (checked_add-ok _ _ _ _ behind).0
              (validate_record_header-rows w h.num_blocks h.index_len limits counts valid)
              (ensure_range-ok source blocks_offset h.blocks_len _ fits).0
              (ensure_range-ok source blocks_offset h.blocks_len _ fits).1 counts.1)

-- A version 1 record section that is accepted has contiguous ranges inside the file, an eight-byte
-- index row for each block, and blocks that cover the decoded stream and their file range exactly.
pub parse_v1_record_section-IsSection :
    (source : FileSource) (offset : ℕ) (limits : Limits) (b : MemoryBudget) (s : RecordSection)
    → (parse_v1_record_section source offset limits b).0 ≡ ok s
    → IsSection v1_wire source limits offset s
unfolding parse_v1_record_section Ensures
parse_v1_record_section-IsSection source offset limits b s e =
    parse_record_section_at-IsSection v1_wire source offset limits b s e

-- A version 2 record section that is accepted has contiguous ranges inside the file, a sixteen-byte
-- index row for each block, and blocks that cover the decoded stream and their file range exactly.
pub parse_v2_record_section-IsSection :
    (source : FileSource) (offset : ℕ) (limits : Limits) (b : MemoryBudget) (s : RecordSection)
    → (parse_v2_record_section source offset limits b).0 ≡ ok s
    → IsSection v2_wire source limits offset s
unfolding parse_v2_record_section Ensures
parse_v2_record_section-IsSection source offset limits b s e =
    parse_record_section_at-IsSection v2_wire source offset limits b s e
