-- ===== src/RecordSection/Peak.antt =====
-- How much of the budget the record-section parser has reserved at its highest point.
use mdictlib.Prelude.{ℕ, ◌+◌, ◌*◌, max, ◌≡◌, refl, arith, length}
use mdictlib.Error.{ok, Error, ok_or}
use mdictlib.Limits.{checked_mul}
use mdictlib.Budget.{MemoryBudget}
use mdictlib.Budget.Laws.{IsSound}
use mdictlib.Budget.Memory.{Ensures, lift_then, ok-Ensures, with_reserved-Ensures}
use mdictlib.Budget.Peak.{
  Reaches, ok-Reaches, lift_then-Reaches, with_reserved-Reaches, Reached-peak,
}
use mdictlib.Source.{FileSource}
use mdictlib.RecordSection.{Limits, Wire, RecordHeader, validate_record_header, descriptor_bytes}
use mdictlib.RecordSection.Rows.{parse_record_index-covers}
use mdictlib.RecordSection.Parse.{
  RecordSection, read_record_index, reserve_record_index, parse_record_section_at,
}

-- The index and the descriptors of the blocks.
abbrev pub tables : Wire → RecordSection → ℕ
tables w s = length s.blocks * w.row_len + length s.blocks * descriptor_bytes

abbrev pub header_and_tables : Wire → RecordSection → ℕ
header_and_tables w s = w.header_len + tables w s

validate_record_header-index_len :
    (w : Wire) (num_blocks index_len : ℕ) (limits : Limits) (counts : ℕ × ℕ)
    → validate_record_header w num_blocks index_len limits ≡ ok counts
    → counts.1 ≡ counts.0 * w.row_len
unfolding validate_record_header
validate_record_header-index_len w num_blocks index_len limits counts e = ground arith

checked_mul-descriptor_bytes :
    (n : ℕ) (bytes : ℕ) (e : Error)
    → ok_or (checked_mul n descriptor_bytes) e ≡ ok bytes
    → bytes ≡ n * descriptor_bytes
unfolding checked_mul
checked_mul-descriptor_bytes n bytes e h = ground arith

ring_rows : (n row : ℕ) → n * (row + 32) ≡ n * row + n * 32
ring_rows n row = omega arith

module _ (w : Wire) (source : FileSource) (offset : ℕ) (limits : Limits) where
  module _ (h : RecordHeader) (num_blocks index_len index_offset blocks_offset : ℕ) where
    read_record_index-blocks :
        (retained : ℕ)
        → Ensures
            (read_record_index w source offset limits h num_blocks index_len index_offset
              blocks_offset retained)
            (λ s. length s.blocks ≡ num_blocks)
    unfolding read_record_index
    read_record_index-blocks retained = lift_then _ _ _ λ bytes _. lift_then _ _ _ λ parsed e.
        ok-Ensures _ _
          (parse_record_index-covers w source limits num_blocks bytes blocks_offset h.blocks_len
            parsed.0 parsed.1 e).2

    read_record_index-Reaches :
        (retained : ℕ)
        → Reaches
            (read_record_index w source offset limits h num_blocks index_len index_offset
              blocks_offset retained)
            (λ _. 0)
    unfolding read_record_index
    read_record_index-Reaches retained =
        lift_then-Reaches _ _ _ λ _ _. lift_then-Reaches _ _ _ λ _ _. ok-Reaches _ _ refl

    reserve_record_index-Reaches :
        index_len ≡ num_blocks * w.row_len
        → Reaches
            (reserve_record_index w source offset limits h num_blocks index_len index_offset
              blocks_offset)
            (tables w)
    unfolding reserve_record_index
    reserve_record_index-Reaches rows =
        with_reserved-Reaches _ _ (λ s. length s.blocks ≡ num_blocks) _
          (λ s. length s.blocks * descriptor_bytes)
          (lift_then _ _ _
            λ retained _. with_reserved-Ensures _ _ _ (read_record_index-blocks retained))
          (λ s e. rw (rows, e) refl)
          (lift_then-Reaches _ _ _ λ retained e.
            with_reserved-Reaches _ _ (λ s. length s.blocks ≡ num_blocks) _ (λ _. 0)
              (read_record_index-blocks retained)
              (λ s same.
                rw same (omega (arith, checked_mul-descriptor_bytes num_blocks retained _ e)))
              (read_record_index-Reaches retained))

  parse_record_section_at-Reaches :
      Reaches (parse_record_section_at w source offset limits) (header_and_tables w)
  unfolding parse_record_section_at Ensures
  parse_record_section_at-Reaches =
      with_reserved-Reaches _ _ (λ _. Unit {0}) _ (tables w) (λ _ _ _. tt) (λ _ _. refl)
        (lift_then-Reaches _ _ _ λ _ _. lift_then-Reaches _ _ _ λ h _.
          lift_then-Reaches _ _ _ λ counts valid. lift_then-Reaches _ _ _ λ index_offset _.
            lift_then-Reaches _ _ _ λ blocks_offset _. lift_then-Reaches _ _ _ λ _ _.
              lift_then-Reaches _ _ _ λ _ _.
                reserve_record_index-Reaches h counts.0 counts.1 index_offset blocks_offset
                  (validate_record_header-index_len w h.num_blocks h.index_len limits counts valid))

  -- A record section of `n` blocks, in either version (`w` has the widths of its fields), that is accepted
  -- raises the high-water mark of a sound budget to exactly the header, `n` index rows and `n` descriptors
  -- of 32 bytes above what was live, if it was lower; and it keeps nothing reserved.
  pub parse_record_section_at-peak :
      (b : MemoryBudget) (live : ℕ) (s : RecordSection)
      → IsSound b live
      → (parse_record_section_at w source offset limits b).0 ≡ ok s
      → ((parse_record_section_at w source offset limits b).1.peak
          ≡ max b.peak (live + (w.header_len + length s.blocks * (w.row_len + 32))))
        × IsSound (parse_record_section_at w source offset limits b).1 live
  unfolding Reaches
  parse_record_section_at-peak b live s sound e =
      let reached = Reached-peak _ b live _ s e (parse_record_section_at-Reaches b live sound) in
      let rows : length s.blocks * (w.row_len + 32) ≡ tables w s =
        ring_rows (length s.blocks) w.row_len in
      (rw rows reached.0, reached.1)
