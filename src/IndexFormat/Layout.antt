-- ===== src/IndexFormat/Layout.antt =====
-- What is laid out when an index is built is accepted when it is opened.
use mdictlib.Prelude.{ℕ, ◌+◌, ◌*◌, ◌%◌, ◌≤◌, List, [], ◌∷◌, ◌≡◌, inl, inr, arith}
use mdictlib.Error.{ok, Result-cases}
use mdictlib.IndexFormat.{
  header_bytes, SectionFile, SectionDescriptor, IndexHeader, align8, count_checksums,
  place_sections, build_layout, check_checksums, validate_sections, first_cursor,
  validate_section_layout,
}

align8-ok : (v w : ℕ) → align8 v ≡ ok w → (w % 8 ≡ 0) × (v ≤ w) × (w ≤ v + 7)
unfolding align8
align8-ok v w e = ground arith

placed-checksums :
    (chunk count n offset total : ℕ) (ss : List SectionFile) (ds : List SectionDescriptor)
    → count_checksums chunk ss count ≡ ok n
    → place_sections ss offset count ≡ ok (ds, total)
    → check_checksums chunk ds count ≡ ok n
unfolding count_checksums place_sections check_checksums
placed-checksums chunk count n offset total [] [] c p = ground arith
placed-checksums chunk count n offset total [] (d ∷ ds) c p = absurd (ground arith)
placed-checksums chunk count n offset total (s ∷ ss) [] c p = absurd (ground arith)
placed-checksums chunk count n offset total (s ∷ ss) (d ∷ ds) c p =
    ground (arith, placed-checksums chunk (count + s.checksums) n (d.offset + d.len) total ss ds)

placed_end :
    (count offset total : ℕ) (ss : List SectionFile) (ds : List SectionDescriptor)
    → place_sections ss offset count ≡ ok (ds, total)
    → offset ≤ total
unfolding place_sections
placed_end count offset total [] ds p = ground arith
placed_end count offset total (s ∷ ss) [] p = absurd (ground arith)
placed_end count offset total (s ∷ ss) (d ∷ ds) p = ground (
  arith,
  placed_end (count + s.checksums) (d.offset + d.len) total ss ds,
  align8-ok offset d.offset,
)

placed-sections :
    (count offset total source_len : ℕ) (ss : List SectionFile) (ds : List SectionDescriptor)
    → place_sections ss offset count ≡ ok (ds, total)
    → total ≤ source_len
    → validate_sections source_len ds offset ≡ ok total
unfolding place_sections validate_sections
placed-sections count offset total source_len [] [] p h = ground arith
placed-sections count offset total source_len [] (d ∷ ds) p h = absurd (ground arith)
placed-sections count offset total source_len (s ∷ ss) [] p h = absurd (ground arith)
placed-sections count offset total source_len (s ∷ ss) (d ∷ ds) p h = ground (
  arith,
  placed-sections (count + s.checksums) (d.offset + d.len) total source_len ss ds,
  placed_end (count + s.checksums) (d.offset + d.len) total ss ds,
  align8-ok offset d.offset,
)

first_cursor-align8 : (v w : ℕ) → align8 v ≡ ok w → first_cursor v ≡ ok w
unfolding align8 first_cursor
first_cursor-align8 v w e = ground arith

-- The header that is laid out for the sections of an index passes both checks of the opening: its
-- checksum ranges are contiguous and their number is the count that it carries, and its sections
-- are aligned, in order, inside a file of its total length, and end there.
pub build_layout-validate_section_layout :
    (max_metadata max_index chunk : ℕ) (ss : List SectionFile) (h : IndexHeader)
    → build_layout max_metadata max_index chunk ss ≡ ok h
    → (check_checksums chunk h.sections 0 ≡ ok h.checksum_count)
      × (validate_section_layout h.total_len h ≡ ok tt)
      × (h.total_len ≤ max_index)
unfolding build_layout validate_section_layout
build_layout-validate_section_layout max_metadata max_index chunk ss h e =
    elim (Result-cases (align8 (header_bytes + h.checksum_count * 4))) [
      | inl (offset, a) ↦ ground (
        arith,
        placed-checksums chunk 0 h.checksum_count offset h.total_len ss h.sections,
        placed-sections 0 offset h.total_len h.total_len ss h.sections,
        first_cursor-align8 (header_bytes + h.checksum_count * 4) offset,
      )
      | inr (x, a) ↦ absurd (ground arith)
    ]
