-- ===== src/Descriptors/Verify.antt =====
-- `verify` accepts a layout exactly when its blocks and sections cover their ranges without a gap.
use mdictlib.Prelude.{ℕ, ◌+◌, ◌≤◌, String, List, [], ◌∷◌, ◌≡◌, refl, ◌↔◌, arith}
use mdictlib.Error.{ok}
use mdictlib.Limits.{u64_max}
use mdictlib.Descriptors.{
  SectionRange, KeyBlockDescriptor, RecordBlockDescriptor, ValidatedLayout, ordered,
  verify_sections, verify_contiguous, verify_key_blocks, verify_record_blocks, verify,
}

-- The record blocks fill the decoded stream from `start` to `total`.
abbrev pub CoversRecords : List RecordBlockDescriptor → ℕ → ℕ → Type 0
CoversRecords [] start total = (start ≡ total) × (total ≤ u64_max)
CoversRecords (b ∷ bs) start total =
    (b.decomp_offset ≡ start) × CoversRecords bs (start + b.decomp_size) total

-- The key blocks number the entries from `start` to `total`.
abbrev pub CoversKeys : List KeyBlockDescriptor → ℕ → ℕ → Type 0
CoversKeys [] start total = (start ≡ total) × (total ≤ u64_max)
CoversKeys (b ∷ bs) start total =
    (b.entry_start_index ≡ start) × CoversKeys bs (start + b.entry_count) total

-- Each section begins where the one before it ends.
abbrev pub Chained : List (String × SectionRange) → ℕ → Type 0
Chained [] start = start ≤ u64_max
Chained ((name, s) ∷ rest) start = (s.offset ≡ start) × Chained rest (start + s.len)

pub CoversRecords-le :
    (bs : List RecordBlockDescriptor) (start total : ℕ)
    → CoversRecords bs start total
    → (start ≤ total) × (total ≤ u64_max)
CoversRecords-le [] start total h = omega arith
CoversRecords-le (b ∷ bs) start total h =
    omega (arith, CoversRecords-le bs (start + b.decomp_size) total h.1)

pub CoversKeys-le :
    (bs : List KeyBlockDescriptor) (start total : ℕ)
    → CoversKeys bs start total
    → (start ≤ total) × (total ≤ u64_max)
CoversKeys-le [] start total h = omega arith
CoversKeys-le (b ∷ bs) start total h =
    omega (arith, CoversKeys-le bs (start + b.entry_count) total h.1)

verify_record_blocks-Covers :
    (bs : List RecordBlockDescriptor) (start total : ℕ)
    → start ≤ u64_max
    → verify_record_blocks bs start ≡ ok total
    → CoversRecords bs start total
unfolding verify_record_blocks
verify_record_blocks-Covers [] start total m e = ground arith
verify_record_blocks-Covers (b ∷ bs) start total m e =
    ground (arith, verify_record_blocks-Covers bs (start + b.decomp_size) total)

Covers-verify_record_blocks :
    (bs : List RecordBlockDescriptor) (start total : ℕ)
    → CoversRecords bs start total
    → verify_record_blocks bs start ≡ ok total
unfolding verify_record_blocks
Covers-verify_record_blocks [] start total h = ground arith
Covers-verify_record_blocks (b ∷ bs) start total h = ground (
  arith,
  Covers-verify_record_blocks bs (start + b.decomp_size) total h.1,
  CoversRecords-le bs (start + b.decomp_size) total h.1,
)

verify_key_blocks-Covers :
    (bs : List KeyBlockDescriptor) (start total : ℕ)
    → start ≤ u64_max
    → verify_key_blocks bs start ≡ ok total
    → CoversKeys bs start total
unfolding verify_key_blocks
verify_key_blocks-Covers [] start total m e = ground arith
verify_key_blocks-Covers (b ∷ bs) start total m e =
    ground (arith, verify_key_blocks-Covers bs (start + b.entry_count) total)

Covers-verify_key_blocks :
    (bs : List KeyBlockDescriptor) (start total : ℕ)
    → CoversKeys bs start total
    → verify_key_blocks bs start ≡ ok total
unfolding verify_key_blocks
Covers-verify_key_blocks [] start total h = ground arith
Covers-verify_key_blocks (b ∷ bs) start total h = ground (
  arith,
  Covers-verify_key_blocks bs (start + b.entry_count) total h.1,
  CoversKeys-le bs (start + b.entry_count) total h.1,
)

Chained-le : (ss : List (String × SectionRange)) (start : ℕ) → Chained ss start → start ≤ u64_max
Chained-le [] start h = h
Chained-le ((name, s) ∷ ss) start h = omega (arith, Chained-le ss (start + s.len) h.1)

verify_sections-Chained :
    (ss : List (String × SectionRange)) (expected : String) (start : ℕ)
    → start ≤ u64_max
    → verify_sections ss expected start ≡ ok tt
    → Chained ss start
unfolding verify_sections
verify_sections-Chained [] expected start m e = m
verify_sections-Chained ((name, s) ∷ ss) expected start m e =
    ground (arith, verify_sections-Chained ss name (start + s.len))

Chained-verify_sections :
    (ss : List (String × SectionRange)) (expected : String) (start : ℕ)
    → Chained ss start
    → verify_sections ss expected start ≡ ok tt
unfolding verify_sections
Chained-verify_sections [] expected start h = refl
Chained-verify_sections ((name, s) ∷ ss) expected start h =
    ground (
      arith,
      Chained-verify_sections ss name (start + s.len) h.1,
      Chained-le ss (start + s.len) h.1,
    )

-- What the core relies on.
pub record IsCovering (l : ValidatedLayout) : Type 0 where
  pub chained : Chained (ordered l.sections) l.sections.header.offset
  pub keys : CoversKeys l.key_blocks 0 l.total_entries
  pub records : CoversRecords l.record_blocks 0 l.total_decoded_record_len

module _ (l : ValidatedLayout) where
  verify_parts :
      verify l ≡ ok tt
      → (verify_sections (ordered l.sections) "header" l.sections.header.offset ≡ ok tt)
        × (verify_key_blocks l.key_blocks 0 ≡ ok l.total_entries)
        × (verify_record_blocks l.record_blocks 0 ≡ ok l.total_decoded_record_len)
  unfolding verify verify_contiguous
  verify_parts e = ground arith

  verify_ok : IsCovering l → verify l ≡ ok tt
  unfolding verify verify_contiguous
  verify_ok c = ground (
    arith,
    Chained-verify_sections (ordered l.sections) "header" l.sections.header.offset c.chained,
    Covers-verify_key_blocks l.key_blocks 0 l.total_entries c.keys,
    Covers-verify_record_blocks l.record_blocks 0 l.total_decoded_record_len c.records,
  )

-- `verify` accepts exactly the layouts whose sections and blocks cover their ranges.
pub verify-IsCovering :
    (l : ValidatedLayout) → l.sections.header.offset ≤ u64_max → (verify l ≡ ok tt) ↔ IsCovering l
verify-IsCovering l m = (
  λ e.
      let parts = verify_parts l e in
      record {
        chained =
            verify_sections-Chained (ordered l.sections) "header" l.sections.header.offset m
              parts.0;
        keys = verify_key_blocks-Covers l.key_blocks 0 l.total_entries (omega arith) parts.1;
        records =
            verify_record_blocks-Covers l.record_blocks 0 l.total_decoded_record_len (omega arith)
              parts.2;
      },
  verify_ok l,
)
