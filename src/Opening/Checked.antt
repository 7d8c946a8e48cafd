-- ===== src/Opening/Checked.antt =====
-- Every layout that is parsed passes the check of `verify`, so that the check never refuses a file.
use mdictlib.Prelude.{ℕ, ◌+◌, ◌≤◌, ◌≡◌, refl, sym, ap, ◌∙◌, arith, Option, ◌==◌}
use mathlib.Core.Path.{subst}
use mdictlib.Error.{Result, ok, err, ok_then, behind}
use mdictlib.Budget.{MemoryBudget}
use mdictlib.Budget.Memory.{
  Ensures, with_reserved-Ensures, lift-Ensures, lift_then, bind-Ensures, ok-Ensures,
}
use mdictlib.Budget.Accounts.{with_retained-Ensures}
use mdictlib.Source.{FileSource}
use mdictlib.Descriptors.{Text}
use mdictlib.Cursor.{Cursor, read_bytes, read_u32_le}
use mdictlib.RecordSection.{Limits}
use mdictlib.Compression.{Codecs, ChecksumPolicy}
use mdictlib.Encoding.{LegacyCodecs, TextEncoding, utf16_le, decode_text}
use mdictlib.Texts.{trim, trim_matches}
use mdictlib.Header.{Attributes, parse_single_tag}
use mdictlib.Header.Metadata.{
  ContainerKind, HeaderSection, read_header, section_len, build_header_section,
}
use mdictlib.Header.Section.{
  parse_xml, parse_header_bytes_with_limits, parse_header, check_header_checksum,
}
use mdictlib.Budget.Memory.{continue, ◌>>=◌}
use mdictlib.Descriptors.Verify.{IsCovering, verify-IsCovering}
use mdictlib.RecordSection.Rows.{LaidOut}
use mdictlib.RecordSection.Parse.{RecordSection}
use mdictlib.RecordSection.Shape.{
  IsSection, parse_v1_record_section-IsSection, parse_v2_record_section-IsSection,
}
use mdictlib.Header.Metadata.{Header}
use mdictlib.KeywordIndex.Rows.{KeysLaidOut}
use mdictlib.KeywordSection.{OpenOptions, KeywordSection}
use mdictlib.KeywordSection.Shape.{
  IsKeywordSection, parse_v1_keyword_section-IsKeywordSection,
  parse_v2_keyword_section-IsKeywordSection,
}
use mdictlib.Versions.{WireVersion, v1, v2}
use mdictlib.Opening.{
  OpenedLayout, wire_operations, layout_of, parse_keyword_section, parse_record_section,
  layout_with_keys, layout_with_header, parse_layout, parsed_layout, verified, open_layout,
}

-- The header section begins the file, and the keyword section follows it.
abbrev pub IsAtStart : HeaderSection → Type 0
IsAtStart hs = (hs.section.offset ≡ 0) × (hs.section.len ≡ hs.keyword_section_offset)

build_header_section-IsAtStart :
    (kind : ContainerKind) (xml_len : ℕ) (raw_xml tag_name : Text) (attributes : Attributes)
    (bytes : ℕ) (hs : HeaderSection)
    → build_header_section kind xml_len raw_xml tag_name attributes bytes ≡ ok hs
    → IsAtStart hs
unfolding build_header_section
build_header_section-IsAtStart kind xml_len raw_xml tag_name attributes bytes =
    behind (read_header kind raw_xml tag_name attributes) _ IsAtStart
      λ header. behind (section_len xml_len) _ IsAtStart λ offset. ok_then _ IsAtStart (refl, refl)

parse_xml-IsAtStart :
    (legacy : LegacyCodecs) (kind : ContainerKind) (limits : Limits) (policy : ChecksumPolicy)
    (cursor : Cursor) (xml_len bytes : ℕ) (hs : HeaderSection)
    → parse_xml legacy kind limits policy cursor xml_len bytes ≡ ok hs
    → IsAtStart hs
unfolding parse_xml
parse_xml-IsAtStart legacy kind limits policy cursor xml_len bytes =
    behind (read_bytes xml_len "header xml" cursor) _ IsAtStart λ xml.
      behind (read_u32_le "header checksum" xml.1) _ IsAtStart λ checksum.
        behind (check_header_checksum policy xml.0 checksum.0) _ IsAtStart λ _.
          behind (decode_text legacy utf16_le xml.0 "header xml") _ IsAtStart λ decoded.
            let raw_xml = trim (trim_matches (λ c. c == 0) decoded) in
            behind (parse_single_tag limits.header_attributes raw_xml) _ IsAtStart
              λ tag. build_header_section-IsAtStart kind xml_len raw_xml tag.0 tag.1 bytes

parse_header-IsAtStart :
    (legacy : LegacyCodecs) (kind : ContainerKind) (limits : Limits) (policy : ChecksumPolicy)
    (source : FileSource)
    → Ensures (parse_header legacy kind limits policy source) IsAtStart
unfolding parse_header parse_header_bytes_with_limits
parse_header-IsAtStart legacy kind limits policy source = with_reserved-Ensures _ _ _ (
    lift_then _ _ _ λ len_bytes _. lift_then _ _ _ λ xml_len _. lift_then _ _ _ λ _ _.
      lift_then _ _ _ λ _ _. lift_then _ _ _ λ total_len _. lift_then _ _ _ λ _ _.
        lift_then _ _ _ λ total_usize _. with_reserved-Ensures _ _ _ (
          lift_then _ _ _ λ bytes _. lift_then _ _ _ λ again _. lift_then _ _ _ λ _ _.
            lift_then _ _ _ λ _ _. lift_then _ _ _ λ xml_usize _. lift_then _ _ _ λ retained _.
              with_reserved-Ensures _ _ _ (
                lift-Ensures _ _
                  (parse_xml-IsAtStart legacy kind limits policy again.1 xml_usize retained))))

-- What opening establishes of a file.
pub record IsOpened (source : FileSource) (limits : Limits) (l : OpenedLayout) : Type 0 where
  pub covering : IsCovering l.geometry
  pub at_start : l.geometry.sections.header.offset ≡ 0
  pub inside :
      l.geometry.sections.record_blocks.offset + l.geometry.sections.record_blocks.len ≤ source.len
  pub keys :
      KeysLaidOut limits l.geometry.key_blocks l.geometry.sections.keyword_blocks.offset
        (l.geometry.sections.keyword_blocks.offset + l.geometry.sections.keyword_blocks.len)
  pub records :
      LaidOut source limits l.geometry.record_blocks l.geometry.sections.record_blocks.offset
        (l.geometry.sections.record_blocks.offset + l.geometry.sections.record_blocks.len)

abbrev keyword_header_len : WireVersion → ℕ
keyword_header_len v1 = 16
keyword_header_len v2 = 44

module _ (codecs : Codecs) (legacy : LegacyCodecs) (source : FileSource) (kind : ContainerKind)
    (options : OpenOptions) where
  keys-IsKeywordSection :
      (version : WireVersion) (header : Header) (encoding : TextEncoding) (offset : ℕ)
      → Ensures
          (parse_keyword_section codecs legacy source kind options version header encoding offset)
          (IsKeywordSection (keyword_header_len version) source options.limits offset)
  unfolding parse_keyword_section
  keys-IsKeywordSection v1 header encoding offset =
      parse_v1_keyword_section-IsKeywordSection codecs legacy source header encoding offset options
  keys-IsKeywordSection v2 header encoding offset =
      parse_v2_keyword_section-IsKeywordSection codecs legacy source header encoding offset options

  records-IsSection :
      (version : WireVersion) (offset : ℕ)
      → Ensures
          (parse_record_section codecs legacy source kind options version offset)
          (IsSection (wire_operations version) source options.limits offset)
  unfolding parse_record_section Ensures
  records-IsSection v1 offset = parse_v1_record_section-IsSection source offset options.limits
  records-IsSection v2 offset = parse_v2_record_section-IsSection source offset options.limits

  layout_of-IsOpened :
      (version : WireVersion) (hs : HeaderSection) (key_encoding : TextEncoding)
      (record_encoding : Option TextEncoding) (keys : KeywordSection) (records : RecordSection)
      → IsAtStart hs
      → IsKeywordSection
          (keyword_header_len version)
          source
          options.limits
          hs.keyword_section_offset
          keys
      → IsSection (wire_operations version) source options.limits keys.record_section_offset records
      → IsOpened source options.limits
          (layout_of version hs key_encoding record_encoding keys records)
  unfolding layout_of
  layout_of-IsOpened version hs key_encoding record_encoding keys records start k r = record {
    covering = record {
      chained = (
        refl,
        (
          omega arith,
          (omega arith, (omega arith, (omega arith, (omega arith, (omega arith, omega arith))))),
        ),
      );
      keys = k.covers;
      records = r.covers;
    };
    at_start = start.0;
    inside = r.blocks_inside;
    keys =
        subst (KeysLaidOut options.limits keys.blocks keys.sections.blocks.offset) k.records_at
          k.laid_out;
    records = r.laid_out;
  }

  layout_with_keys-IsOpened :
      (version : WireVersion) (hs : HeaderSection) (key_encoding : TextEncoding)
      (record_encoding : Option TextEncoding) (keys : KeywordSection)
      → IsAtStart hs
      → IsKeywordSection
          (keyword_header_len version)
          source
          options.limits
          hs.keyword_section_offset
          keys
      → Ensures
          (layout_with_keys codecs legacy source kind options version hs key_encoding
            record_encoding keys)
          (IsOpened source options.limits)
  unfolding layout_with_keys
  layout_with_keys-IsOpened version hs key_encoding record_encoding keys start k =
      bind-Ensures _ _ _ _ (records-IsSection version keys.record_section_offset) λ records r.
        with_retained-Ensures _ _ _ (
          lift_then _ _ _ λ _ _.
            ok-Ensures _ _
              (layout_of-IsOpened version hs key_encoding record_encoding keys records start k r))

  -- Whatever is parsed, is in order.
  pub parsed_layout-IsOpened :
      Ensures (parsed_layout codecs legacy source kind options) (IsOpened source options.limits)
  unfolding parsed_layout parse_layout layout_with_header
  parsed_layout-IsOpened =
      bind-Ensures _ _ _ _
        (parse_header-IsAtStart legacy kind options.limits options.checksum_policy source)
        λ hs start. lift_then _ _ _ λ version _. with_retained-Ensures _ _ _ (
          lift_then _ _ _ λ key_encoding _. lift_then _ _ _ λ record_encoding _.
            bind-Ensures _ _ _ _
              (keys-IsKeywordSection version hs.header key_encoding hs.keyword_section_offset)
              λ keys k.
                with_retained-Ensures _ _ _
                  (layout_with_keys-IsOpened version hs key_encoding record_encoding keys start k))

  accepts :
      (l : OpenedLayout) (b : MemoryBudget)
      → IsOpened source options.limits l
      → verified l b ≡ (ok l, b)
  unfolding verified
  accepts l b o = rw ((verify-IsCovering l.geometry (omega (arith, o.at_start))).1 o.covering) refl

  unrefused :
      (p : Result OpenedLayout × MemoryBudget)
      → ((l : OpenedLayout) → p.0 ≡ ok l → IsOpened source options.limits l)
      → continue verified p ≡ p
  unrefused (ok l, b) h = accepts l b (h l refl)
  unrefused (err e, b) h = refl

-- Whatever the file and the options: the check at the end of `open_layout` refuses nothing that was parsed,
-- so that opening returns what is parsed, or its error; and a layout that is returned has contiguous
-- sections from the start of the file on, which end inside it, key blocks that number the entries
-- without a gap and fill their section, and record blocks that cover the decoded stream and fill theirs.
pub open_layout-IsOpened :
    (codecs : Codecs) (legacy : LegacyCodecs) (source : FileSource) (kind : ContainerKind)
    (options : OpenOptions) (b : MemoryBudget)
    → (open_layout codecs legacy source kind options b
        ≡ parsed_layout codecs legacy source kind options b)
      × ((l : OpenedLayout)
          → (open_layout codecs legacy source kind options b).0 ≡ ok l
          → IsOpened source options.limits l)
unfolding open_layout ◌>>=◌ Ensures
open_layout-IsOpened codecs legacy source kind options b =
    let parsed = parsed_layout-IsOpened codecs legacy source kind options b in
    let same =
      unrefused codecs legacy source kind options
        (parsed_layout codecs legacy source kind options b) parsed in
    (same, λ l e. parsed l (sym (ap (λ p. p.0) same) ∙ e))
