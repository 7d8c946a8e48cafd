-- ===== src/Opening.antt =====
-- format/mod.rs: `open_layout`, and `parse_layout` of format/v1/mod.rs and format/v2/mod.rs.
pub mod Checked
pub mod Memory
pub mod File
use mdictlib.Prelude.{ℕ, ◌+◌, not, Option, [], ◌∷◌, ◌==◌}
use mdictlib.Error.{Result, ok, err, fail_if, ok_or, invalid_data, invalid_format, num}
use mdictlib.Error.{◌>>=◌ as and_then}
use mdictlib.Limits.{checked_add}
use mdictlib.Budget.{MemoryBudget, release}
use mdictlib.Budget.Memory.{MemoryM, lift, ◌>>=◌}
use mdictlib.Budget.Implements.{with_retained}
use mdictlib.Source.{FileSource}
use mdictlib.Descriptors.{ValidatedLayout, verify}
use mdictlib.RecordSection.{Wire, v1_wire, v2_wire}
use mdictlib.RecordSection.Parse.{RecordSection, parse_v1_record_section, parse_v2_record_section}
use mdictlib.Compression.{Codecs}
use mdictlib.Encoding.{LegacyCodecs, TextEncoding}
use mdictlib.Encoding.Labels.{for_keys, for_records}
use mdictlib.Header.Metadata.{ContainerKind, Header, HeaderSection}
use mdictlib.Header.Section.{parse_header}
use mdictlib.KeywordSection.{OpenOptions, KeywordSection}
use mdictlib.KeywordSection.Parse.{parse_v1_keyword_section, parse_v2_keyword_section}
use mdictlib.Versions.{WireVersion, v1, v2, select_grammar}

-- The sizes of the three reservations.
pub record RetainedBudget : Type 0 where
  pub header : ℕ
  pub key_metadata : ℕ
  pub record_metadata : ℕ

unfoldable pub metadata_bytes : RetainedBudget → Result ℕ
metadata_bytes r =
    and_then
      (ok_or (checked_add r.header r.key_metadata)
        (invalid_format "metadata memory accounting overflow"))
      (λ bytes.
        ok_or (checked_add bytes r.record_metadata)
          (invalid_format "metadata memory accounting overflow"))

-- `ValidatedLayout` as a whole; its geometry is that of Descriptors, and `wire` selects `decode_key_rows`.
pub record OpenedLayout : Type 0 where
  pub header : Header
  pub key_encoding : TextEncoding
  pub record_encoding : Option TextEncoding
  pub geometry : ValidatedLayout
  pub wire : Wire
  pub retained : RetainedBudget

-- `wire: keyword::WIRE_OPERATIONS`
abbrev pub wire_operations : WireVersion → Wire
wire_operations v1 = v1_wire
wire_operations v2 = v2_wire

-- The end of `parse_layout`: the layout of the parsed sections.
unfoldable pub layout_of :
    WireVersion
    → HeaderSection
    → TextEncoding
    → Option TextEncoding
    → KeywordSection
    → RecordSection
    → OpenedLayout
layout_of version hs key_encoding record_encoding keys records = record {
  header = hs.header;
  key_encoding = key_encoding;
  record_encoding = record_encoding;
  geometry = record {
    sections = record {
      header = hs.section;
      keyword_header = keys.sections.header;
      keyword_index = keys.sections.index;
      keyword_blocks = keys.sections.blocks;
      record_header = records.sections.header;
      record_index = records.sections.index;
      record_blocks = records.sections.blocks;
    };
    total_entries = keys.num_entries;
    total_decoded_record_len = records.total_decompressed_len;
    key_blocks = keys.blocks;
    record_blocks = records.blocks;
  };
  wire = wire_operations version;
  retained = record {
    header = hs.retained_bytes;
    key_metadata = keys.retained_bytes;
    record_metadata = records.retained_bytes;
  };
}

unfoldable pub reconcile_counts : KeywordSection → RecordSection → Result (Unit {0})
reconcile_counts keys records = fail_if (not (keys.num_entries == records.num_entries)) (
    invalid_data "entry count mismatch between key index ({}) and record index ({})"
      (num keys.num_entries ∷ num records.num_entries ∷ []))

-- What the layout has reserved.
abbrev pub held_by_layout : OpenedLayout → ℕ
held_by_layout l = l.retained.header + (l.retained.key_metadata + l.retained.record_metadata)

-- `layout.verify()?`: a layout that it refuses is dropped with what it has reserved.
abbrev pub drop_unverified :
    OpenedLayout → MemoryBudget → Result (Unit {0}) → Result OpenedLayout × MemoryBudget
drop_unverified l b (ok _) = (ok l, b)
drop_unverified l b (err e) = (err e, release (held_by_layout l) b)

unfoldable pub verified : OpenedLayout → MemoryM OpenedLayout
verified l b = drop_unverified l b (verify l.geometry)

module _ (codecs : Codecs) (legacy : LegacyCodecs) (source : FileSource) (kind : ContainerKind)
    (options : OpenOptions) where
  -- The parsers of a grammar.
  unfoldable pub parse_keyword_section :
      WireVersion → Header → TextEncoding → ℕ → MemoryM KeywordSection
  parse_keyword_section v1 header encoding offset =
      parse_v1_keyword_section codecs legacy source header encoding offset options
  parse_keyword_section v2 header encoding offset =
      parse_v2_keyword_section codecs legacy source header encoding offset options

  unfoldable pub parse_record_section : WireVersion → ℕ → MemoryM RecordSection
  parse_record_section v1 offset = parse_v1_record_section source offset options.limits
  parse_record_section v2 offset = parse_v2_record_section source offset options.limits

  -- `parse_layout`, from the records on: the metadata of the keys is reserved.
  unfoldable pub layout_with_keys :
      WireVersion
      → HeaderSection
      → TextEncoding
      → Option TextEncoding
      → KeywordSection
      → MemoryM OpenedLayout
  layout_with_keys version hs key_encoding record_encoding keys = do
    records ← parse_record_section version keys.record_section_offset
    with_retained records.retained_bytes (do
      _ ← lift (reconcile_counts keys records)
      lift (ok (layout_of version hs key_encoding record_encoding keys records)))

  -- `parse_layout`, from the encodings on: the header is reserved.
  unfoldable pub layout_with_header : WireVersion → HeaderSection → MemoryM OpenedLayout
  layout_with_header version hs = do
    key_encoding ← lift (for_keys kind hs.header)
    record_encoding ← lift (for_records kind hs.header)
    keys ← parse_keyword_section version hs.header key_encoding hs.keyword_section_offset
    with_retained keys.retained_bytes
        (layout_with_keys version hs key_encoding record_encoding keys)

  -- `parse_layout` of the module of the version.
  unfoldable pub parse_layout : WireVersion → HeaderSection → MemoryM OpenedLayout
  parse_layout version hs = with_retained hs.retained_bytes (layout_with_header version hs)

  -- `open_layout`, up to its last check.
  unfoldable pub parsed_layout : MemoryM OpenedLayout
  parsed_layout = do
    hs ← parse_header legacy kind options.limits options.checksum_policy source
    version ←
        lift
          (select_grammar hs.header.generated_by_engine_version hs.header.required_engine_version)
    parse_layout version hs

  unfoldable pub open_layout : MemoryM OpenedLayout
  open_layout = parsed_layout >>= verified
