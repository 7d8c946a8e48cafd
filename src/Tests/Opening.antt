-- ===== src/Tests/Opening.antt =====
-- Opening a small version 1 dictionary.
use mdictlib.Encoding.{utf8}
use mdictlib.RecordSection.{v1_wire}
use mdictlib.Opening.File.{key_file_of, open_file, read_key_blocks}
use mdictlib.Opening.File.Reads.{open_file-Returns}
use mdictlib.KeyBlocks.Cache.{KeyState, decode_key_block}
use mdictlib.KeyBlocks.Cache.Consistent.{IsConsistent, Returns}
use mdictlib.Prelude.{ℕ, List, [], ◌∷◌, ◌++◌, none, false, ◌≡◌, ◌↔◌, refl, arith, some}
use mdictlib.Error.{ok}
use mdictlib.Budget.{MemoryBudget}
use mdictlib.Budget.Laws.{IsSound}
use mdictlib.Budget.Accounts.{Kept}
use mdictlib.Compression.{verify}
use mdictlib.Source.{FileSource}
use mdictlib.Texts.{codes}
use mdictlib.Header.Metadata.{mdx}
use mdictlib.KeywordSection.{OpenOptions}
use mdictlib.Versions.{v2, select_grammar}
use mdictlib.Versions.Dispatch.{Declared, select_grammar-Accepted}
use mdictlib.Opening.{OpenedLayout, held_by_layout, open_layout, parsed_layout}
use mdictlib.Opening.Checked.{IsOpened, open_layout-IsOpened}
use mdictlib.Opening.Memory.{open_layout-Kept}
use mdictlib.Tests.Sample.{limits, codecs, source_of, v1_content}
use mdictlib.Tests.Keys.{legacy}

-- <Dictionary GeneratedByEngineVersion="1.2"/>
abbrev header_bytes_of_file : List ℕ
header_bytes_of_file =
    0 ∷ 0 ∷ 0 ∷ 88 ∷ 60 ∷ 0 ∷ 68 ∷ 0 ∷ 105 ∷ 0 ∷ 99 ∷ 0 ∷ 116 ∷ 0 ∷ 105 ∷ 0 ∷ 111 ∷ 0 ∷ 110 ∷ 0 ∷ 97
    ∷ 0 ∷ 114 ∷ 0 ∷ 121 ∷ 0 ∷ 32 ∷ 0 ∷ 71 ∷ 0 ∷ 101 ∷ 0 ∷ 110 ∷ 0 ∷ 101 ∷ 0 ∷ 114 ∷ 0 ∷ 97 ∷ 0 ∷ 116
    ∷ 0 ∷ 101 ∷ 0 ∷ 100 ∷ 0 ∷ 66 ∷ 0 ∷ 121 ∷ 0 ∷ 69 ∷ 0 ∷ 110 ∷ 0 ∷ 103 ∷ 0 ∷ 105 ∷ 0 ∷ 110 ∷ 0
    ∷ 101 ∷ 0 ∷ 86 ∷ 0 ∷ 101 ∷ 0 ∷ 114 ∷ 0 ∷ 115 ∷ 0 ∷ 105 ∷ 0 ∷ 111 ∷ 0 ∷ 110 ∷ 0 ∷ 61 ∷ 0 ∷ 34 ∷ 0
    ∷ 49 ∷ 0 ∷ 46 ∷ 0 ∷ 50 ∷ 0 ∷ 34 ∷ 0 ∷ 47 ∷ 0 ∷ 62 ∷ 0 ∷ 120 ∷ 15 ∷ 244 ∷ 228 ∷ []

abbrev keyword_bytes_of_file : List ℕ
keyword_bytes_of_file =
    0 ∷ 0 ∷ 0 ∷ 1 ∷ 0 ∷ 0 ∷ 0 ∷ 1 ∷ 0 ∷ 0 ∷ 0 ∷ 16 ∷ 0 ∷ 0 ∷ 0 ∷ 14 ∷ 0 ∷ 0 ∷ 0 ∷ 1 ∷ 1 ∷ 97 ∷ 1
    ∷ 97 ∷ 0 ∷ 0 ∷ 0 ∷ 14 ∷ 0 ∷ 0 ∷ 0 ∷ 6 ∷ 0 ∷ 0 ∷ 0 ∷ 0 ∷ 0 ∷ 200 ∷ 0 ∷ 98 ∷ 0 ∷ 0 ∷ 0 ∷ 0 ∷ 97
    ∷ 0 ∷ []

abbrev dictionary : FileSource
dictionary = source_of (header_bytes_of_file ++ (keyword_bytes_of_file ++ v1_content))

abbrev options : OpenOptions
options = record { passcode = none; limits = limits; checksum_policy = verify }

abbrev memory : MemoryBudget
memory = record { max_bytes = 10000; used = 0; peak = 0 }

open_layout-IsOpened_example :
    (open_layout codecs legacy dictionary mdx options memory
      ≡ parsed_layout codecs legacy dictionary mdx options memory)
    × ((l : OpenedLayout)
        → (open_layout codecs legacy dictionary mdx options memory).0 ≡ ok l
        → IsOpened dictionary limits l)
open_layout-IsOpened_example = open_layout-IsOpened codecs legacy dictionary mdx options memory

memory-IsSound : IsSound memory 0
memory-IsSound = record {
  machine = omega arith;
  accounted = refl;
  within = omega arith;
  peaked = omega arith;
}

open_layout-Kept_example :
    Kept held_by_layout 0 (open_layout codecs legacy dictionary mdx options memory)
open_layout-Kept_example =
    open_layout-Kept codecs legacy dictionary mdx options memory 0 memory-IsSound

select_grammar_example :
    (select_grammar (codes "2.0") (codes "1.2") ≡ ok v2) ↔ Declared (codes "2.0") (codes "1.2") v2
select_grammar_example = select_grammar-Accepted (codes "2.0") (codes "1.2") v2

abbrev wide : OpenOptions
wide = record {
  passcode = none;
  limits = record limits { working_memory_bytes = 10000 };
  checksum_policy = verify;
}

abbrev opened_layout : OpenedLayout
opened_layout = record {
  header = record {
    raw_xml = codes "<Dictionary GeneratedByEngineVersion=\"1.2\"/>";
    tag_name = codes "Dictionary";
    attributes = (codes "GeneratedByEngineVersion", codes "1.2") ∷ [];
    generated_by_engine_version = codes "1.2";
    required_engine_version = codes "1.2";
    encoding_label = none;
    format = none;
    key_case_sensitive = false;
    strip_key = false;
    encrypted = 0;
    register_by = none;
    reg_code = none;
    description = none;
    title = none;
    creation_date = none;
  };
  key_encoding = utf8;
  record_encoding = some utf8;
  geometry = record {
    sections = record {
      header = record { offset = 0; len = 96 };
      keyword_header = record { offset = 96; len = 16 };
      keyword_index = record { offset = 112; len = 16 };
      keyword_blocks = record { offset = 128; len = 14 };
      record_header = record { offset = 142; len = 16 };
      record_index = record { offset = 158; len = 8 };
      record_blocks = record { offset = 166; len = 11 };
    };
    total_entries = 1;
    total_decoded_record_len = 3;
    key_blocks =
        record {
          entry_count = 1;
          entry_start_index = 0;
          first_key = 97 ∷ [];
          last_key = 97 ∷ [];
          comp_offset = 128;
          comp_size = 14;
          decomp_size = 6;
        }
        ∷ [];
    record_blocks =
        record { comp_offset = 166; comp_size = 11; decomp_offset = 0; decomp_size = 3 } ∷ [];
  };
  wire = v1_wire;
  retained = record { header = 1768; key_metadata = 104; record_metadata = 32 };
}

abbrev opened_state : KeyState
opened_state = record {
  memory = record { max_bytes = 10000; used = 1904; peak = 1928 };
  key_block_cache = none;
}

opened :
    open_file codecs legacy (λ c. c ∷ []) dictionary mdx wide ≡ ok (opened_layout, opened_state)
unfolding mdictlib.Opening.File.open_file mdictlib.Budget.new mdictlib.Header.entity_char
    mdictlib.Header.unescape_loop mdictlib.Header.unescape_xml mdictlib.Header.ends_tag_name
    mdictlib.Header.ends_name mdictlib.Header.expect_char mdictlib.Header.open_quote
    mdictlib.Header.close_quote mdictlib.Header.has_name mdictlib.Header.read_attribute
    mdictlib.Header.close_self mdictlib.Header.read_attributes mdictlib.Header.check_closing
    mdictlib.Header.parse_single_tag mdictlib.Header.Metadata.required_version
    mdictlib.Header.Metadata.section_len mdictlib.Header.Metadata.read_header
    mdictlib.Header.Metadata.build_header_section mdictlib.Header.Section.header_memory_estimate
    mdictlib.Header.Section.check_alignment mdictlib.Header.Section.check_header_checksum
    mdictlib.Header.Section.parse_xml mdictlib.Header.Section.parse_header_bytes_with_limits
    mdictlib.Header.Section.header_total_len mdictlib.Header.Section.parse_header
    mdictlib.Header.Aliases.agree mdictlib.Header.Aliases.find_alias
    mdictlib.Header.Aliases.known_attribute mdictlib.Header.Aliases.parse_known_bool
    mdictlib.Header.Aliases.parse_known_encryption mdictlib.Header.Aliases.nonempty_value
    mdictlib.Header.Aliases.optional_attribute mdictlib.Texts.is_ascii_whitespace
    mdictlib.Texts.is_ascii_digit mdictlib.Texts.split_where mdictlib.Texts.trim
    mdictlib.Texts.all_of mdictlib.CaseVariants.eq_ignore_ascii_case mdictlib.Encoding.decode_utf8
    mdictlib.Encoding.le_units mdictlib.Encoding.decode_utf16 mdictlib.Encoding.max_decoded_len
    mdictlib.Encoding.decode_text mdictlib.Encoding.Labels.declared_label
    mdictlib.Encoding.Labels.from_label mdictlib.Encoding.Labels.for_keys
    mdictlib.Encoding.Labels.for_records mdictlib.Versions.split_dots mdictlib.Versions.is_numeric
    mdictlib.Versions.all_numeric mdictlib.Versions.major_of
    mdictlib.Versions.declared_major_version mdictlib.Versions.validate_version_relationship
    mdictlib.Versions.resolve_wire_version mdictlib.Versions.select_grammar
    mdictlib.KeywordSection.has_keyword_header mdictlib.KeywordSection.has_keyword_index
    mdictlib.KeywordSection.read_v1_keyword_header mdictlib.KeywordSection.refuse_encryption
    mdictlib.KeywordSection.keyword_metadata_bytes mdictlib.KeywordSection.place_keyword_section
    mdictlib.KeywordSection.ensure_key_blocks mdictlib.KeywordSection.finish_keyword_section
    mdictlib.KeywordSection.Parse.keyword_section_of mdictlib.KeywordSection.Parse.read_v1_index
    mdictlib.KeywordSection.Parse.parse_v1_keyword_section mdictlib.KeywordIndex.wire_of
    mdictlib.KeywordIndex.minimum_keyword_index_entry_bytes
    mdictlib.KeywordIndex.validate_keyword_header_counts mdictlib.KeywordIndex.read_summary
    mdictlib.KeywordIndex.index_row mdictlib.KeywordIndex.index_rows
    mdictlib.KeywordIndex.parse_keyword_index_entries mdictlib.KeywordIndex.sum_sizes
    mdictlib.KeywordIndex.entries_end mdictlib.KeywordIndex.check_totals
    mdictlib.RecordSection.read_record_header mdictlib.RecordSection.validate_record_header
    mdictlib.RecordSection.record_row mdictlib.RecordSection.record_rows
    mdictlib.RecordSection.check_record_end mdictlib.RecordSection.parse_record_index
    mdictlib.RecordSection.Parse.read_record_index mdictlib.RecordSection.Parse.reserve_record_index
    mdictlib.RecordSection.Parse.parse_record_section_at
    mdictlib.RecordSection.Parse.parse_v1_record_section mdictlib.Cursor.read_u8
    mdictlib.Cursor.read_u32_le mdictlib.Cursor.read_u32_be_widened mdictlib.Source.read_exact_at
    mdictlib.Checksum.adler32 mdictlib.Checksum.verify_adler32 mdictlib.Budget.grow
    mdictlib.Budget.drop_reservation mdictlib.Budget.Memory.lift mdictlib.Budget.Memory.◌>>=◌
    mdictlib.Budget.Memory.with_reserved mdictlib.Budget.Implements.with_retained
    mdictlib.Opening.layout_of mdictlib.Opening.reconcile_counts mdictlib.Opening.verified
    mdictlib.Opening.parse_keyword_section mdictlib.Opening.parse_record_section
    mdictlib.Opening.layout_with_keys mdictlib.Opening.layout_with_header
    mdictlib.Opening.parse_layout mdictlib.Opening.parsed_layout mdictlib.Opening.open_layout
    mdictlib.Descriptors.verify_sections mdictlib.Descriptors.verify_contiguous
    mdictlib.Descriptors.verify_key_blocks mdictlib.Descriptors.verify_record_blocks
    mdictlib.Descriptors.verify mdictlib.Compression.is_skip mdictlib.Bytes.from_be
opened = refl

open_file-Returns_example :
    (Returns
      (key_file_of codecs legacy (λ c. c ∷ []) dictionary mdx wide opened_layout)
      0
      (decode_key_block
        (key_file_of codecs legacy (λ c. c ∷ []) dictionary mdx wide opened_layout)
        0
        (read_key_blocks
          (key_file_of codecs legacy (λ c. c ∷ []) dictionary mdx wide opened_layout)
          (1 ∷ 0 ∷ [])
          opened_state)).0)
    × IsConsistent
        (key_file_of codecs legacy (λ c. c ∷ []) dictionary mdx wide opened_layout)
        (held_by_layout opened_layout)
        (read_key_blocks
          (key_file_of codecs legacy (λ c. c ∷ []) dictionary mdx wide opened_layout)
          (1 ∷ 0 ∷ [])
          opened_state)
open_file-Returns_example =
    open_file-Returns codecs legacy (λ c. c ∷ []) dictionary mdx wide opened_layout opened_state
      (1 ∷ 0 ∷ []) 0 (omega arith) opened
