-- ===== src/Header/Metadata.antt =====
-- types.rs: the container kinds and the metadata of a header; and format/common/header.rs:
-- `build_header_section`.
use mdictlib.Prelude.{ℕ, Bool, true, false, not, Option, none, some, String}
use mdictlib.Error.{Result, ok, ok_or, fail_if, invalid_format, ◌>>=◌, ◌>>◌}
use mdictlib.Limits.{checked_add, checked_u64}
use mdictlib.Descriptors.{Text, SectionRange}
use mdictlib.CaseVariants.{equal_texts}
use mdictlib.Texts.{codes}
use mdictlib.Header.{Attributes}
use mdictlib.Header.Aliases.{
  known_attribute, parse_known_bool, parse_known_encryption, optional_attribute,
}

pub data ContainerKind : Type 0 where
  mdx mdd : ContainerKind

pub record Header : Type 0 where
  pub raw_xml : Text
  pub tag_name : Text
  pub attributes : Attributes
  pub generated_by_engine_version : Text
  pub required_engine_version : Text
  pub encoding_label : Option Text
  pub format : Option Text
  pub key_case_sensitive : Bool
  pub strip_key : Bool
  pub encrypted : ℕ
  pub register_by : Option Text
  pub reg_code : Option Text
  pub description : Option Text
  pub title : Option Text
  pub creation_date : Option Text

pub record HeaderSection : Type 0 where
  pub header : Header
  pub keyword_section_offset : ℕ
  pub retained_bytes : ℕ
  pub section : SectionRange

abbrev pub top_level_tag : ContainerKind → String
top_level_tag mdx = "Dictionary"
top_level_tag mdd = "Library_Data"

-- `matches!(kind, ContainerKind::Mdd)`
abbrev pub is_mdd : ContainerKind → Bool
is_mdd mdx = false
is_mdd mdd = true

-- The required version, or the generating one without it.
unfoldable pub required_version : Text → Option Text → Text
required_version generated none = generated
required_version generated (some value) = value

-- Where the section ends.
unfoldable pub section_len : ℕ → Result ℕ
section_len xml_len = do
  xml_len_u64 ← checked_u64 xml_len "header XML length"
  before ← ok_or (checked_add 4 xml_len_u64) (invalid_format "header section offset overflow")
  ok_or (checked_add before 4) (invalid_format "header section offset overflow")

-- The tag and the attributes, which become the header.
unfoldable pub read_header : ContainerKind → Text → Text → Attributes → Result Header
read_header kind raw_xml tag_name attributes = do
  fail_if (not (equal_texts tag_name (codes (top_level_tag kind))))
      (invalid_format "unexpected top-level header tag")
  generated ← known_attribute attributes "GeneratedByEngineVersion"
  generated_by_engine_version ← ok_or generated (invalid_format "missing GeneratedByEngineVersion")
  required ← known_attribute attributes "RequiredEngineVersion"
  encrypted ← parse_known_encryption attributes
  encoding_label ← optional_attribute attributes "Encoding"
  format ← optional_attribute attributes "Format"
  key_case_sensitive ← parse_known_bool attributes "KeyCaseSensitive" (is_mdd kind)
  strip_key ← parse_known_bool attributes "StripKey" false
  register_by ← optional_attribute attributes "RegisterBy"
  reg_code ← optional_attribute attributes "RegCode"
  description ← optional_attribute attributes "Description"
  title ← optional_attribute attributes "Title"
  creation_date ← optional_attribute attributes "CreationDate"
  ok (record {
    raw_xml = raw_xml;
    tag_name = tag_name;
    attributes = attributes;
    generated_by_engine_version = generated_by_engine_version;
    required_engine_version = required_version generated_by_engine_version required;
    encoding_label = encoding_label;
    format = format;
    key_case_sensitive = key_case_sensitive;
    strip_key = strip_key;
    encrypted = encrypted;
    register_by = register_by;
    reg_code = reg_code;
    description = description;
    title = title;
    creation_date = creation_date;
  })

unfoldable pub build_header_section :
    ContainerKind → ℕ → Text → Text → Attributes → ℕ → Result HeaderSection
build_header_section kind xml_len raw_xml tag_name attributes retained_bytes = do
  header ← read_header kind raw_xml tag_name attributes
  keyword_section_offset ← section_len xml_len
  ok (record {
    header = header;
    keyword_section_offset = keyword_section_offset;
    retained_bytes = retained_bytes;
    section = record { offset = 0; len = keyword_section_offset };
  })
