-- ===== src/KeywordSection.antt =====
-- format/v1/keyword.rs and format/v2/keyword.rs: `parse_keyword_section`, less its reservations, which
-- are in KeywordSection/Parse. The rows of its index are in KeywordIndex.
pub mod Parse
pub mod Shape
use Prim.Native.Nat.{bit_and}
use mdictlib.Prelude.{
  ℕ, Bool, ◌||◌, not, Option, List, [], ◌∷◌, ◌++◌, ◌==◌, ltb, if◌then◌else◌, String, length, take,
  drop, slice,
}
use mdictlib.Error.{
  Result, ok, ok_or, fail_if, invalid_format, invalid_data, unsupported, truncated,
  missing_passcode, num, ◌>>=◌, ◌>>◌,
}
use mdictlib.Limits.{checked_add, checked_mul, ensure_u64_limit}
use mdictlib.Bytes.{from_be}
use mdictlib.Cursor.{Cursor, read_u64_be, read_u32_be_widened}
use mdictlib.Cursor
use mdictlib.Source.{FileSource, ensure_range}
use mdictlib.Descriptors.{SectionRange, KeyBlockDescriptor}
use mdictlib.RecordSection.{Limits}
use mdictlib.Compression.{ChecksumPolicy}
use mdictlib.Encoding.{LegacyCodecs, TextEncoding, max_decoded_len}
use mdictlib.KeywordIndex.{key_descriptor_bytes, check_totals}
use mdictlib.Crypto.Keyword.{Passcode, decrypt_keyword_header_block, decrypt_keyword_index_block}

pub record OpenOptions : Type 0 where
  pub passcode : Option Passcode
  pub limits : Limits
  pub checksum_policy : ChecksumPolicy

-- `EncryptionMode`
unfoldable pub has_keyword_header : ℕ → Bool
has_keyword_header bits = not (bit_and bits 1 == 0)

unfoldable pub has_keyword_index : ℕ → Bool
has_keyword_index bits = not (bit_and bits 2 == 0)

pub record KeywordSectionRanges : Type 0 where
  pub header : SectionRange
  pub index : SectionRange
  pub blocks : SectionRange

pub record KeywordSection : Type 0 where
  pub num_entries : ℕ
  pub record_section_offset : ℕ
  pub blocks : List KeyBlockDescriptor
  pub retained_bytes : ℕ
  pub sections : KeywordSectionRanges

-- The fields of the header. Version 1 has one length of the index, which is not compressed.
pub record KeywordHeader : Type 0 where
  pub num_blocks : ℕ
  pub num_entries : ℕ
  pub index_decomp_len : ℕ
  pub index_comp_len : ℕ
  pub blocks_len : ℕ

unfoldable pub read_v1_keyword_header : List ℕ → Result KeywordHeader
read_v1_keyword_header raw_header = do
  (num_blocks, c) ← read_u32_be_widened "keyword num_blocks" (Cursor.new raw_header)
  (num_entries, c) ← read_u32_be_widened "keyword num_entries" c
  (key_info_len, c) ← read_u32_be_widened "keyword index length" c
  (blocks_len, c) ← read_u32_be_widened "keyword blocks length" c
  ok (record {
    num_blocks = num_blocks;
    num_entries = num_entries;
    index_decomp_len = key_info_len;
    index_comp_len = key_info_len;
    blocks_len = blocks_len;
  })

unfoldable pub read_v2_keyword_header : List ℕ → Result KeywordHeader
read_v2_keyword_header raw_header = do
  (num_blocks, c) ← read_u64_be "keyword num_blocks" (Cursor.new raw_header)
  (num_entries, c) ← read_u64_be "keyword num_entries" c
  (index_decomp_len, c) ← read_u64_be "keyword index decompressed length" c
  (index_comp_len, c) ← read_u64_be "keyword index compressed length" c
  (blocks_len, c) ← read_u64_be "keyword blocks length" c
  ok (record {
    num_blocks = num_blocks;
    num_entries = num_entries;
    index_decomp_len = index_decomp_len;
    index_comp_len = index_comp_len;
    blocks_len = blocks_len;
  })

-- The refusal of version 1.
unfoldable pub refuse_encryption : ℕ → Result (Unit {0})
refuse_encryption bits =
    fail_if (has_keyword_header bits || has_keyword_index bits)
      (unsupported "encrypted MDict version 1 keyword sections")

-- The first 40 bytes of the header of version 2, decrypted where they are encrypted.
unfoldable pub plain_keyword_header : ℕ → Option Passcode → List ℕ → Result (List ℕ)
plain_keyword_header bits passcode raw_header =
    let decrypted = (do
      known ← ok_or passcode missing_passcode
      decrypt_keyword_header_block (take 40 raw_header) known) in
    if has_keyword_header bits then decrypted else ok (take 40 raw_header)

-- The two limits of version 2, and the room for an envelope.
unfoldable pub check_index_lengths : KeywordHeader → Limits → Result (Unit {0})
check_index_lengths h limits = do
  ensure_u64_limit "key_index_decompressed_bytes" h.index_decomp_len limits.key_index_bytes
  ensure_u64_limit "key_index_compressed_bytes" h.index_comp_len limits.key_index_bytes
  fail_if (ltb h.index_comp_len 8) (
      invalid_data "keyword index block is {} bytes; at least 8 are required"
        (num h.index_comp_len ∷ []))

-- The index block of version 2, decrypted behind its envelope where it is encrypted.
unfoldable pub plain_keyword_index : ℕ → List ℕ → Result (List ℕ)
plain_keyword_index bits bytes =
    let decrypted = (do
      fail_if (ltb (length bytes) 8) (truncated "keyword index block" 8 (length bytes))
      ok (
          take 8 bytes
          ++ decrypt_keyword_index_block (from_be (slice 4 8 bytes)) (drop 8 bytes))) in
    if has_keyword_index bits then decrypted else ok bytes

pub record KeywordOffsets : Type 0 where
  pub index : ℕ
  pub blocks : ℕ
  pub records : ℕ

-- `retained_bytes`
unfoldable pub keyword_metadata_bytes : LegacyCodecs → TextEncoding → ℕ → ℕ → Result ℕ
keyword_metadata_bytes legacy encoding index_len num_blocks = do
  decoded_summary_bytes ← max_decoded_len legacy encoding index_len
  descriptors ←
      ok_or (checked_mul num_blocks key_descriptor_bytes)
        (invalid_format "keyword metadata size overflow")
  ok_or (checked_add decoded_summary_bytes descriptors)
      (invalid_format "keyword metadata size overflow")

module _ (source : FileSource) (offset : ℕ) where
  -- The three offsets, and the checks of the ranges between them.
  unfoldable pub place_keyword_section : ℕ → String → ℕ → ℕ → Result KeywordOffsets
  place_keyword_section header_len context index_len blocks_len = do
    index ← ok_or (checked_add offset header_len) (invalid_format "keyword index offset overflow")
    blocks ← ok_or (checked_add index index_len) (invalid_format "keyword blocks offset overflow")
    records ←
        ok_or (checked_add blocks blocks_len) (invalid_format "record section offset overflow")
    ensure_range source index index_len context
    ensure_range source blocks blocks_len "keyword block section"
    ok (record { index = index; blocks = blocks; records = records })

  -- `for block in &blocks`
  unfoldable pub ensure_key_blocks : List KeyBlockDescriptor → Result (Unit {0})
  ensure_key_blocks [] = ok tt
  ensure_key_blocks (block ∷ blocks) =
      ensure_range source block.comp_offset block.comp_size "keyword block"
      >> ensure_key_blocks blocks

  -- What follows the index: the totals, the ranges of the blocks, and the result.
  unfoldable pub finish_keyword_section :
      ℕ → KeywordHeader → KeywordOffsets → ℕ → List KeyBlockDescriptor → Result KeywordSection
  finish_keyword_section header_len h at retained_bytes blocks = do
    check_totals blocks h.num_entries h.blocks_len
    ensure_key_blocks blocks
    ok (record {
      num_entries = h.num_entries;
      record_section_offset = at.records;
      blocks = blocks;
      retained_bytes = retained_bytes;
      sections = record {
        header = record { offset = offset; len = header_len };
        index = record { offset = at.index; len = h.index_comp_len };
        blocks = record { offset = at.blocks; len = h.blocks_len };
      };
    })
