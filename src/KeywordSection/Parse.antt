-- ===== src/KeywordSection/Parse.antt =====
-- The keyword section parsers of both versions with the reservations that they hold while they run.
use mdictlib.Prelude.{ℕ, List, drop}
use mdictlib.Error.{Result, ◌>>=◌ as and_then}
use mdictlib.Limits.{checked_usize, ensure_u64_limit}
use mdictlib.Budget.Memory.{MemoryM, lift, ◌>>=◌, with_reserved}
use mdictlib.Source.{FileSource, read_exact_at}
use mdictlib.Compression.{Codecs, decode_block}
use mdictlib.Encoding.{LegacyCodecs, TextEncoding}
use mdictlib.Header.Metadata.{Header}
use mdictlib.KeywordIndex.{
  Grammar, KeywordIndexLayout, version1, version2, detect_keyword_index_layout,
  validate_keyword_header_counts, parse_keyword_index_entries,
}
use mdictlib.KeywordSection.{
  OpenOptions, KeywordSection, KeywordHeader, KeywordOffsets, read_v1_keyword_header,
  read_v2_keyword_header, refuse_encryption, plain_keyword_header, check_index_lengths,
  plain_keyword_index, keyword_metadata_bytes, place_keyword_section, finish_keyword_section,
}

module _ (codecs : Codecs) (legacy : LegacyCodecs) (source : FileSource) (header : Header)
    (encoding : TextEncoding) (offset : ℕ) (options : OpenOptions) where
  -- From the decoded index on.
  unfoldable pub keyword_section_of :
      Grammar → ℕ → KeywordHeader → KeywordOffsets → ℕ → ℕ → List ℕ → Result KeywordSection
  keyword_section_of g header_len h at num_blocks retained_bytes decoded =
      and_then
        (parse_keyword_index_entries legacy g encoding options.limits decoded num_blocks at.blocks)
        (finish_keyword_section source offset header_len h at retained_bytes)

  -- The read of the raw index of version 1.
  unfoldable pub read_v1_index : KeywordHeader → KeywordOffsets → ℕ → MemoryM KeywordSection
  read_v1_index h at num_blocks = do
    index_len ← lift (checked_usize h.index_comp_len "keyword index length")
    with_reserved index_len (do
      key_info ← lift (read_exact_at source at.index index_len "keyword index")
      retained_bytes ← lift (keyword_metadata_bytes legacy encoding index_len num_blocks)
      with_reserved retained_bytes
          (lift (keyword_section_of version1 16 h at num_blocks retained_bytes key_info)))

  -- v1/keyword.rs
  unfoldable pub parse_v1_keyword_section : MemoryM KeywordSection
  parse_v1_keyword_section = do
    _ ← lift (refuse_encryption header.encrypted)
    header_len ← lift (checked_usize 16 "keyword section header length")
    with_reserved header_len (do
      raw_header ← lift (read_exact_at source offset header_len "keyword section header")
      h ← lift (read_v1_keyword_header raw_header)
      _ ← lift (ensure_u64_limit "key_index_bytes" h.index_comp_len options.limits.key_index_bytes)
      num_blocks ← lift (
          validate_keyword_header_counts version1 encoding h.num_blocks h.num_entries
            h.index_comp_len options.limits)
      at ←
          lift
            (place_keyword_section source offset 16 "keyword index" h.index_comp_len h.blocks_len)
      read_v1_index h at num_blocks)

  -- The index of version 2, once its block is decrypted.
  unfoldable pub decode_v2_index :
      KeywordIndexLayout → KeywordHeader → KeywordOffsets → ℕ → List ℕ → MemoryM KeywordSection
  decode_v2_index layout h at num_blocks index_bytes = do
    decomp_len ← lift (checked_usize h.index_decomp_len "keyword index decompressed length")
    with_reserved decomp_len (do
      retained_bytes ← lift (keyword_metadata_bytes legacy encoding decomp_len num_blocks)
      with_reserved retained_bytes (do
        decoded ← lift (
            decode_block codecs "keyword index block" index_bytes decomp_len options.limits
              options.checksum_policy)
        lift (keyword_section_of (version2 layout) 44 h at num_blocks retained_bytes decoded)))

  unfoldable pub read_v2_index :
      KeywordIndexLayout → KeywordHeader → KeywordOffsets → ℕ → MemoryM KeywordSection
  read_v2_index layout h at num_blocks = do
    comp_len ← lift (checked_usize h.index_comp_len "keyword index compressed length")
    with_reserved comp_len (do
      raw_index ← lift (read_exact_at source at.index comp_len "keyword index block")
      index_bytes ← lift (plain_keyword_index header.encrypted raw_index)
      decode_v2_index layout h at num_blocks index_bytes)

  -- v2/keyword.rs
  unfoldable pub parse_v2_keyword_section : MemoryM KeywordSection
  parse_v2_keyword_section = with_reserved 44 (do
    raw_header ← lift (read_exact_at source offset 44 "keyword section header")
    plain_header ← lift (plain_keyword_header header.encrypted options.passcode raw_header)
    layout ←
        lift (detect_keyword_index_layout plain_header (drop 40 raw_header) options.checksum_policy)
    h ← lift (read_v2_keyword_header plain_header)
    _ ← lift (check_index_lengths h options.limits)
    num_blocks ← lift (
        validate_keyword_header_counts (version2 layout) encoding h.num_blocks h.num_entries
          h.index_decomp_len options.limits)
    at ←
        lift (
          place_keyword_section source offset 44 "keyword index block" h.index_comp_len
            h.blocks_len)
    read_v2_index layout h at num_blocks)
