-- ===== src/KeyBlocks.antt =====
-- core/keys.rs: the decoding of one key block, without cache and budget.
pub mod Cache
use mdictlib.Prelude.{ℕ, Bool, not, Option, none, some, List, [], ◌∷◌, length, get_elem?}
use mdictlib.Error.{Result, ok, ◌>>=◌, ◌>>◌, ok_or, fail_if, invalid_format}
use mdictlib.Limits.{checked_add, checked_mul, checked_usize}
use mdictlib.Source.{FileSource, read_exact_at}
use mdictlib.Descriptors.{Text, KeyBlockDescriptor}
use mdictlib.RecordSection.{Limits, Wire}
use mdictlib.Compression.{Codecs, ChecksumPolicy, decode_block}
use mdictlib.Encoding.{LegacyCodecs, TextEncoding, max_decoded_len}
use mdictlib.KeyRows.{DecodedKeyRow, decode_key_rows}
use mdictlib.Normalize.{KeyNormalizer, normalize, normalized_len}
use mdictlib.CaseVariants.{equal_texts}

-- The fields of `MdictFile` that decoding a key block uses and never changes, and the third-party code.
pub record KeyFile : Type 0 where
  pub source : FileSource
  pub key_blocks : List KeyBlockDescriptor
  pub key_encoding : TextEncoding
  pub total_decoded_record_len : ℕ
  pub wire : Wire
  pub limits : Limits
  pub checksum_policy : ChecksumPolicy
  pub normalizer : KeyNormalizer
  pub codecs : Codecs
  pub legacy : LegacyCodecs
  pub to_lowercase : ℕ → Text

-- `reserved` is the size of the reservation in `_memory`.
pub record DecodedKeyBlock : Type 0 where
  pub entries : List DecodedKeyRow
  pub reserved : ℕ

-- `size_of::<DecodedKeyEntry>()`: a `String` and a `u64`.
abbrev pub entry_bytes : ℕ
entry_bytes = 32

-- What is known of a block before memory is reserved for it.
pub record BlockPlan : Type 0 where
  pub block : KeyBlockDescriptor
  pub comp_size : ℕ
  pub decomp_size : ℕ
  pub retained_bytes : ℕ

-- `first()` and `last()` of a slice.
unfoldable pub first_row : List DecodedKeyRow → Option DecodedKeyRow
first_row [] = none
first_row (row ∷ rows) = some row

unfoldable pub last_row : List DecodedKeyRow → Option DecodedKeyRow
last_row [] = none
last_row (row ∷ []) = some row
last_row (row ∷ next ∷ rows) = last_row (next ∷ rows)

module _ (file : KeyFile) where
  -- `decode_key_block_uncached`, up to its first reservation.
  unfoldable pub plan_block : ℕ → Result BlockPlan
  plan_block index = do
    block ← ok_or (get_elem? file.key_blocks index) (invalid_format "key block index out of range")
    comp_size ← checked_usize block.comp_size "key block compressed length"
    decomp_size ← checked_usize block.decomp_size "key block decompressed length"
    entry_count ← checked_usize block.entry_count "key block entry count"
    decoded_text_bytes ← max_decoded_len file.legacy file.key_encoding decomp_size
    metadata ←
        ok_or (checked_mul entry_count entry_bytes)
          (invalid_format "decoded key metadata size overflow")
    retained_bytes ←
        ok_or (checked_add decoded_text_bytes metadata)
          (invalid_format "decoded key block size overflow")
    ok (record {
      block = block;
      comp_size = comp_size;
      decomp_size = decomp_size;
      retained_bytes = retained_bytes;
    })

  -- The read of a block, its decompression, and its rows.
  unfoldable pub fetch_rows : BlockPlan → Result (List DecodedKeyRow)
  fetch_rows plan = do
    block_bytes ← read_exact_at file.source plan.block.comp_offset plan.comp_size "key block"
    decoded ←
        decode_block file.codecs "key block" block_bytes plan.decomp_size file.limits
          file.checksum_policy
    decode_key_rows file.legacy file.wire
        (record {
          encoding = file.key_encoding;
          expected_entries = plan.block.entry_count;
          total_decoded_record_len = file.total_decoded_record_len;
        })
        decoded

  -- `key_summary_matches`, up to its reservation and behind it.
  unfoldable pub summary_memory : Text → Text → Result ℕ
  summary_memory decoded_key index_summary = do
    decoded_len ← normalized_len file.to_lowercase file.normalizer decoded_key
    summary_len ← normalized_len file.to_lowercase file.normalizer index_summary
    ok_or (checked_add decoded_len summary_len)
        (invalid_format "normalized key summary size overflow")

  unfoldable pub same_summary : Text → Text → Result Bool
  same_summary decoded_key index_summary = do
    decoded ← normalize file.to_lowercase file.normalizer decoded_key
    summary ← normalize file.to_lowercase file.normalizer index_summary
    ok (equal_texts decoded summary)

  -- `key_summary_matches`, whose failure to match is an error of its caller.
  unfoldable pub check_summary : Text → Text → Result (Unit {0})
  check_summary decoded_key index_summary = do
    _ ← summary_memory decoded_key index_summary
    same ← same_summary decoded_key index_summary
    fail_if (not same) (invalid_format "keyword block summaries do not match decoded boundary keys")

  unfoldable pub boundary : Option DecodedKeyRow → Result DecodedKeyRow
  boundary row = ok_or row (invalid_format "empty decoded key block")

  -- What `decode_key_block_uncached` returns when the budget has room.
  unfoldable pub block_entries : ℕ → Result DecodedKeyBlock
  block_entries index = do
    plan ← plan_block index
    rows ← fetch_rows plan
    first ← boundary (first_row rows)
    last ← boundary (last_row rows)
    check_summary first.key plan.block.first_key
    check_summary last.key plan.block.last_key
    ok (record { entries = rows; reserved = plan.retained_bytes })
