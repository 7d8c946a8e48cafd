-- ===== src/Records/File.antt =====
-- core/records.rs and core/mod.rs: the parts of an open `MdictFile` that reading records uses, and the
-- decoding of one block without cache and budget.
use mdictlib.Prelude.{ℕ, List, get_elem?}
use mdictlib.Error.{Result, ok_or, invalid_format, ◌>>=◌}
use mdictlib.Limits.{checked_usize}
use mdictlib.Descriptors.{RecordBlockDescriptor}
use mdictlib.RecordSection.{Limits}
use mdictlib.Source.{FileSource, read_exact_at}
use mdictlib.Compression.{Codecs, ChecksumPolicy, decode_block}

-- The fields of `MdictFile` that reading records uses and never changes.
pub record MdictFile : Type 0 where
  pub source : FileSource
  pub record_blocks : List RecordBlockDescriptor
  pub total_decoded_record_len : ℕ
  pub limits : Limits
  pub checksum_policy : ChecksumPolicy
  pub codecs : Codecs

module _ (file : MdictFile) where
  -- The read of a block, and its decoding.
  unfoldable pub fetch_block : RecordBlockDescriptor → ℕ → ℕ → Result (List ℕ)
  fetch_block block comp_size decomp_size = do
    block_bytes ← read_exact_at file.source block.comp_offset comp_size "record block"
    decode_block file.codecs "record block" block_bytes decomp_size file.limits file.checksum_policy

  -- What the decoding of a block returns when the budget has room: the reference of the cache.
  unfoldable pub block_contents : ℕ → Result (List ℕ)
  block_contents index = do
    block ←
        ok_or (get_elem? file.record_blocks index)
          (invalid_format "record block index out of range")
    comp_size ← checked_usize block.comp_size "record block compressed length"
    decomp_size ← checked_usize block.decomp_size "record block decompressed length"
    fetch_block block comp_size decomp_size
