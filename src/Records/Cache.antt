-- ===== src/Records/Cache.antt =====
-- core/records.rs: `decode_record_block` with its one-block cache, and `read_record_span`.
-- A decoded block holds its reservation for as long as the cache owns it: on one thread the cache is
-- the last owner, since a round of the traversal drops its handle before the next block is decoded.
pub mod Transparent
pub mod Read
use mdictlib.Budget.Implements.{with_retained}
use mdictlib.Prelude.{ℕ, ◌==◌, if◌then◌else◌, Option, none, some, List, [], get_elem?}
use mdictlib.Error.{Error, Result, ok, err, ok_or, invalid_format}
use mdictlib.Limits.{checked_usize}
use mdictlib.Budget.{MemoryBudget, claim, release}
use mdictlib.Budget.Memory.{MemoryM, lift, ◌>>=◌, with_reserved}
use mdictlib.Records.File.{MdictFile, fetch_block}
use mdictlib.Failure.{CachedFailure, CachedValue, ready, failed, capture, replay}
use mdictlib.Records.{materialized_record_span_len}
use mdictlib.Records.Visit.{visit_record_span}
use mdictlib.Records.Spans.{extend}

-- `reserved` is the size of the reservation in `_memory`.
pub record DecodedRecordBlock : Type 0 where
  pub bytes : List ℕ
  pub reserved : ℕ

abbrev pub CachedBlock : Type 0
CachedBlock = Option (ℕ × CachedValue DecodedRecordBlock)

-- The fields that it changes.
pub record ReadState : Type 0 where
  pub memory : MemoryBudget
  pub record_block_cache : CachedBlock

-- What a cached value has reserved.
abbrev pub held : CachedBlock → ℕ
held none = 0
held (some (index, ready block)) = block.reserved
held (some (index, failed failure)) = failure.reserved

module _ (file : MdictFile) where
  unfoldable pub decode_record_block_uncached : ℕ → MemoryM DecodedRecordBlock
  decode_record_block_uncached index = do
    block ← lift (
        ok_or (get_elem? file.record_blocks index)
          (invalid_format "record block index out of range"))
    comp_size ← lift (checked_usize block.comp_size "record block compressed length")
    decomp_size ← lift (checked_usize block.decomp_size "record block decompressed length")
    with_retained decomp_size (
        with_reserved comp_size (do
          bytes ← lift (fetch_block file block comp_size decomp_size)
          lift (ok (record { bytes = bytes; reserved = decomp_size }))))

  -- What the decoding of a block leaves in the cache, and what it returns.
  abbrev pub remember_failure :
      ℕ → Error → Option CachedFailure × MemoryBudget → Result (List ℕ) × ReadState
  remember_failure index error (some failure, b) =
      (err error, record { memory = b; record_block_cache = some (index, failed failure) })
  remember_failure index error (none, b) =
      (err error, record { memory = b; record_block_cache = none })

  abbrev pub remember : ℕ → Result DecodedRecordBlock × MemoryBudget → Result (List ℕ) × ReadState
  remember index (ok decoded, b) =
      (ok decoded.bytes, record { memory = b; record_block_cache = some (index, ready decoded) })
  remember index (err error, b) = remember_failure index error (capture error b)

  -- The way behind a cache that does not hold the block: `*cache = None` drops what it holds.
  unfoldable pub decode_miss : ℕ → ReadState → Result (List ℕ) × ReadState
  decode_miss index s =
      remember index
        (decode_record_block_uncached index (release (held s.record_block_cache) s.memory))

  abbrev pub cached_result : CachedValue DecodedRecordBlock → Result (List ℕ)
  cached_result (ready block) = ok block.bytes
  cached_result (failed failure) = err (replay failure)

  abbrev pub decode_cached : ℕ → ReadState → CachedBlock → Result (List ℕ) × ReadState
  decode_cached index s none = decode_miss index s
  decode_cached index s (some (cached_index, value)) =
      if cached_index == index then (cached_result value, s) else decode_miss index s

  unfoldable pub decode_record_block : ℕ → ReadState → Result (List ℕ) × ReadState
  decode_record_block index s = decode_cached index s s.record_block_cache

  -- The end of the reservation of `read_record_span`, with the state of the cache kept.
  abbrev pub end_span : ℕ → Result (List ℕ) × ReadState → Result (List ℕ) × ReadState
  end_span len (r, s) = (r, record s { memory = release len s.memory })

  abbrev pub span_claimed :
      ℕ → ℕ → ℕ → ReadState → Result MemoryBudget → Result (List ℕ) × ReadState
  span_claimed start end len s (err e) = (err e, s)
  span_claimed start end len s (ok b) = end_span len (
      visit_record_span file.record_blocks decode_record_block extend file.total_decoded_record_len
        start end [] (record s { memory = b }))

  abbrev pub span_reserved : ℕ → ℕ → ReadState → Result ℕ → Result (List ℕ) × ReadState
  span_reserved start end s (err e) = (err e, s)
  span_reserved start end s (ok len) = span_claimed start end len s (claim len s.memory)

  unfoldable pub read_record_span : ℕ → ℕ → ReadState → Result (List ℕ) × ReadState
  read_record_span start end s = span_reserved start end s (
      materialized_record_span_len file.total_decoded_record_len
        file.limits.materialized_record_bytes start end)
