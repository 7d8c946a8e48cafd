-- ===== src/Records.antt =====
-- core/records.rs: reading a span of the decoded record stream, block by block. The block decoder with
-- its cache is Records/Cache; here it is an argument of the traversal.
pub mod Visit
pub mod Stream
pub mod Spans
pub mod File
pub mod Cache
use mdictlib.Prelude.{ℕ, min, max, ◌||◌, List, ltb, leb, if◌then◌else◌, length, slice}
use mdictlib.Error.{Result, ok, err, ◌>>=◌, ◌>>◌, fail_if, ok_or, invalid_format, limit_exceeded}
use mdictlib.Limits.{usize_max, checked_add, checked_sub, checked_usize, checked_u64}
use mdictlib.Descriptors.{RecordBlockDescriptor}

-- `validate_record_span`
unfoldable pub validate_record_span : ℕ → ℕ → ℕ → Result ℕ
unfolding checked_sub
validate_record_span total start end = do
  fail_if (ltb end start) (invalid_format "record range is inverted")
  len ← ok_or (checked_sub end start) (invalid_format "record range overflow")
  fail_if (ltb total end) (invalid_format "record range exceeds record data")
  ok len

-- `materialized_record_span_len`, with the limit `materialized_record_bytes`.
unfoldable pub materialized_record_span_len : ℕ → ℕ → ℕ → ℕ → Result ℕ
unfolding validate_record_span checked_u64
materialized_record_span_len total limit start end = do
  len ← validate_record_span total start end
  max ← checked_u64 limit "materialized record limit"
  fail_if (ltb max len) (limit_exceeded "materialized_record_bytes" len max)
  (if leb len usize_max
      then ok len
      else err (invalid_format "materialized record length exceeds usize"))

-- The part of a decoded block that a round visits, and its end inside the block.
unfoldable pub chunk_of : RecordBlockDescriptor → ℕ → ℕ → List ℕ → Result (List ℕ × ℕ)
unfolding checked_sub checked_add checked_usize
chunk_of block cursor end decoded = do
  start ←
      ok_or (checked_sub cursor block.decomp_offset)
        (invalid_format "record block offset underflow")
  local_start ← checked_usize start "record block local start"
  block_end ←
      ok_or (checked_add block.decomp_offset block.decomp_size)
        (invalid_format "record block end overflow")
  stop ←
      ok_or (checked_sub (min end block_end) block.decomp_offset)
        (invalid_format "record block offset underflow")
  local_end ← checked_usize stop "record block local end"
  fail_if (ltb local_end local_start || ltb (length decoded) local_end)
      (invalid_format "record block slice is out of range")
  ok (slice local_start local_end decoded, local_end)

-- The cursor of the next round.
unfoldable pub advance : RecordBlockDescriptor → ℕ → ℕ → Result ℕ
unfolding checked_add
advance block cursor local_end = do
  next ← ok_or (checked_add block.decomp_offset local_end) (invalid_format "record cursor overflow")
  fail_if (leb next cursor) (invalid_format "record traversal made no progress")
  ok next
