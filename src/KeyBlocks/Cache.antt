-- ===== src/KeyBlocks/Cache.antt =====
-- core/keys.rs: `decode_key_block` with its one-block cache and its reservations.
-- A caller drops its handle of a block before it asks for the next, so the cache alone owns the memory.
pub mod Uncached
pub mod Consistent
pub mod Inherits
pub mod Ordered
use mdictlib.Prelude.{
  ℕ, suc, zero, not, ltb, ◌==◌, if◌then◌else◌, Option, none, some, get_elem?, ◌∷◌, [],
}
use mdictlib.Error.{Error, Result, ok, err, fail_if, invalid_format, invalid_data, num}
use mdictlib.Budget.{MemoryBudget, release}
use mdictlib.Budget.Memory.{MemoryM, lift, ◌>>=◌, with_reserved}
use mdictlib.Budget.Implements.{with_retained}
use mdictlib.Descriptors.{Text}
use mdictlib.Failure.{CachedFailure, CachedValue, ready, failed, capture, replay}
use mdictlib.KeyBlocks.{
  KeyFile, DecodedKeyBlock, first_row, last_row, plan_block, fetch_rows, summary_memory,
  same_summary, boundary,
}

abbrev pub CachedKeys : Type 0
CachedKeys = Option (ℕ × CachedValue DecodedKeyBlock)

-- The fields that it changes.
pub record KeyState : Type 0 where
  pub memory : MemoryBudget
  pub key_block_cache : CachedKeys

-- What a cached value has reserved.
abbrev pub held_keys : CachedKeys → ℕ
held_keys none = 0
held_keys (some (index, ready block)) = block.reserved
held_keys (some (index, failed failure)) = failure.reserved

module _ (file : KeyFile) where
  unfoldable pub key_summary_matches : Text → Text → MemoryM (Unit {0})
  key_summary_matches decoded_key index_summary = do
    memory_len ← lift (summary_memory file decoded_key index_summary)
    same ← with_reserved memory_len (lift (same_summary file decoded_key index_summary))
    lift (
        fail_if (not same)
          (invalid_format "keyword block summaries do not match decoded boundary keys"))

  unfoldable pub decode_key_block_uncached : ℕ → MemoryM DecodedKeyBlock
  decode_key_block_uncached index = do
    plan ← lift (plan_block file index)
    with_retained plan.retained_bytes (
        with_reserved plan.comp_size (
          with_reserved plan.decomp_size (do
            rows ← lift (fetch_rows file plan)
            first ← lift (boundary file (first_row rows))
            last ← lift (boundary file (last_row rows))
            _ ← key_summary_matches first.key plan.block.first_key
            _ ← key_summary_matches last.key plan.block.last_key
            lift (ok (record { entries = rows; reserved = plan.retained_bytes })))))

  -- `previous.last().ok_or(..)?.record_start`
  unfoldable pub last_start : DecodedKeyBlock → Result (Option ℕ)
  last_start block = elim (boundary file (last_row block.entries)) [
    | err e ↦ err e
    | ok row ↦ ok (some row.record_start)
  ]

  -- The previous block, which is decoded without the cache and dropped.
  abbrev pub drop_previous :
      Result DecodedKeyBlock × MemoryBudget → Result (Option ℕ) × MemoryBudget
  drop_previous (ok block, b) = (last_start block, release block.reserved b)
  drop_previous (err e, b) = (err e, b)

  abbrev pub cached_last : CachedValue DecodedKeyBlock → Result (Option ℕ)
  cached_last (ready block) = last_start block
  cached_last (failed failure) = err (replay failure)

  abbrev pub previous_from : ℕ → MemoryBudget → CachedKeys → Result (Option ℕ) × MemoryBudget
  previous_from index b none = drop_previous (decode_key_block_uncached index b)
  previous_from index b (some (cached_index, value)) =
      if cached_index == index
      then (cached_last value, b)
      else drop_previous (decode_key_block_uncached index b)

  -- `previous_last`: the last record start of the block before.
  abbrev pub previous_last : ℕ → KeyState → Result (Option ℕ) × MemoryBudget
  previous_last zero s = (ok none, s.memory)
  previous_last (suc index) s = previous_from index s.memory s.key_block_cache

  -- `previous_last > current_first`
  unfoldable pub check_first : Option ℕ → DecodedKeyBlock → Result (Unit {0})
  check_first none block = ok tt
  check_first (some previous) block = elim (boundary file (first_row block.entries)) [
    | err e ↦ err e
    | ok row ↦ fail_if (ltb row.record_start previous) (
        invalid_data "record starts decrease across key blocks from {} to {}"
          (num previous ∷ num row.record_start ∷ []))
  ]

  -- A block that is refused is dropped.
  abbrev pub drop_refused :
      DecodedKeyBlock → MemoryBudget → Result (Unit {0}) → Result DecodedKeyBlock × MemoryBudget
  drop_refused block b (ok _) = (ok block, b)
  drop_refused block b (err e) = (err e, release block.reserved b)

  abbrev pub checked_block :
      Option ℕ → Result DecodedKeyBlock × MemoryBudget → Result DecodedKeyBlock × MemoryBudget
  checked_block previous (ok block, b) = drop_refused block b (check_first previous block)
  checked_block previous (err e, b) = (err e, b)

  abbrev pub with_cache :
      CachedKeys → Result DecodedKeyBlock × MemoryBudget → Result DecodedKeyBlock × KeyState
  with_cache cache (r, b) = (r, record { memory = b; key_block_cache = cache })

  -- `*cache = None`, and the decoding of the block.
  abbrev pub behind_previous :
      ℕ → CachedKeys → Result (Option ℕ) × MemoryBudget → Result DecodedKeyBlock × KeyState
  behind_previous index cache (err e, b) = with_cache cache (err e, b)
  behind_previous index cache (ok previous, b) =
      with_cache none
        (checked_block previous (decode_key_block_uncached index (release (held_keys cache) b)))

  -- The closure of `decode_key_block`.
  unfoldable pub load_block : ℕ → KeyState → Result DecodedKeyBlock × KeyState
  load_block index s = elim (get_elem? file.key_blocks index) [
    | none ↦ (err (invalid_format "key block index out of range"), s)
    | some block ↦ behind_previous index s.key_block_cache (previous_last index s)
  ]

  abbrev pub remember_failure :
      ℕ
      → Error
      → CachedKeys
      → Option CachedFailure × MemoryBudget
      → Result DecodedKeyBlock × KeyState
  remember_failure index error old (some failure, b) = (
    err error,
    record { memory = release (held_keys old) b; key_block_cache = some (index, failed failure) },
  )
  remember_failure index error old (none, b) =
      (err error, record { memory = b; key_block_cache = old })

  -- The cache behind the closure; it is empty behind one that succeeded.
  abbrev pub remember : ℕ → Result DecodedKeyBlock × KeyState → Result DecodedKeyBlock × KeyState
  remember index (ok block, s) =
      (ok block, record s { key_block_cache = some (index, ready block) })
  remember index (err e, s) = remember_failure index e s.key_block_cache (capture e s.memory)

  abbrev pub cached_result : CachedValue DecodedKeyBlock → Result DecodedKeyBlock
  cached_result (ready block) = ok block
  cached_result (failed failure) = err (replay failure)

  abbrev pub decode_cached : ℕ → KeyState → CachedKeys → Result DecodedKeyBlock × KeyState
  decode_cached index s none = remember index (load_block index s)
  decode_cached index s (some (cached_index, value)) =
      if cached_index == index
      then (cached_result value, s)
      else remember index (load_block index s)

  unfoldable pub decode_key_block : ℕ → KeyState → Result DecodedKeyBlock × KeyState
  decode_key_block index s = decode_cached index s s.key_block_cache
