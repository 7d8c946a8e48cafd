-- ===== src/RecordSpans.antt =====
-- core/records.rs: the span of the record at an ordinal. As in KeyEntries, `decode_key_block` is the
-- section's parameter.
pub mod Blocks
pub mod Adjoin
use mdictlib.Prelude.{
  ℕ, suc, Option, none, some, List, [], ◌∷◌, ltb, if◌then◌else◌, length, get_elem?,
}
use mdictlib.Error.{Result, ok, ◌>>=◌, ◌>>◌, ok_or, fail_if, invalid_format, invalid_data, num}
use mdictlib.Limits.{checked_add}
use mdictlib.Descriptors.{KeyBlockDescriptor}
use mdictlib.KeyRows.{DecodedKeyRow}
use mdictlib.KeyBlocks.{first_row}
use mdictlib.KeyEntries.{KeyBlockHit, KeyEntry, key_entry_at_ordinal}

pub record RecordDescriptor : Type 0 where
  pub key : KeyEntry
  pub start : ℕ
  pub end : ℕ

module _ (decode : ℕ → Result (List DecodedKeyRow)) (blocks : List KeyBlockDescriptor)
    (total_entries total_len : ℕ) where
  -- The first record start of a block.
  unfoldable pub block_start : ℕ → Result ℕ
  block_start block_index = do
    next_block ← decode block_index
    first ← ok_or (first_row next_block) (invalid_format "empty key block")
    ok first.record_start

  -- Where the record behind the hit begins, or the stream ends.
  unfoldable pub end_behind : ℕ → Option DecodedKeyRow → Result ℕ
  end_behind block_index (some next) = ok next.record_start
  end_behind block_index none =
      let following = block_start (suc block_index) in
      if ltb (suc block_index) (length blocks) then following else ok total_len

  unfoldable pub span_end : KeyBlockHit → Result ℕ
  span_end hit = end_behind hit.block_index (get_elem? hit.entries (suc hit.entry_index))

  unfoldable pub record_descriptor_from_hit : KeyBlockHit → Result RecordDescriptor
  record_descriptor_from_hit hit = do
    block ← ok_or (get_elem? blocks hit.block_index) (invalid_format "key block index out of range")
    ordinal ←
        ok_or (checked_add block.entry_start_index hit.entry_index)
          (invalid_format "key ordinal overflow")
    entry ←
        ok_or (get_elem? hit.entries hit.entry_index)
          (invalid_format "key entry index out of range")
    end ← span_end hit
    fail_if (ltb end entry.record_start)
        (invalid_data "record span decreases from {} to {}" (num entry.record_start ∷ num end ∷ []))
    ok (record {
      key = record { ordinal = ordinal; key = entry.key };
      start = entry.record_start;
      end = end;
    })

  unfoldable pub descriptor_of : Option KeyBlockHit → Result (Option RecordDescriptor)
  descriptor_of none = ok none
  descriptor_of (some hit) = do descriptor ← record_descriptor_from_hit hit; ok (some descriptor)

  unfoldable pub record_at_ordinal : ℕ → Result (Option RecordDescriptor)
  record_at_ordinal ordinal =
      key_entry_at_ordinal decode blocks total_entries ordinal >>= descriptor_of
