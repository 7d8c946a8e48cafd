-- ===== src/KeyEntries.antt =====
-- core/keys.rs: the key at a physical ordinal. `decode_key_block` is the section's parameter: the rows of
-- a block, or the failure to decode it.
pub mod Complete
use mdictlib.Prelude.{ℕ, Option, none, some, List, [], ◌∷◌, leb, if◌then◌else◌, length, get_elem?}
use mdictlib.Error.{Result, ok, ◌>>=◌, ◌>>◌, ok_or, fail_if, invalid_format, invalid_data, num}
use mdictlib.Limits.{checked_sub}
use mdictlib.Descriptors.{Text, KeyBlockDescriptor}
use mdictlib.KeyRows.{DecodedKeyRow}
use mdictlib.KeySearch.{find_key_block_by_ordinal}

pub record KeyBlockHit : Type 0 where
  pub block_index : ℕ
  pub entry_index : ℕ
  pub entries : List DecodedKeyRow

pub record KeyEntry : Type 0 where
  pub ordinal : ℕ
  pub key : Text

module _ (decode : ℕ → Result (List DecodedKeyRow)) (blocks : List KeyBlockDescriptor)
    (total_entries : ℕ) where
  unfoldable pub key_entry_at_ordinal : ℕ → Result (Option KeyBlockHit)
  unfolding checked_sub
  key_entry_at_ordinal ordinal = if leb total_entries ordinal then ok none else (do
    found ← find_key_block_by_ordinal blocks ordinal
    block_index ← ok_or found (invalid_format "key ordinal not covered by key blocks")
    block ← ok_or (get_elem? blocks block_index) (invalid_format "key block index out of range")
    entry_index ←
        ok_or (checked_sub ordinal block.entry_start_index) (invalid_format "key ordinal underflow")
    entries ← decode block_index
    fail_if (leb (length entries) entry_index) (
        invalid_data "key ordinal {} resolved past decoded block length {}"
          (num ordinal ∷ num (length entries) ∷ []))
    ok (some (record { block_index = block_index; entry_index = entry_index; entries = entries })))

  -- A hit is an entry of its block, so the first case of the look-up does not arise.
  unfoldable pub entry_of : ℕ → Option KeyBlockHit → Option KeyEntry
  entry_of ordinal none = none
  entry_of ordinal (some hit) = elim (get_elem? hit.entries hit.entry_index) [
    | none ↦ none
    | some row ↦ some (record { ordinal = ordinal; key = row.key })
  ]

  unfoldable pub key_at_ordinal : ℕ → Result (Option KeyEntry)
  unfolding key_entry_at_ordinal entry_of
  key_at_ordinal ordinal = do hit ← key_entry_at_ordinal ordinal; ok (entry_of ordinal hit)
