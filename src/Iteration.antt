-- ===== src/Iteration.antt =====
-- core/iter.rs: the iterator over the keys. `decode_key_block` is the section's parameter, as in
-- KeyEntries.
pub mod Complete
use mdictlib.Prelude.{
  ℕ, zero, suc, ◌+◌, ◌-◌, Bool, true, false, Option, none, some, List, [], leb, if◌then◌else◌,
  length, get_elem?,
}
use mdictlib.Error.{Result, ok, err, ◌>>=◌, ok_or, invalid_format}
use mdictlib.Limits.{checked_add}
use mdictlib.Descriptors.{Text, KeyBlockDescriptor}
use mdictlib.KeyRows.{DecodedKeyRow}
use mdictlib.KeyEntries.{KeyEntry}

pub record KeyIter : Type 0 where
  pub block_index : ℕ
  pub entry_index : ℕ
  pub current_block : Option (List DecodedKeyRow)
  pub done : Bool

abbrev pub new_iter : KeyIter
new_iter = record { block_index = 0; entry_index = 0; current_block = none; done = false }

-- What `next` returns, and the state behind it.
abbrev pub IterStep : Type 0
IterStep = Option (Result KeyEntry) × KeyIter

-- The start of a block, and the key of a row; both exist where the iterator looks.
unfoldable pub start_of : Option KeyBlockDescriptor → ℕ
start_of none = 0
start_of (some block) = block.entry_start_index

unfoldable pub key_of : Option DecodedKeyRow → Text
key_of none = []
key_of (some row) = row.key

module _ (decode : ℕ → Result (List DecodedKeyRow)) (blocks : List KeyBlockDescriptor) where
  unfoldable pub item : ℕ → ℕ → List DecodedKeyRow → Result KeyEntry
  unfolding checked_add start_of key_of
  item block_index entry_index entries = do
    ordinal ←
        ok_or (checked_add (start_of (get_elem? blocks block_index)) entry_index)
          (invalid_format "key ordinal overflow")
    ok (record { ordinal = ordinal; key = key_of (get_elem? entries entry_index) })

  -- An item, and `done` behind one that failed.
  unfoldable pub emit : KeyIter → Result KeyEntry → IterStep
  emit it (ok entry) = (some (ok entry), it)
  emit it (err e) = (some (err e), record it { done = true })

  -- The block at hand, which is decoded if there is none.
  unfoldable pub load_block :
      KeyIter → Option (List DecodedKeyRow) → Result (List DecodedKeyRow × ℕ)
  load_block it (some entries) = ok (entries, it.entry_index)
  load_block it none = do entries ← decode it.block_index; ok (entries, 0)

  -- The loop of `next`: a round that returns no item moves to the next block.
  unfoldable pub next_loop : ℕ → KeyIter → IterStep
  unfolding load_block item emit
  next_loop zero it = (none, it)
  next_loop (suc fuel) it =
      let further = λ (entry_index : ℕ). next_loop fuel (record {
        block_index = it.block_index + 1;
        entry_index = entry_index;
        current_block = none;
        done = false;
      }) in
      if leb (length blocks) it.block_index
      then (none, record it { done = true })
      else elim (load_block it it.current_block) [
        | err e ↦ (some (err e), record it { done = true })
        | ok p ↦
            if leb (length p.0) p.1
            then further p.1
            else emit
                (record {
                  block_index = it.block_index;
                  entry_index = p.1 + 1;
                  current_block = some p.0;
                  done = false;
                })
                (item it.block_index p.1 p.0)
      ]

  unfoldable pub next : KeyIter → IterStep
  unfolding next_loop
  next it = if it.done then (none, it) else next_loop (suc (length blocks - it.block_index)) it
