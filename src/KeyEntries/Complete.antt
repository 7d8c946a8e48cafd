-- ===== src/KeyEntries/Complete.antt =====
-- Every ordinal of a dictionary whose key blocks can be decoded has its key.
use mdictlib.Prelude.{
  ℕ, zero, suc, ◌-◌, ◌≤◌, ◌<◌, none, some, List, [], ◌∷◌, length, get_elem?, ◌≡◌, ◌⊎◌, inl, inr,
  refl, arith,
}
use mdictlib.Error.{Result, ok}
use mdictlib.Limits.{checked_sub}
use mdictlib.Descriptors.{KeyBlockDescriptor}
use mdictlib.Descriptors.Verify.{CoversKeys}
use mdictlib.KeyRows.{DecodedKeyRow}
use mdictlib.KeySearch.Found.{Numbers, find_key_block_by_ordinal-Numbers}
use mdictlib.KeyEntries.{key_entry_at_ordinal, entry_of, key_at_ordinal}

pub get_elem?-lt {ℓ} :
    {A : Type ℓ} (xs : List A) (i : ℕ) → i < length xs → (x : A) × (get_elem? xs i ≡ some x)
get_elem?-lt [] i p = absurd (omega arith)
get_elem?-lt (x ∷ xs) zero p = (x, refl)
get_elem?-lt (x ∷ xs) (suc i) p = get_elem?-lt xs i (omega arith)

-- The blocks number `total` entries without a gap, and each is decoded to as many rows as it declares.
-- Then an ordinal below `total` has the key of the row that its distance from the start of its block
-- selects, and any other has none.
pub key_at_ordinal-Numbers :
    (decode : ℕ → Result (List DecodedKeyRow)) (bs : List KeyBlockDescriptor) (total ordinal : ℕ)
    → CoversKeys bs 0 total
    → ((k : ℕ) (b : KeyBlockDescriptor)
        → get_elem? bs k ≡ some b
        → (rows : List DecodedKeyRow) × (decode k ≡ ok rows) × (length rows ≡ b.entry_count))
    → ((ordinal < total)
        × (k : ℕ) × (b : KeyBlockDescriptor) × (rows : List DecodedKeyRow) × (row : DecodedKeyRow)
        × (get_elem? bs k ≡ some b)
        × Numbers b ordinal
        × (decode k ≡ ok rows)
        × (get_elem? rows (ordinal - b.entry_start_index) ≡ some row)
        × (key_at_ordinal decode bs total ordinal
            ≡ ok (some (record { ordinal = ordinal; key = row.key }))))
      ⊎ ((total ≤ ordinal) × (key_at_ordinal decode bs total ordinal ≡ ok none))
unfolding key_at_ordinal key_entry_at_ordinal entry_of checked_sub
key_at_ordinal-Numbers decode bs total ordinal h reads =
    elim (find_key_block_by_ordinal-Numbers bs total ordinal h) [
      | inl (inside, k, b, found, at, numbers) ↦
          let (rows, decoded, counted) = reads k b at in
          let (row, row_at) = get_elem?-lt rows (ordinal - b.entry_start_index) (omega arith) in
          inl (inside, k, b, rows, row, at, numbers, decoded, row_at, ground arith)
      | inr (past, found) ↦ inr (past, ground arith)
    ]
