-- ===== src/KeySearch.antt =====
-- core/keys.rs: the search of the key block that holds a physical ordinal.
pub mod Found
use mdictlib.Prelude.{
  ℕ, zero, suc, ◌+◌, ◌/◌, Option, none, some, List, ltb, if◌then◌else◌, length, get_elem?,
}
use mdictlib.Error.{Result, ok, err, invalid_format}
use mdictlib.Descriptors.{KeyBlockDescriptor, overflow, below, above, hit, probe}

-- The loop of `find_key_block_by_ordinal`. The fuel exceeds the width of the range in every call. An
-- index inside the range is one of the blocks, so the first case of the look-up does not arise.
unfoldable pub find_key_loop : List KeyBlockDescriptor → ℕ → ℕ → ℕ → ℕ → Result (Option ℕ)
unfolding probe
find_key_loop blocks ordinal zero left right = ok none
find_key_loop blocks ordinal (suc fuel) left right =
    let mid = (left + right) / 2 in
    let lower = find_key_loop blocks ordinal fuel left mid in
    let upper = find_key_loop blocks ordinal fuel (mid + 1) right in
    if ltb left right
    then elim (get_elem? blocks mid) [
      | none ↦ ok none
      | some block ↦ elim (probe block.entry_start_index block.entry_count ordinal) [
        | overflow ↦ err (invalid_format "keyword entry count overflow")
        | below ↦ lower
        | above ↦ upper
        | hit ↦ ok (some mid)
      ]
    ]
    else ok none

unfoldable pub find_key_block_by_ordinal : List KeyBlockDescriptor → ℕ → Result (Option ℕ)
unfolding find_key_loop
find_key_block_by_ordinal blocks ordinal =
    find_key_loop blocks ordinal (suc (length blocks)) 0 (length blocks)
