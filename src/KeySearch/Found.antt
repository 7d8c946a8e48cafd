-- ===== src/KeySearch/Found.antt =====
-- In key blocks that number the entries without a gap, an ordinal is found in the block that holds it.
use mdictlib.Prelude.{
  ℕ, zero, suc, ◌+◌, ◌-◌, ◌/◌, ◌≤◌, ◌<◌, none, some, List, [], ◌∷◌, length, get_elem?, dec_lt, ◌≡◌,
  ◌⊎◌, inl, inr, refl, arith,
}
use mdictlib.Error.{ok}
use mdictlib.Limits.{u64_max}
use mdictlib.Descriptors.{KeyBlockDescriptor}
use mdictlib.Descriptors.Verify.{CoversKeys, CoversKeys-le}
use mdictlib.KeySearch.{find_key_loop, find_key_block_by_ordinal}

abbrev pub Numbers : KeyBlockDescriptor → ℕ → Type 0
Numbers b ordinal =
    (b.entry_start_index ≤ ordinal) × (ordinal < b.entry_start_index + b.entry_count)

bounds :
    (bs : List KeyBlockDescriptor) (start total i : ℕ) (b : KeyBlockDescriptor)
    → CoversKeys bs start total
    → get_elem? bs i ≡ some b
    → (start ≤ b.entry_start_index)
      × (b.entry_start_index + b.entry_count ≤ total)
      × (total ≤ u64_max)
      × (i < length bs)
bounds [] start total i b h e = cc
bounds (x ∷ bs) start total zero b h e =
    ground (arith, CoversKeys-le bs (start + x.entry_count) total h.1)
bounds (x ∷ bs) start total (suc i) b h e =
    omega (arith, bounds bs (start + x.entry_count) total i b h.1 e)

in_order :
    (bs : List KeyBlockDescriptor) (start total i j : ℕ) (b c : KeyBlockDescriptor)
    → CoversKeys bs start total
    → get_elem? bs i ≡ some b
    → get_elem? bs j ≡ some c
    → i < j
    → b.entry_start_index + b.entry_count ≤ c.entry_start_index
in_order [] start total i j b c h e f p = cc
in_order (x ∷ bs) start total i zero b c h e f p = absurd (omega arith)
in_order (x ∷ bs) start total zero (suc j) b c h e f p =
    ground (arith, bounds bs (start + x.entry_count) total j c h.1 f)
in_order (x ∷ bs) start total (suc i) (suc j) b c h e f p =
    in_order bs (start + x.entry_count) total i j b c h.1 e f (omega arith)

numbering :
    (bs : List KeyBlockDescriptor) (start total ordinal : ℕ)
    → CoversKeys bs start total
    → start ≤ ordinal
    → ordinal < total
    → (k : ℕ) × (b : KeyBlockDescriptor) × (get_elem? bs k ≡ some b) × Numbers b ordinal
numbering [] start total ordinal h p q = absurd (omega arith)
numbering (x ∷ bs) start total ordinal h p q = elim (dec_lt ordinal (start + x.entry_count)) [
  | yes inside ↦ (0, x, refl, (omega arith, omega arith))
  | no past ↦
      let rest = numbering bs (start + x.entry_count) total ordinal h.1 (omega arith) q in
      (suc rest.0, rest.1, rest.2, rest.3)
]

block_at :
    (bs : List KeyBlockDescriptor) (i : ℕ)
    → i < length bs
    → (b : KeyBlockDescriptor) × (get_elem? bs i ≡ some b)
block_at [] i h = absurd (omega arith)
block_at (x ∷ bs) zero h = (x, refl)
block_at (x ∷ bs) (suc i) h = block_at bs i (omega arith)

-- The loop finds the block `k` that numbers the ordinal, if its range contains `k`.
loop_finds :
    (bs : List KeyBlockDescriptor) (total ordinal k : ℕ) (b : KeyBlockDescriptor)
    → CoversKeys bs 0 total
    → get_elem? bs k ≡ some b
    → Numbers b ordinal
    → (fuel left right : ℕ) → right - left < fuel
    → right ≤ length bs
    → left ≤ k
    → k < right
    → find_key_loop bs ordinal fuel left right ≡ ok (some k)
unfolding find_key_loop
loop_finds bs total ordinal k b h e p zero left right f r lk kr = absurd (omega arith)
loop_finds bs total ordinal k b h e p (suc fuel) left right f r lk kr =
    let mid = (left + right) / 2 in
    let probed = block_at bs ((left + right) / 2) (omega arith) in
    ground (
      arith,
      probed.1,
      bounds bs 0 total mid probed.0 h probed.1,
      in_order bs 0 total mid k probed.0 b h probed.1 e,
      in_order bs 0 total k mid b probed.0 h e probed.1,
      loop_finds bs total ordinal k b h e p fuel left mid,
      loop_finds bs total ordinal k b h e p fuel (mid + 1) right,
    )

-- Past the last entry, the loop goes to the end of its range and finds nothing.
loop_misses :
    (bs : List KeyBlockDescriptor) (total ordinal : ℕ)
    → CoversKeys bs 0 total
    → total ≤ ordinal
    → (fuel left right : ℕ) → right - left < fuel
    → right ≤ length bs
    → find_key_loop bs ordinal fuel left right ≡ ok none
unfolding find_key_loop
loop_misses bs total ordinal h p zero left right f r = absurd (omega arith)
loop_misses bs total ordinal h p (suc fuel) left right f r = elim (dec_lt left right) [
  | no ended ↦ ground arith
  | yes more ↦
      let mid = (left + right) / 2 in
      let probed = block_at bs ((left + right) / 2) (omega arith) in
      ground (
        arith,
        probed.1,
        bounds bs 0 total mid probed.0 h probed.1,
        loop_misses bs total ordinal h p fuel (mid + 1) right,
      )
]

-- In key blocks that number `total` entries without a gap, the search returns the block that holds
-- an ordinal below `total`, returns none for any other, and never fails.
pub find_key_block_by_ordinal-Numbers :
    (bs : List KeyBlockDescriptor) (total ordinal : ℕ)
    → CoversKeys bs 0 total
    → ((ordinal < total)
        × (k : ℕ) × (b : KeyBlockDescriptor) × (find_key_block_by_ordinal bs ordinal ≡ ok (some k))
        × (get_elem? bs k ≡ some b)
        × Numbers b ordinal)
      ⊎ ((total ≤ ordinal) × (find_key_block_by_ordinal bs ordinal ≡ ok none))
unfolding find_key_block_by_ordinal
find_key_block_by_ordinal-Numbers bs total ordinal h = elim (dec_lt ordinal total) [
  | yes inside ↦
      let found = numbering bs 0 total ordinal h (omega arith) inside in
      let bound = bounds bs 0 total found.0 found.1 h found.2 in
      inl (
        inside,
        found.0,
        found.1,
        loop_finds bs total ordinal found.0 found.1 h found.2 found.3 (suc (length bs)) 0
            (length bs) (omega arith) (omega arith) (omega arith) (omega arith),
        found.2,
        found.3,
      )
  | no past ↦ inr (
    omega arith,
    loop_misses bs total ordinal h (omega arith) (suc (length bs)) 0 (length bs) (omega arith)
        (omega arith),
  )
]
