-- ===== src/Descriptors/Search.antt =====
-- The binary search for a record block finds the block of every offset below the total.
use mdictlib.Prelude.{
  ℕ, zero, suc, ◌+◌, ◌-◌, ◌/◌, ◌≤◌, ◌<◌, Option, none, some, List, [], ◌∷◌, Option-cases, length,
  get_elem?, dec_lt, ◌≡◌, refl, inl, inr, arith,
}
use mdictlib.Limits.{u64_max}
use mdictlib.Descriptors.{RecordBlockDescriptor, find_record_loop, find_record_block}
use mdictlib.Descriptors.Verify.{CoversRecords, CoversRecords-le}

-- The block holds the offset.
abbrev pub Holds : RecordBlockDescriptor → ℕ → Type 0
Holds b offset = (b.decomp_offset ≤ offset) × (offset < b.decomp_offset + b.decomp_size)

pub get_elem?-bounds :
    (bs : List RecordBlockDescriptor) (start total i : ℕ) (b : RecordBlockDescriptor)
    → CoversRecords bs start total
    → get_elem? bs i ≡ some b
    → (start ≤ b.decomp_offset)
      × (b.decomp_offset + b.decomp_size ≤ total)
      × (total ≤ u64_max)
      × (i < length bs)
get_elem?-bounds [] start total i b h e = cc
get_elem?-bounds (x ∷ bs) start total zero b h e =
    ground (arith, CoversRecords-le bs (start + x.decomp_size) total h.1)
get_elem?-bounds (x ∷ bs) start total (suc i) b h e =
    omega (arith, get_elem?-bounds bs (start + x.decomp_size) total i b h.1 e)

-- Blocks lie in the order of their indices.
ordered_blocks :
    (bs : List RecordBlockDescriptor) (start total i j : ℕ) (b c : RecordBlockDescriptor)
    → CoversRecords bs start total
    → get_elem? bs i ≡ some b
    → get_elem? bs j ≡ some c
    → i < j
    → b.decomp_offset + b.decomp_size ≤ c.decomp_offset
ordered_blocks [] start total i j b c h e f p = cc
ordered_blocks (x ∷ bs) start total i zero b c h e f p = absurd (omega arith)
ordered_blocks (x ∷ bs) start total zero (suc j) b c h e f p =
    ground (arith, get_elem?-bounds bs (start + x.decomp_size) total j c h.1 f)
ordered_blocks (x ∷ bs) start total (suc i) (suc j) b c h e f p =
    ordered_blocks bs (start + x.decomp_size) total i j b c h.1 e f (omega arith)

-- Two blocks that hold the same offset are one.
pub Holds-unique :
    (bs : List RecordBlockDescriptor) (start total i j offset : ℕ) (b c : RecordBlockDescriptor)
    → CoversRecords bs start total
    → get_elem? bs i ≡ some b
    → get_elem? bs j ≡ some c
    → Holds b offset
    → Holds c offset
    → i ≡ j
Holds-unique bs start total i j offset b c h e f p q = ground (
  arith,
  ordered_blocks bs start total i j b c h e f,
  ordered_blocks bs start total j i c b h f e,
)

Holding : List RecordBlockDescriptor → ℕ → Type 0
Holding bs offset =
    (k : ℕ) × (b : RecordBlockDescriptor) × (get_elem? bs k ≡ some b) × Holds b offset

some_block :
    (bs : List RecordBlockDescriptor) (start total offset : ℕ)
    → CoversRecords bs start total
    → start ≤ offset
    → offset < total
    → Holding bs offset
unfolding Holding
some_block [] start total offset h p q = absurd (omega arith)
some_block (x ∷ bs) start total offset h p q = elim (dec_lt offset (start + x.decomp_size)) [
  | yes inside ↦ (0, x, refl, (omega arith, omega arith))
  | no past ↦
      let rest = some_block bs (start + x.decomp_size) total offset h.1 (omega arith) q in
      (suc rest.0, rest.1, rest.2, rest.3)
]

some_elem : {A : Type 0} (xs : List A) (i : ℕ) → i < length xs → (x : A) × (get_elem? xs i ≡ some x)
some_elem [] i h = absurd (omega arith)
some_elem (x ∷ xs) zero h = (x, refl)
some_elem (x ∷ xs) (suc i) h = some_elem xs i (omega arith)

-- The loop finds the block `k` that holds the offset, if its range contains `k`.
find_record_loop-some :
    (bs : List RecordBlockDescriptor) (total offset k : ℕ) (b : RecordBlockDescriptor)
    → CoversRecords bs 0 total
    → get_elem? bs k ≡ some b
    → Holds b offset
    → (fuel left right : ℕ) → right - left < fuel
    → right ≤ length bs
    → left ≤ k
    → k < right
    → find_record_loop bs offset fuel left right ≡ some k
unfolding find_record_loop
find_record_loop-some bs total offset k b h e p zero left right f r lk kr = absurd (omega arith)
find_record_loop-some bs total offset k b h e p (suc fuel) left right f r lk kr =
    let mid = (left + right) / 2 in
    let probed = some_elem bs ((left + right) / 2) (omega arith) in
    ground (
      arith,
      probed.1,
      get_elem?-bounds bs 0 total mid probed.0 h probed.1,
      ordered_blocks bs 0 total mid k probed.0 b h probed.1 e,
      ordered_blocks bs 0 total k mid b probed.0 h e probed.1,
      find_record_loop-some bs total offset k b h e p fuel left mid,
      find_record_loop-some bs total offset k b h e p fuel (mid + 1) right,
    )

abbrev HoldsAt : Option RecordBlockDescriptor → ℕ → Type 0
HoldsAt none offset = ⊥
HoldsAt (some b) offset = Holds b offset

HoldsAt-some :
    (o : Option RecordBlockDescriptor) (offset : ℕ)
    → HoldsAt o offset
    → (b : RecordBlockDescriptor) × (o ≡ some b) × Holds b offset
HoldsAt-some none offset h = absurd h
HoldsAt-some (some b) offset h = (b, refl, h)

-- Whatever the loop answers holds the offset.
find_record_loop_sound :
    (bs : List RecordBlockDescriptor) (offset k fuel left right : ℕ)
    → find_record_loop bs offset fuel left right ≡ some k
    → HoldsAt (get_elem? bs k) offset
unfolding find_record_loop
find_record_loop_sound bs offset k zero left right e = cc
find_record_loop_sound bs offset k (suc fuel) left right e = ground (
  arith,
  find_record_loop_sound bs offset k fuel left ((left + right) / 2),
  find_record_loop_sound bs offset k fuel ((left + right) / 2 + 1) right,
)

-- In record blocks that cover a stream of `total` bytes, the search finds the one block that holds
-- an offset below `total`.
pub find_record_block-some :
    (bs : List RecordBlockDescriptor) (total offset : ℕ)
    → CoversRecords bs 0 total
    → offset < total
    → (k : ℕ) × (b : RecordBlockDescriptor) × (find_record_block bs offset ≡ some k)
      × (get_elem? bs k ≡ some b)
      × Holds b offset
unfolding find_record_block Holding
find_record_block-some bs total offset h p =
    let found : Holding bs offset = some_block bs 0 total offset h (omega arith) p in
    let bound = get_elem?-bounds bs 0 total found.0 found.1 h found.2 in
    (
      found.0,
      found.1,
      find_record_loop-some bs total offset found.0 found.1 h found.2 found.3 (suc (length bs)) 0
          (length bs) (omega arith) (omega arith) (omega arith) (omega arith),
      found.2,
      found.3,
    )

-- An offset at or past the end of the stream is in no block.
pub find_record_block-none :
    (bs : List RecordBlockDescriptor) (total offset : ℕ)
    → CoversRecords bs 0 total
    → total ≤ offset
    → find_record_block bs offset ≡ none
unfolding find_record_block
find_record_block-none bs total offset h p = elim (Option-cases (find_record_block bs offset)) [
  | inl e ↦ e
  | inr (k, e) ↦
      let found =
        HoldsAt-some (get_elem? bs k) offset
          (find_record_loop_sound bs offset k (suc (length bs)) 0 (length bs) e) in
      let bound = get_elem?-bounds bs 0 total k found.0 h found.1 in absurd (omega arith)
]
