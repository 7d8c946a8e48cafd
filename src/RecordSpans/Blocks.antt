-- ===== src/RecordSpans/Blocks.antt =====
-- The blocks of consecutive entries.
use mdictlib.Prelude.{
  ℕ, zero, suc, ◌+◌, ◌≤◌, ◌<◌, none, some, List, [], ◌∷◌, length, get_elem?, ◌≡◌, ◌⊎◌, inl, inr,
  refl, sym, ap, ◌∙◌, arith,
}
use mdictlib.Descriptors.{KeyBlockDescriptor}
use mdictlib.Descriptors.Verify.{CoversKeys, CoversKeys-le}
use mdictlib.KeyRows.{DecodedKeyRow}
use mdictlib.KeyBlocks.{first_row}
use mdictlib.KeySearch.Found.{Numbers}

-- Every block has an entry.
abbrev pub NoneEmpty : List KeyBlockDescriptor → Type 0
NoneEmpty [] = Unit {0}
NoneEmpty (b ∷ bs) = (1 ≤ b.entry_count) × NoneEmpty bs

pub later_start :
    (bs : List KeyBlockDescriptor) (start total k : ℕ) (b : KeyBlockDescriptor)
    → CoversKeys bs start total
    → get_elem? bs k ≡ some b
    → start ≤ b.entry_start_index
later_start [] start total k b h e = ground arith
later_start (c ∷ bs) start total zero b h e = ground arith
later_start (c ∷ bs) start total (suc k) b h e =
    omega (arith, later_start bs (start + c.entry_count) total k b h.1 e)

-- The block of the next entry is the same one, or the next one and begins with it.
pub next_block :
    (bs : List KeyBlockDescriptor) (start total ordinal k l : ℕ) (b c : KeyBlockDescriptor)
    → CoversKeys bs start total
    → NoneEmpty bs
    → get_elem? bs k ≡ some b
    → get_elem? bs l ≡ some c
    → Numbers b ordinal
    → Numbers c (suc ordinal)
    → ((l ≡ k) × (some b ≡ some c))
      ⊎ ((l ≡ suc k)
          × (c.entry_start_index ≡ suc ordinal)
          × (b.entry_start_index + b.entry_count ≡ suc ordinal))
next_block [] start total ordinal k l b c h n p q u v = ground arith
next_block (d ∷ bs) start total ordinal zero zero b c h n p q u v = inl (refl, sym p ∙ q)
next_block (d ∷ []) start total ordinal zero (suc l) b c h n p q u v = ground arith
next_block (d ∷ d' ∷ bs) start total ordinal zero (suc zero) b c h n p q u v =
    inr (refl, ground arith, ground arith)
next_block (d ∷ d' ∷ bs) start total ordinal zero (suc (suc l)) b c h n p q u v =
    absurd
      (ground (arith, later_start bs (start + d.entry_count + d'.entry_count) total l c h.1.1 q))
next_block (d ∷ bs) start total ordinal (suc k) zero b c h n p q u v =
    absurd (ground (arith, later_start bs (start + d.entry_count) total k b h.1 p))
next_block (d ∷ bs) start total ordinal (suc k) (suc l) b c h n p q u v =
    elim (next_block bs (start + d.entry_count) total ordinal k l b c h.1 n.1 p q u v) [
      | inl (e, same) ↦ inl (ap suc e, same)
      | inr (e, at, end) ↦ inr (ap suc e, at, end)
    ]

-- The last entry is the last one of the last block.
pub last_block :
    (bs : List KeyBlockDescriptor) (start total ordinal k : ℕ) (b : KeyBlockDescriptor)
    → CoversKeys bs start total
    → NoneEmpty bs
    → get_elem? bs k ≡ some b
    → Numbers b ordinal
    → suc ordinal ≡ total
    → (length bs ≤ suc k) × (b.entry_start_index + b.entry_count ≤ suc ordinal)
last_block [] start total ordinal k b h n p u e = ground arith
last_block (d ∷ []) start total ordinal zero b h n p u e = ground arith
last_block (d ∷ []) start total ordinal (suc k) b h n p u e = ground arith
last_block (d ∷ d' ∷ bs) start total ordinal zero b h n p u e =
    absurd (ground (arith, CoversKeys-le bs (start + d.entry_count + d'.entry_count) total h.1.1))
last_block (d ∷ d' ∷ bs) start total ordinal (suc k) b h n p u e =
    let rest = last_block (d' ∷ bs) (start + d.entry_count) total ordinal k b h.1 n.1 p u e in
    (omega (arith, rest.0), rest.1)

pub get_elem?-past {ℓ} : {A : Type ℓ} (xs : List A) (i : ℕ) → length xs ≤ i → get_elem? xs i ≡ none
get_elem?-past [] i p = refl
get_elem?-past (x ∷ xs) zero p = absurd (omega arith)
get_elem?-past (x ∷ xs) (suc i) p = get_elem?-past xs i (omega arith)

pub get_elem?-inside {ℓ} :
    {A : Type ℓ} (xs : List A) (i : ℕ) (x : A) → get_elem? xs i ≡ some x → i < length xs
get_elem?-inside [] i x e = ground arith
get_elem?-inside (y ∷ xs) zero x e = omega arith
get_elem?-inside (y ∷ xs) (suc i) x e = omega (arith, get_elem?-inside xs i x e)

pub get_elem?-first_row :
    (rows : List DecodedKeyRow) (row : DecodedKeyRow)
    → get_elem? rows 0 ≡ some row
    → first_row rows ≡ some row
unfolding first_row
get_elem?-first_row [] row e = ground arith
get_elem?-first_row (r ∷ rows) row e = e

pub some_start :
    (b c : KeyBlockDescriptor) → some b ≡ some c → b.entry_start_index ≡ c.entry_start_index
some_start b c e = cc

pub same_place {ℓ} :
    {A : Type ℓ} (xs ys : List A) (i j : ℕ) (x : A)
    → ys ≡ xs
    → j ≡ i
    → get_elem? ys j ≡ some x
    → get_elem? xs i ≡ some x
same_place xs ys i j x e p q = rw (sym e, sym p) q
