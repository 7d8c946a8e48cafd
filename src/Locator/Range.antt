-- ===== src/Locator/Range.antt =====
-- equal_range is exactly the places of the rows that are equal to the query.
use mdictlib.Prelude.{
  ℕ, zero, suc, ◌<◌, Bool, true, false, not, ◌&&◌, Option, none, some, List, [], ◌∷◌, get_elem?,
  ltb, leb, if◌then◌else◌, ◌≡◌, refl, arith,
}
use mdictlib.Descriptors.{Text}
use mdictlib.CaseVariants.{equal_texts}
use mdictlib.Locator.{KeyLocator, row_text, text_lt, text_le, partition_point, equal_range}
use mdictlib.Locator.Order.{text_lt-text_le, text_le_trans, equal_texts-text_lt}
use mdictlib.Locator.Partition.{partition_point-splits}

-- No row of the list is below the text.
abbrev pub AtLeast : List Text → Text → List ℕ → Type 0
AtLeast rows t [] = Unit {0}
AtLeast rows t (r ∷ rs) = (text_lt (row_text rows r) t ≡ false) × AtLeast rows t rs

-- The order index is sorted by the text of its rows.
abbrev pub IsSorted : List Text → List ℕ → Type 0
IsSorted rows [] = Unit {0}
IsSorted rows (r ∷ rs) = AtLeast rows (row_text rows r) rs × IsSorted rows rs

-- Whether a place lies in the range that was found.
abbrev pub in_range : Option (ℕ × ℕ) → ℕ → Bool
in_range none p = false
in_range (some (start, end)) p = leb start p && ltb p end

at_least :
    (rows : List Text) (t : Text) (rs : List ℕ) (j y : ℕ)
    → AtLeast rows t rs
    → get_elem? rs j ≡ some y
    → text_lt (row_text rows y) t ≡ false
at_least rows t [] j y h e = cc
at_least rows t (r ∷ rs) zero y h e = let same : r ≡ y = cc in rw (← same) h.0
at_least rows t (r ∷ rs) (suc j) y h e = at_least rows t rs j y h.1 e

pairwise :
    (rows : List Text) (rs : List ℕ) (i j x y : ℕ)
    → IsSorted rows rs
    → i < j
    → get_elem? rs i ≡ some x
    → get_elem? rs j ≡ some y
    → text_lt (row_text rows y) (row_text rows x) ≡ false
pairwise rows [] i j x y h p e f = cc
pairwise rows (r ∷ rs) i zero x y h p e f = absurd (omega arith)
pairwise rows (r ∷ rs) zero (suc j) x y h p e f =
    let same : r ≡ x = cc in rw (← same) (at_least rows (row_text rows r) rs j y h.0 f)
pairwise rows (r ∷ rs) (suc i) (suc j) x y h p e f = pairwise rows rs i j x y h.1 (omega arith) e f

not-true : (b : Bool) → b ≡ false → not b ≡ true
not-true b e = rw e refl

not-false : (b : Bool) → not b ≡ true → b ≡ false
not-false true e = cc
not-false false e = refl

places :
    (s e p : ℕ)
    → in_range (if ltb s e then some (s, e) else none) p ≡ (if ltb p s then false else ltb p e)
places s e p = ground arith

inside :
    (s e p : ℕ) (a b : Bool) {equal : Bool}
    → ltb p s ≡ a
    → ltb p e ≡ not b
    → equal ≡ (if a then false else not b)
    → in_range (if ltb s e then some (s, e) else none) p ≡ equal
inside s e p a b f g h = rw (h, ← f, ← g) (places s e p)

-- A place is in the range that `equal_range` finds exactly when the row there is equal to the query;
-- so no range is found only when no row is.
pub equal_range-in_range :
    (locator : KeyLocator) (query : Text) (p row : ℕ)
    → IsSorted locator.rows locator.order
    → get_elem? locator.order p ≡ some row
    → in_range (equal_range locator query) p ≡ equal_texts (row_text locator.rows row) query
unfolding equal_range text_le
equal_range-in_range locator query p row h e =
    let rows = locator.rows in
    let below : ltb p (partition_point (λ r. text_lt (row_text locator.rows r) query) locator.order)
        ≡ text_lt (row_text locator.rows row) query =
      partition_point-splits (λ r. text_lt (row_text locator.rows r) query) locator.order
        (λ i j x y q f g t.
          text_lt-text_le (row_text locator.rows x) (row_text locator.rows y) query
            (pairwise locator.rows locator.order i j x y h q f g) t)
        p row e in
    let upto : ltb p
          (partition_point (λ r. not (text_lt query (row_text locator.rows r))) locator.order)
        ≡ not (text_lt query (row_text locator.rows row)) =
      partition_point-splits (λ r. not (text_lt query (row_text locator.rows r))) locator.order
        (λ i j x y q f g t. not-true _ (
          text_le_trans (row_text locator.rows x) (row_text locator.rows y) query
            (pairwise locator.rows locator.order i j x y h q f g) (not-false _ t)))
        p row e in
    inside _ _ p _ _ below upto (equal_texts-text_lt (row_text locator.rows row) query)
