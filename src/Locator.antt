-- ===== src/Locator.antt =====
-- core/locator.rs: the sorted index of normalized keys and its range search. The arena `text` with its
-- `bounds` is the list of its rows; the order of UTF-8 texts is that of their characters.
pub mod Order
pub mod Partition
pub mod Range
use mdictlib.Prelude.{
  ℕ, zero, suc, ◌+◌, ◌/◌, ◌%◌, ◌*◌, ◌^◌, Bool, true, false, not, Option, none, some, List, [], ◌∷◌,
  ltb, ◌==◌, if◌then◌else◌, length, get_elem?,
}
use Prim.Native.Nat.{bit_xor}
use mdictlib.Descriptors.{Text}

pub record KeyLocator : Type 0 where
  pub rows : List Text
  pub order : List ℕ
  pub raw_digest : List ℕ

-- `row_text`: a row that does not exist is empty.
unfoldable pub row_text : List Text → ℕ → Text
row_text [] row = []
row_text (t ∷ ts) zero = t
row_text (t ∷ ts) (suc row) = row_text ts row

-- `<` of `str`.
unfoldable pub text_lt : Text → Text → Bool
text_lt [] [] = false
text_lt [] (d ∷ ds) = true
text_lt (c ∷ cs) [] = false
text_lt (c ∷ cs) (d ∷ ds) = if ltb c d then true else if c == d then text_lt cs ds else false

-- `<=` of `str`.
unfoldable pub text_le : Text → Text → Bool
text_le left right = not (text_lt right left)

-- `partition_point` of a slice, as a binary search; the fuel exceeds the width of the range.
unfoldable pub partition_loop : (ℕ → Bool) → List ℕ → ℕ → ℕ → ℕ → ℕ
partition_loop test xs zero left right = left
partition_loop test xs (suc fuel) left right =
    let mid = (left + right) / 2 in
    let lower = partition_loop test xs fuel left mid in
    let upper = partition_loop test xs fuel (mid + 1) right in
    if ltb left right
    then elim (get_elem? xs mid) [ none ↦ left | some x ↦ if test x then upper else lower ]
    else left

unfoldable pub partition_point : (ℕ → Bool) → List ℕ → ℕ
partition_point test xs = partition_loop test xs (suc (length xs)) 0 (length xs)

unfoldable pub equal_range : KeyLocator → Text → Option (ℕ × ℕ)
equal_range locator query =
    let start = partition_point (λ row. text_lt (row_text locator.rows row) query) locator.order in
    let end = partition_point (λ row. text_le (row_text locator.rows row) query) locator.order in
    if ltb start end then some (start, end) else none

-- `raw_digest`, over the bytes of a key, in `u32` arithmetic.
unfoldable pub digest_loop : List ℕ → ℕ → ℕ
digest_loop [] hash = hash
digest_loop (byte ∷ bytes) hash = digest_loop bytes (bit_xor hash byte * 16777619 % 2 ^ 32)

unfoldable pub digest_of : List ℕ → ℕ
digest_of raw = digest_loop raw 2166136261
