-- ===== src/CaseVariants.antt =====
-- core/case_variants.rs: a page of the keys that are equal to a query, or differ from it in case only.
-- `char::to_lowercase`, the table of the standard library, is the section's parameter. A count of
-- matches stays below the candidate count, so `+= 1` does not overflow.
pub mod Pages
use mdictlib.Prelude.{
  ℕ, zero, suc, ◌+◌, ◌-◌, min, Bool, true, false, ◌&&◌, not, Option, none, some, List, [], ◌∷◌,
  ◌++◌, ltb, leb, ◌==◌, if◌then◌else◌, length,
}
use mdictlib.Error.{Result, ok, err, ◌>>=◌, ok_or, invalid_format}
use mdictlib.Limits.{checked_mul, ensure_usize_limit}
use mdictlib.Budget.{MemoryBudget, claim, release}
use mdictlib.Descriptors.{Text}

pub data LocatorBasis : Type 0 where
  raw_exact header_normalized case_variants : LocatorBasis

-- `reserved` is the size of the reservation of the page.
pub record LocatedKeyPage : Type 0 where
  pub basis : LocatorBasis
  pub total : ℕ
  pub ordinals : List ℕ
  pub reserved : ℕ

-- `==` of two texts.
unfoldable pub equal_texts : Text → Text → Bool
equal_texts [] [] = true
equal_texts [] (d ∷ ds) = false
equal_texts (c ∷ cs) [] = false
equal_texts (c ∷ cs) (d ∷ ds) = c == d && equal_texts cs ds

unfoldable pub is_ascii : Text → Bool
is_ascii [] = true
is_ascii (c ∷ cs) = ltb c 128 && is_ascii cs

-- `u8::to_ascii_lowercase`
unfoldable pub ascii_lower : ℕ → ℕ
ascii_lower c = if leb 65 c && leb c 90 then c + 32 else c

unfoldable pub eq_ignore_ascii_case : Text → Text → Bool
unfolding ascii_lower
eq_ignore_ascii_case [] [] = true
eq_ignore_ascii_case [] (d ∷ ds) = false
eq_ignore_ascii_case (c ∷ cs) [] = false
eq_ignore_ascii_case (c ∷ cs) (d ∷ ds) =
    ascii_lower c == ascii_lower d && eq_ignore_ascii_case cs ds

-- The variables of the first pass: the page of the exact matches, and the two counts.
pub record FirstPass : Type 0 where
  pub ordinals : List ℕ
  pub exact_count : ℕ
  pub variant_count : ℕ

-- `key.key() == query`
unfoldable pub is_exact : Text → Text → Bool
is_exact query key = equal_texts key query

module _ (to_lowercase : ℕ → Text) where
  -- `chars().flat_map(char::to_lowercase)`
  unfoldable pub lowercase : Text → Text
  lowercase [] = []
  lowercase (c ∷ cs) = to_lowercase c ++ lowercase cs

  unfoldable pub equal_ignoring_case : Text → Text → Bool
  equal_ignoring_case left right =
      if is_ascii left && is_ascii right
      then eq_ignore_ascii_case left right
      else equal_texts (lowercase left) (lowercase right)

  unfoldable pub is_variant : Text → Text → Bool
  is_variant query key = not (equal_texts key query) && equal_ignoring_case key query

  module _ (query : Text) (offset limit : ℕ) (source_key : ℕ → Result (ℕ × Text)) where
    unfoldable pub count_key : ℕ × Text → FirstPass → FirstPass
    count_key (ordinal, key) s =
        if is_exact query key
        then record s {
          ordinals =
              (if leb offset s.exact_count && ltb (length s.ordinals) limit
                then s.ordinals ++ (ordinal ∷ [])
                else s.ordinals);
          exact_count = s.exact_count + 1;
        }
        else if is_variant query key
        then record s { variant_count = s.variant_count + 1 }
        else s

    -- The first pass: `for position in 0..candidate_count`, with the number of positions that are left.
    unfoldable pub first_pass : ℕ → ℕ → FirstPass → Result FirstPass
    first_pass zero position s = ok s
    first_pass (suc left) position s = do
      key ← source_key position
      first_pass left (suc position) (count_key key s)

    -- The second pass, which stops at the number of ordinals that is wanted.
    unfoldable pub second_pass : ℕ → ℕ → ℕ → ℕ → ℕ → List ℕ → Result (List ℕ)
    second_pass zero position wanted variant_offset variant_position ordinals = ok ordinals
    second_pass (suc left) position wanted variant_offset variant_position ordinals = do
      (ordinal, key) ← source_key position
      let skipped = second_pass left (suc position) wanted variant_offset variant_position ordinals
      let passed =
          second_pass left (suc position) wanted variant_offset (variant_position + 1) ordinals
      let pushed = ordinals ++ (ordinal ∷ [])
      let more = second_pass left (suc position) wanted variant_offset (variant_position + 1) pushed
      (if is_variant query key
          then (if leb variant_offset variant_position
              then (if length pushed == wanted then ok pushed else more)
              else passed)
          else skipped)

    unfoldable pub fill_page : ℕ → ℕ → ℕ → FirstPass → Result (List ℕ)
    fill_page candidate_count total wanted s =
        if ltb (length s.ordinals) wanted
        then second_pass candidate_count 0 wanted (offset - s.exact_count) 0 s.ordinals
        else ok s.ordinals

    -- The two passes.
    unfoldable pub select_ordinals : ℕ → ℕ → Result (Option LocatedKeyPage)
    select_ordinals candidate_count bytes = do
      s ←
          first_pass candidate_count 0
            (record { ordinals = []; exact_count = 0; variant_count = 0 })
      let total = s.exact_count + s.variant_count
      (if total == 0 then ok none else (do
        ordinals ← fill_page candidate_count total (min limit (total - offset)) s
        ok (
            some (record {
              basis = (if s.variant_count == 0 then raw_exact else case_variants);
              total = total;
              ordinals = ordinals;
              reserved = bytes;
            }))))

    -- The reservation moves into the page, and ends when there is none.
    abbrev pub keep_page :
        ℕ
        → MemoryBudget
        → Result (Option LocatedKeyPage)
        → Result (Option LocatedKeyPage) × MemoryBudget
    keep_page bytes b (ok (some page)) = (ok (some page), b)
    keep_page bytes b (ok none) = (ok none, release bytes b)
    keep_page bytes b (err e) = (err e, release bytes b)

    abbrev pub page_claimed :
        ℕ → ℕ → MemoryBudget → Result MemoryBudget → Result (Option LocatedKeyPage) × MemoryBudget
    page_claimed candidate_count bytes b (ok b') =
        keep_page bytes b' (select_ordinals candidate_count bytes)
    page_claimed candidate_count bytes b (err e) = (err e, b)

    unfoldable pub page_bytes : ℕ → ℕ → Result ℕ
    page_bytes candidate_count locator_bytes = do
      bytes ←
          ok_or (checked_mul (min limit (candidate_count - offset)) 4)
            (invalid_format "case-variant page size overflow")
      _ ← ensure_usize_limit "key_match_page_bytes" bytes locator_bytes
      ok bytes

    abbrev pub page_sized :
        ℕ → MemoryBudget → Result ℕ → Result (Option LocatedKeyPage) × MemoryBudget
    page_sized candidate_count b (ok bytes) = page_claimed candidate_count bytes b (claim bytes b)
    page_sized candidate_count b (err e) = (err e, b)

    unfoldable pub select_page :
        ℕ → ℕ → MemoryBudget → Result (Option LocatedKeyPage) × MemoryBudget
    select_page candidate_count locator_bytes b =
        page_sized candidate_count b (page_bytes candidate_count locator_bytes)
