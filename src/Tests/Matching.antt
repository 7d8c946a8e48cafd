-- ===== src/Tests/Matching.antt =====
-- A page of case variants.
use mdictlib.Prelude.{ℕ, zero, suc, List, [], ◌∷◌, ◌≡◌, refl, length}
use mdictlib.Error.{Result, ok, err, invalid_format}
use mdictlib.Descriptors.{Text}
use mdictlib.CaseVariants.{select_ordinals}
use mdictlib.CaseVariants.Pages.{Supplies, page_of, select_ordinals-ok}

-- "A", "a", "b", "a"
abbrev candidates : List (ℕ × Text)
candidates = (0, 65 ∷ []) ∷ (1, 97 ∷ []) ∷ (2, 98 ∷ []) ∷ (3, 97 ∷ []) ∷ []

abbrev candidate_at : List (ℕ × Text) → ℕ → Result (ℕ × Text)
candidate_at [] p = err (invalid_format "case-variant range escaped locator")
candidate_at (c ∷ cs) zero = ok c
candidate_at (c ∷ cs) (suc p) = candidate_at cs p

abbrev same_letter : ℕ → Text
same_letter c = c ∷ []

candidates_supplied : Supplies (candidate_at candidates) 0 candidates
candidates_supplied = (refl, (refl, (refl, (refl, tt))))

select_ordinals_example :
    select_ordinals same_letter (97 ∷ []) 1 2 (candidate_at candidates) (length candidates) 8
    ≡ ok (page_of same_letter (97 ∷ []) 1 2 (candidate_at candidates) candidates 8)
select_ordinals_example =
    select_ordinals-ok same_letter (97 ∷ []) 1 2 (candidate_at candidates) candidates 8
      candidates_supplied
