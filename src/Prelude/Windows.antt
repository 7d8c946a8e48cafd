-- ===== src/Prelude/Windows.antt =====
-- Windows of a list: a part of an offset and a length that may reach past the end.
use mdictlib.Prelude.Lists.{length, take, drop}
use mdictlib.Prelude.{
  ℕ, zero, suc, ◌-◌, ◌<◌, min, List, [], ◌∷◌, ◌++◌, append_assoc, ◌≡◌, refl, ap, ◌∙◌, arith,
}

module _ {ℓ} {A : Type ℓ} where
  pub take_append :
      (n : ℕ) (xs ys : List A) → take n (xs ++ ys) ≡ take n xs ++ take (n - length xs) ys
  take_append zero [] ys = refl
  take_append zero (x ∷ xs) ys =
      let e : 0 ≡ 0 - suc (length xs) = omega arith in ap (λ k. take k ys) e
  take_append (suc n) [] ys = let e : suc n ≡ suc n - 0 = omega arith in ap (λ k. take k ys) e
  take_append (suc n) (x ∷ xs) ys =
      let e : n - length xs ≡ suc n - suc (length xs) = omega arith in
      ap (λ t. x ∷ t) (take_append n xs ys ∙ ap (λ k. take n xs ++ take k ys) e)

  pub drop_append :
      (n : ℕ) (xs ys : List A) → drop n (xs ++ ys) ≡ drop n xs ++ drop (n - length xs) ys
  drop_append zero [] ys = refl
  drop_append zero (x ∷ xs) ys =
      let e : 0 ≡ 0 - suc (length xs) = omega arith in ap (λ k. (x ∷ xs) ++ drop k ys) e
  drop_append (suc n) [] ys = let e : suc n ≡ suc n - 0 = omega arith in ap (λ k. drop k ys) e
  drop_append (suc n) (x ∷ xs) ys =
      let e : n - length xs ≡ suc n - suc (length xs) = omega arith in
      drop_append n xs ys ∙ ap (λ k. drop n xs ++ drop k ys) e

  pub take_none : (xs : List A) (n : ℕ) → n ≡ 0 → take n xs ≡ []
  take_none xs n e = ap (λ k. take k xs) e

  pub drop_none : (xs : List A) (n : ℕ) → n ≡ 0 → drop n xs ≡ xs
  drop_none xs n e = ap (λ k. drop k xs) e

  pub drop_empty : (n : ℕ) → drop {A = A} n [] ≡ []
  drop_empty zero = refl
  drop_empty (suc n) = refl

  pub take_empty : (n : ℕ) → take {A = A} n [] ≡ []
  take_empty zero = refl
  take_empty (suc n) = refl

  -- The next element that is skipped.
  pub drop_step : (n : ℕ) (x : A) (xs : List A) → 0 < n → drop n (x ∷ xs) ≡ drop (n - 1) xs
  drop_step zero x xs h = absurd (omega arith)
  drop_step (suc n) x xs h = ap (λ k. drop k xs) (omega arith)

  -- The next element that is taken.
  pub take_step : (n : ℕ) (x : A) (xs : List A) → 0 < n → take n (x ∷ xs) ≡ x ∷ take (n - 1) xs
  take_step zero x xs h = absurd (omega arith)
  take_step (suc n) x xs h = ap (λ k. x ∷ take k xs) (omega arith)

  pub take-min : (n : ℕ) (xs : List A) → take (min n (length xs)) xs ≡ take n xs
  take-min zero xs = let e : min 0 (length xs) ≡ 0 = omega arith in ap (λ k. take k xs) e
  take-min (suc n) [] = take_empty _
  take-min (suc n) (x ∷ xs) =
      let e : min (suc n) (suc (length xs)) ≡ suc (min n (length xs)) = omega arith in
      ap (λ k. take k (x ∷ xs)) e ∙ ap (λ t. x ∷ t) (take-min n xs)

  pub snoc : (xs ys : List A) (x : A) → (xs ++ (x ∷ [])) ++ ys ≡ xs ++ (x ∷ ys)
  snoc xs ys x = append_assoc xs (x ∷ []) ys
