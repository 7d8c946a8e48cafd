-- ===== src/Prelude/Slices.antt =====
-- Slices `xs[i..j]` of a list, and sums.
use Prim.Native.Nat.{ℕ, zero, suc, ◌+◌, ◌-◌, ◌≤◌}
use mathlib.Core.Path.{◌≡◌, refl, ap}
use mathlib.Core.List.{List, [], ◌∷◌, ◌++◌}
use native.Mathlib.Omega.{arith}
use mdictlib.Prelude.Lists.{length, take, drop, length-take, length-drop}

module _ {ℓ} {A : Type ℓ} where
  -- `xs[start..stop]`
  abbrev pub slice : ℕ → ℕ → List A → List A
  slice start stop xs = take (stop - start) (drop start xs)

  pub length-slice :
      (start stop : ℕ) (xs : List A)
      → start ≤ stop
      → stop ≤ length xs
      → length (slice start stop xs) ≡ stop - start
  length-slice start stop xs p q =
      omega (arith, length-take (stop - start) (drop start xs), length-drop start xs)

module _ {ℓ} {A : Type ℓ} where
  pub drop-append : (xs ys : List A) → drop (length xs) (xs ++ ys) ≡ ys
  drop-append [] ys = refl
  drop-append (x ∷ xs) ys = drop-append xs ys

  pub take-append : (n : ℕ) (xs ys : List A) → length xs ≡ n → take n (xs ++ ys) ≡ xs
  take-append zero [] ys e = refl
  take-append zero (x ∷ xs) ys e = absurd (omega arith)
  take-append (suc n) [] ys e = absurd (omega arith)
  take-append (suc n) (x ∷ xs) ys e = ap (λ t. x ∷ t) (take-append n xs ys (omega arith))

  -- The slice of a list that was put together from three parts.
  pub slice-append :
      (start n : ℕ) (xs ys zs : List A)
      → length xs ≡ start
      → length ys ≡ n
      → slice start (start + n) (xs ++ (ys ++ zs)) ≡ ys
  slice-append start n xs ys zs e f = rw (← e) (rw drop-append (take-append _ ys zs (omega arith)))

  pub take_all : (n : ℕ) (xs : List A) → length xs ≤ n → take n xs ≡ xs
  take_all zero [] h = refl
  take_all zero (x ∷ xs) h = absurd (omega arith)
  take_all (suc n) [] h = refl
  take_all (suc n) (x ∷ xs) h = ap (λ t. x ∷ t) (take_all n xs (omega arith))
