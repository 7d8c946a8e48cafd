-- ===== src/Locator/Order.antt =====
-- The order of texts is total and transitive.
use mdictlib.Prelude.{true, false, not, [], ◌∷◌, if◌then◌else◌, ◌≡◌, refl, arith}
use mdictlib.Descriptors.{Text}
use mdictlib.CaseVariants.{equal_texts}
use mdictlib.Locator.{text_lt}

-- `a <= b < c` gives `a < c`.
pub text_lt-text_le : (a b c : Text) → text_lt b a ≡ false → text_lt b c ≡ true → text_lt a c ≡ true
unfolding text_lt
text_lt-text_le [] [] [] p q = cc
text_lt-text_le [] [] (z ∷ zs) p q = refl
text_lt-text_le [] (y ∷ ys) [] p q = cc
text_lt-text_le [] (y ∷ ys) (z ∷ zs) p q = refl
text_lt-text_le (x ∷ xs) [] c p q = cc
text_lt-text_le (x ∷ xs) (y ∷ ys) [] p q = cc
text_lt-text_le (x ∷ xs) (y ∷ ys) (z ∷ zs) p q = ground (arith, text_lt-text_le xs ys zs)

-- `a <= b <= c` gives `a <= c`.
pub text_le_trans : (a b c : Text) → text_lt b a ≡ false → text_lt c b ≡ false → text_lt c a ≡ false
unfolding text_lt
text_le_trans [] [] [] p q = refl
text_le_trans [] [] (z ∷ zs) p q = refl
text_le_trans [] (y ∷ ys) [] p q = refl
text_le_trans [] (y ∷ ys) (z ∷ zs) p q = refl
text_le_trans (x ∷ xs) [] c p q = cc
text_le_trans (x ∷ xs) (y ∷ ys) [] p q = cc
text_le_trans (x ∷ xs) (y ∷ ys) (z ∷ zs) p q = ground (arith, text_le_trans xs ys zs)

-- Two texts are equal when neither is below the other.
pub equal_texts-text_lt :
    (a b : Text) → equal_texts a b ≡ (if text_lt a b then false else not (text_lt b a))
unfolding text_lt equal_texts
equal_texts-text_lt [] [] = refl
equal_texts-text_lt [] (d ∷ ds) = refl
equal_texts-text_lt (c ∷ cs) [] = refl
equal_texts-text_lt (c ∷ cs) (d ∷ ds) = ground (arith, equal_texts-text_lt cs ds)
