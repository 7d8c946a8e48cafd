-- ===== src/Bytes.antt =====
-- The byte orders of the wire formats: `from_be_bytes`, `from_le_bytes` and `to_le_bytes` of the
-- fixed-width integers, for any width.
use mdictlib.Prelude.{
  ℕ, zero, suc, ◌+◌, ◌*◌, ◌/◌, ◌%◌, ◌^◌, ◌<◌, List, [], ◌∷◌, ◌++◌, take, drop, length,
  length-append, ◌≡◌, refl, ap, ◌∙◌, arith,
}
use mathlib.Core.List.{reverse, reverse-reverse, reverse-append}

abbrev pub IsBytes : List ℕ → Type 0
IsBytes [] = Unit {0}
IsBytes (b ∷ bs) = (b < 256) × IsBytes bs

unfoldable pub from_le : List ℕ → ℕ
from_le [] = 0
from_le (b ∷ bs) = b + 256 * from_le bs

unfoldable pub to_le : ℕ → ℕ → List ℕ
to_le zero v = []
to_le (suc n) v = v % 256 ∷ to_le n (v / 256)

unfoldable pub from_be : List ℕ → ℕ
unfolding from_le
from_be bs = from_le (reverse bs)

-- The big-endian encoding, which the tests of the program write.
unfoldable pub to_be : ℕ → ℕ → List ℕ
unfolding to_le
to_be n v = reverse (to_le n v)

pub length-to_le : (n v : ℕ) → length (to_le n v) ≡ n
unfolding to_le
length-to_le zero v = refl
length-to_le (suc n) v = ap suc (length-to_le n (v / 256))

pub to_le-IsBytes : (n v : ℕ) → IsBytes (to_le n v)
unfolding to_le
to_le-IsBytes zero v = tt
to_le-IsBytes (suc n) v = (omega arith, to_le-IsBytes n (v / 256))

pow_step : (n : ℕ) → 256 ^ suc n ≡ 256 * 256 ^ n
pow_step n = omega arith

pub from_le-to_le : (n v : ℕ) → v < 256 ^ n → from_le (to_le n v) ≡ v
unfolding from_le to_le
from_le-to_le zero v h = omega arith
from_le-to_le (suc n) v h = omega (arith, from_le-to_le n (v / 256) (grind (arith, pow_step n)))

pub from_be-to_be : (n v : ℕ) → v < 256 ^ n → from_be (to_be n v) ≡ v
unfolding from_be to_be
from_be-to_be n v h = rw reverse-reverse (from_le-to_le n v h)

pub length-reverse : (xs : List ℕ) → length (reverse xs) ≡ length xs
length-reverse [] = refl
length-reverse (x ∷ xs) =
    rw (reverse-append (x ∷ []) xs)
      (omega (arith, length-append (reverse xs) (x ∷ []), length-reverse xs))

pub length-to_be : (n v : ℕ) → length (to_be n v) ≡ n
unfolding to_be
length-to_be n v = length-reverse (to_le n v) ∙ length-to_le n v

pub from_le-lt : (n : ℕ) (bs : List ℕ) → length bs ≡ n → IsBytes bs → from_le bs < 256 ^ n
unfolding from_le
from_le-lt zero [] e h = omega arith
from_le-lt zero (b ∷ bs) e h = absurd (omega arith)
from_le-lt (suc n) [] e h = absurd (omega arith)
from_le-lt (suc n) (b ∷ bs) e h = omega (arith, pow_step n, from_le-lt n bs (omega arith) h.1)

pub append-IsBytes : (xs ys : List ℕ) → IsBytes xs → IsBytes ys → IsBytes (xs ++ ys)
append-IsBytes [] ys h k = k
append-IsBytes (x ∷ xs) ys h k = (h.0, append-IsBytes xs ys h.1 k)

pub take-IsBytes : (n : ℕ) (xs : List ℕ) → IsBytes xs → IsBytes (take n xs)
take-IsBytes zero xs h = tt
take-IsBytes (suc n) [] h = tt
take-IsBytes (suc n) (x ∷ xs) h = (h.0, take-IsBytes n xs h.1)

pub drop-IsBytes : (n : ℕ) (xs : List ℕ) → IsBytes xs → IsBytes (drop n xs)
drop-IsBytes zero xs h = h
drop-IsBytes (suc n) [] h = tt
drop-IsBytes (suc n) (x ∷ xs) h = drop-IsBytes n xs h.1
