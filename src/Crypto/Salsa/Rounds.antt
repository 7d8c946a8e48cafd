-- ===== src/Crypto/Salsa/Rounds.antt =====
-- The rounds of the code, in place on a list of 16 words, are those of the specification.
use mdictlib.Prelude.{
  ℕ, zero, suc, sym, ◌+◌, ◌*◌, ◌^◌, List, [], ◌∷◌, ◌≡◌, refl, ap, ◌∙◌, arith, length, get_or, sym,
}
use mdictlib.Bytes.{from_le}
use mdictlib.Crypto.{
  quarter_round, mix_word, column_round, row_round, double_round, initial_state, words_of,
  add_words, bytes_of, salsa20_8_block,
}
use mdictlib.Crypto.Salsa.{
  Square, quarterround, rowround, columnround, doubleround, core, expand, square_words, square_sum,
}

row_round-square_words : (s : Square) → row_round (square_words s) ≡ square_words (rowround s)
unfolding row_round quarter_round mix_word rowround quarterround
row_round-square_words s = refl

column_round-square_words :
    (s : Square) → column_round (square_words s) ≡ square_words (columnround s)
unfolding column_round quarter_round mix_word columnround rowround quarterround
column_round-square_words s = refl

double_round-square_words :
    (s : Square) → double_round (square_words s) ≡ square_words (doubleround s)
unfolding double_round doubleround
double_round-square_words s =
    ap row_round (column_round-square_words s) ∙ row_round-square_words (columnround s)

add_words-square_words :
    (z s : Square) → add_words (square_words z) (square_words s) ≡ square_words (square_sum z s)
unfolding add_words
add_words-square_words z s = refl

little_endian :
    (a b c d : ℕ) → from_le (a ∷ b ∷ c ∷ d ∷ []) ≡ a + 2 ^ 8 * b + 2 ^ 16 * c + 2 ^ 24 * d
unfolding from_le
little_endian a b c d = omega arith

unfoldable tabulate : ℕ → (ℕ → ℕ) → List ℕ
tabulate zero g = []
tabulate (suc n) g = g 0 ∷ tabulate n (λ i. g (suc i))

tabulate-get_or : (xs : List ℕ) → tabulate (length xs) (λ i. get_or xs i 0) ≡ xs
unfolding tabulate
tabulate-get_or [] = refl
tabulate-get_or (x ∷ xs) = ap (λ t. x ∷ t) (tabulate-get_or xs)

-- A key of 16 bytes.
key_bytes : (key : List ℕ) → length key ≡ 16 → key ≡ tabulate 16 (λ i. get_or key i 0)
key_bytes key e = sym (tabulate-get_or key) ∙ ap (λ n. tabulate n (λ i. get_or key i 0)) e

initial_state-tabulate :
    (g : ℕ → ℕ) (block : ℕ)
    → initial_state (tabulate 16 g) block ≡ square_words (expand (tabulate 16 g) block)
unfolding tabulate initial_state words_of expand
initial_state-tabulate g block =
    rw
      (
        little_endian (g 0) (g 1) (g 2) (g 3),
        little_endian (g 4) (g 5) (g 6) (g 7),
        little_endian (g 8) (g 9) (g 10) (g 11),
        little_endian (g 12) (g 13) (g 14) (g 15),
      )
      refl

initial_state-expand :
    (key : List ℕ) (block : ℕ)
    → length key ≡ 16
    → initial_state key block ≡ square_words (expand key block)
initial_state-expand key block e =
    let g : ℕ → ℕ = λ i. get_or key i 0 in
    let p = key_bytes key e in
    ap (λ t. initial_state t block) p
    ∙ initial_state-tabulate g block
    ∙ ap (λ t. square_words (expand t block)) (sym p)

-- The four double rounds and the sum.
core-square_words :
    (s : Square)
    → add_words
        (double_round (double_round (double_round (double_round (square_words s)))))
        (square_words s)
      ≡ square_words (core s)
unfolding core
core-square_words s =
    let d1 = doubleround s in
    let d2 = doubleround d1 in
    let d3 = doubleround d2 in
    rw
      (
        double_round-square_words s,
        double_round-square_words d1,
        double_round-square_words d2,
        double_round-square_words d3,
      )
      (add_words-square_words (doubleround d3) s)

pub salsa20_8_block-core :
    (key : List ℕ) (block : ℕ)
    → length key ≡ 16
    → salsa20_8_block key block ≡ bytes_of (square_words (core (expand key block)))
unfolding salsa20_8_block
salsa20_8_block-core key block e =
    rw (initial_state-expand key block e, core-square_words (expand key block)) refl
