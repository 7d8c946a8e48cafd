-- ===== src/Texts.antt =====
-- What the sources use of `str`: a text is the list of its characters.
use Prim.Native.Char.{code}
use Prim.Native.String.{String}
use mathlib.Core.List.{reverse}
use mdictlib.Prelude.{
  ℕ, ◌+◌, ◌-◌, ◌*◌, Bool, true, false, ◌&&◌, ◌||◌, Option, none, some, [], ◌∷◌, ltb, leb, ◌==◌,
  if◌then◌else◌,
}
use mdictlib.Descriptors.{Text}

-- The characters of a literal.
abbrev pub codes : String → Text
codes String.[] = []
codes (String.◌∷◌ c s) = code c ∷ codes s

-- `u8::is_ascii_whitespace`
unfoldable pub is_ascii_whitespace : ℕ → Bool
is_ascii_whitespace c = c == 32 || (c == 9 || (c == 10 || (c == 12 || c == 13)))

-- `char::is_whitespace`
unfoldable pub is_whitespace : ℕ → Bool
is_whitespace c =
    (leb 9 c && leb c 13)
    || (c == 32
        || (c == 133
            || (c == 160
                || (c == 5760
                    || ((leb 8192 c && leb c 8202)
                        || (c == 8232
                            || (c == 8233 || (c == 8239 || (c == 8287 || c == 12288)))))))))

unfoldable pub is_ascii_digit : ℕ → Bool
is_ascii_digit c = leb 48 c && leb c 57

-- The characters before the first that meets the test, and the text from there on.
unfoldable pub split_where : (ℕ → Bool) → Text → Text × Text
split_where test [] = ([], [])
split_where test (c ∷ cs) =
    let (before, rest) = split_where test cs in if test c then ([], c ∷ cs) else (c ∷ before, rest)

-- The text behind the characters that meet the test.
unfoldable pub skip_while : (ℕ → Bool) → Text → Text
skip_while test [] = []
skip_while test (c ∷ cs) = if test c then skip_while test cs else c ∷ cs

-- `trim_matches`
unfoldable pub trim_matches : (ℕ → Bool) → Text → Text
unfolding skip_while
trim_matches test t = reverse (skip_while test (reverse (skip_while test t)))

unfoldable pub trim : Text → Text
unfolding trim_matches is_whitespace
trim t = trim_matches is_whitespace t

-- `starts_with`
unfoldable pub starts_with : Text → Text → Bool
starts_with [] t = true
starts_with (p ∷ ps) [] = false
starts_with (p ∷ ps) (c ∷ cs) = p == c && starts_with ps cs

-- `all` of an iterator.
unfoldable pub all_of : (ℕ → Bool) → Text → Bool
all_of test [] = true
all_of test (c ∷ cs) = test c && all_of test cs

-- `char::to_digit`
unfoldable pub to_digit : ℕ → ℕ → Option ℕ
to_digit radix c =
    let value =
      if leb 48 c && leb c 57
      then c - 48
      else if leb 97 c && leb c 122
      then c - 87
      else if leb 65 c && leb c 90
      then c - 55
      else 99 in
    if ltb value radix then some value else none

-- The digits of `from_str_radix`, checked against the largest value of the type.
unfoldable pub digits_value : ℕ → ℕ → ℕ → Text → Option ℕ
unfolding to_digit
digits_value radix largest value [] = some value
digits_value radix largest value (c ∷ cs) = elim (to_digit radix c) [
  | none ↦ none
  | some digit ↦
      let next = value * radix + digit in
      let rest = digits_value radix largest next cs in if ltb largest next then none else rest
]

-- `from_str_radix` and `parse` of an unsigned type.
unfoldable pub parse_radix : ℕ → ℕ → Text → Option ℕ
unfolding digits_value
parse_radix radix largest [] = none
parse_radix radix largest (c ∷ []) = digits_value radix largest 0 (c ∷ [])
parse_radix radix largest (c ∷ d ∷ cs) =
    digits_value radix largest 0 (if c == 43 then d ∷ cs else c ∷ d ∷ cs)
