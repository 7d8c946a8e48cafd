-- ===== src/Header/Escape.antt =====
-- Texts that are escaped for an attribute are read back by `unescape_xml`.
use mdictlib.Prelude.{
  ℕ, zero, suc, ◌≤◌, Bool, true, false, [], ◌∷◌, ◌++◌, ◌==◌, if◌then◌else◌, length, length-append,
  Bool-cases, ◌≡◌, refl, sym, ap, inl, inr, arith, ==_iff,
}
use mdictlib.Error.{ok}
use mdictlib.Descriptors.{Text}
use mdictlib.Texts.{codes, split_where}
use mdictlib.Header.{entity_char, split_entity, unescape_loop, unescape_xml}

-- No character meets the test.
abbrev pub NoneOf : (ℕ → Bool) → Text → Type 0
NoneOf test [] = Unit {0}
NoneOf test (c ∷ cs) = (test c ≡ false) × NoneOf test cs

pub split-NoneOf :
    (test : ℕ → Bool) (xs : Text) (c : ℕ) (rest : Text)
    → NoneOf test xs
    → test c ≡ true
    → split_where test (xs ++ c ∷ rest) ≡ (xs, c ∷ rest)
unfolding split_where
split-NoneOf test [] c rest h e = rw e refl
split-NoneOf test (x ∷ xs) c rest h e = rw (h.0, split-NoneOf test xs c rest h.1 e) refl

abbrev pub escape_char : ℕ → Text
escape_char c =
    if c == 38
    then codes "&amp;"
    else if c == 60
    then codes "&lt;"
    else if c == 62
    then codes "&gt;"
    else if c == 34
    then codes "&quot;"
    else if c == 39
    then codes "&apos;"
    else c ∷ []

abbrev pub escape_text : Text → Text
escape_text [] = []
escape_text (c ∷ cs) = escape_char c ++ escape_text cs

length-escape_char : (c : ℕ) → 1 ≤ length (escape_char c)
length-escape_char c = ground arith

room : (fuel c : ℕ) (rest : Text) → length (escape_char c ++ rest) ≤ suc fuel → length rest ≤ fuel
room fuel c rest p = omega (arith, length-append (escape_char c) rest, length-escape_char c)

-- One character in front of what is unescaped already.
unescape_char :
    (fuel c : ℕ) (cs rest : Text)
    → ((m : ℕ) → length rest ≤ m → unescape_loop m rest ≡ ok cs)
    → length (escape_char c ++ rest) ≤ fuel
    → unescape_loop fuel (escape_char c ++ rest) ≡ ok (c ∷ cs)
unfolding unescape_loop split_where split_entity entity_char
unescape_char zero c cs rest h p =
    absurd (omega (arith, length-append (escape_char c) rest, length-escape_char c))
unescape_char (suc fuel) c cs rest h p = elim (Bool-cases (c == 38)) [
  | inl e ↦
      rw (e, h fuel (room fuel c rest p)) (ap (λ (t : ℕ). ok (t ∷ cs)) (sym ((==_iff c 38).0 e)))
  | inr e38 ↦ elim (Bool-cases (c == 60)) [
    | inl e ↦
        rw (e38, e, h fuel (room fuel c rest p))
          (ap (λ (t : ℕ). ok (t ∷ cs)) (sym ((==_iff c 60).0 e)))
    | inr e60 ↦ elim (Bool-cases (c == 62)) [
      | inl e ↦
          rw (e38, e60, e, h fuel (room fuel c rest p))
            (ap (λ (t : ℕ). ok (t ∷ cs)) (sym ((==_iff c 62).0 e)))
      | inr e62 ↦ elim (Bool-cases (c == 34)) [
        | inl e ↦
            rw (e38, e60, e62, e, h fuel (room fuel c rest p))
              (ap (λ (t : ℕ). ok (t ∷ cs)) (sym ((==_iff c 34).0 e)))
        | inr e34 ↦ elim (Bool-cases (c == 39)) [
          | inl e ↦
              rw (e38, e60, e62, e34, e, h fuel (room fuel c rest p))
                (ap (λ (t : ℕ). ok (t ∷ cs)) (sym ((==_iff c 39).0 e)))
          | inr e39 ↦ rw (e38, e60, e62, e34, e39, e38, h fuel (room fuel c rest p)) refl
        ]
      ]
    ]
  ]
]

unescape_loop-escape_text :
    (fuel : ℕ) (v : Text)
    → length (escape_text v) ≤ fuel
    → unescape_loop fuel (escape_text v) ≡ ok v
unescape_loop-escape_text zero [] p = unfold unescape_loop in refl
unescape_loop-escape_text (suc fuel) [] p = unfold unescape_loop in refl
unescape_loop-escape_text fuel (c ∷ cs) p =
    unescape_char fuel c cs (escape_text cs) (λ m q. unescape_loop-escape_text m cs q) p

pub unescape_xml-escape_text : (v : Text) → unescape_xml (escape_text v) ≡ ok v
unfolding unescape_xml
unescape_xml-escape_text v = unescape_loop-escape_text (length (escape_text v)) v (omega arith)

pub append-NoneOf :
    (test : ℕ → Bool) (xs ys : Text) → NoneOf test xs → NoneOf test ys → NoneOf test (xs ++ ys)
append-NoneOf test [] ys h k = k
append-NoneOf test (x ∷ xs) ys h k = (h.0, append-NoneOf test xs ys h.1 k)

abbrev pub is_quote : ℕ → Bool
is_quote c = c == 34

escape_char-NoneOf : (c : ℕ) → NoneOf is_quote (escape_char c)
escape_char-NoneOf c = ground arith

pub escape_text-NoneOf : (v : Text) → NoneOf is_quote (escape_text v)
escape_text-NoneOf [] = tt
escape_text-NoneOf (c ∷ cs) =
    append-NoneOf is_quote (escape_char c) (escape_text cs) (escape_char-NoneOf c)
      (escape_text-NoneOf cs)
