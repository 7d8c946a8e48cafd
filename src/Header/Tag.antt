-- ===== src/Header/Tag.antt =====
-- A tag that was written with escaped attribute values is read back.
use mdictlib.Header.Escape.{
  NoneOf, split-NoneOf, is_quote, escape_text, escape_text-NoneOf, unescape_xml-escape_text,
}
use mdictlib.Prelude.{
  ℕ, zero, suc, ◌≤◌, ◌<◌, Bool, true, false, [], ◌∷◌, ◌++◌, ◌==◌, leb, length, length-append, ◌≡◌,
  refl, sym, ap, ◌∙◌, arith, append-nil,
}
use mdictlib.Error.{ok}
use mdictlib.Descriptors.{Text}
use mdictlib.CaseVariants.{equal_texts}
use mdictlib.Texts.{is_ascii_whitespace, split_where, skip_while, starts_with}
use mdictlib.Header.{
  Attributes, ends_tag_name, ends_name, ends_closing_name, expect_char, open_quote, close_quote,
  has_name, read_attribute, close_self, read_attributes, check_closing, parse_single_tag,
  skip_space, check_element,
}

-- A name of an attribute, which a tag's end is not taken for.
abbrev pub IsName : Text → Type 0
IsName [] = ⊥
IsName (c ∷ cs) = ((c == 47) ≡ false) × NoneOf ends_name (c ∷ cs)

abbrev pub IsTagName : Text → Type 0
IsTagName [] = ⊥
IsTagName (c ∷ cs) = NoneOf ends_tag_name (c ∷ cs)

-- The attributes in front of the end of their tag.
abbrev pub print_attributes : Attributes → Text → Text
print_attributes [] end = end
print_attributes ((name, value) ∷ attrs) end =
    32 ∷ (name ++ 61 ∷ (34 ∷ (escape_text value ++ 34 ∷ print_attributes attrs end)))

-- The names are valid and differ, and there is room for them behind those that were read.
abbrev pub Readable : ℕ → Attributes → Attributes → Type 0
Readable limit attrs [] = Unit {0}
Readable limit attrs ((name, value) ∷ rest) =
    IsName name
    × (length attrs < limit)
    × (has_name name attrs ≡ false)
    × Readable limit (attrs ++ (name, value) ∷ []) rest

name-space : (c : ℕ) → ends_name c ≡ false → (is_ascii_whitespace c ≡ false) × ((c == 62) ≡ false)
unfolding ends_name
name-space c h = ground arith

below_limit : (m n : ℕ) → m < n → leb n m ≡ false
below_limit m n p = ground arith

nonempty : (n : ℕ) → (suc n == 0) ≡ false
nonempty n = ground arith

read_attribute-ok :
    (limit : ℕ) (attrs : Attributes) (name value end : Text)
    → IsName name
    → length attrs < limit
    → has_name name attrs ≡ false
    → read_attribute limit attrs (name ++ 61 ∷ (34 ∷ (escape_text value ++ 34 ∷ end)))
      ≡ ok ((name, value), end)
unfolding read_attribute expect_char open_quote close_quote skip_while is_ascii_whitespace
read_attribute-ok limit attrs [] value end n p q = absurd n
read_attribute-ok limit attrs (c ∷ cs) value end n p q =
    rw
      (
        below_limit (length attrs) limit p,
        split-NoneOf ends_name (c ∷ cs) 61 (34 ∷ (escape_text value ++ 34 ∷ end)) n.1
            (unfold ends_name is_ascii_whitespace in refl),
        q,
        nonempty (length cs),
        split-NoneOf is_quote (escape_text value) 34 end (escape_text-NoneOf value) refl,
        unescape_xml-escape_text value,
      )
      refl

-- What the loop returns at the end of a tag that was written: `/` or `>`, and the text behind.
abbrev pub tag_end : Bool → Text → Text
tag_end true rest = 47 ∷ 62 ∷ rest
tag_end false rest = 62 ∷ rest

read_attributes-end :
    (fuel limit : ℕ) (attrs : Attributes) (self : Bool) (rest : Text)
    → read_attributes (suc fuel) limit attrs (tag_end self rest)
      ≡ ok (record { attributes = attrs; self_closing = self; rest = rest })
unfolding read_attributes skip_while is_ascii_whitespace close_self expect_char
read_attributes-end fuel limit attrs true rest = refl
read_attributes-end fuel limit attrs false rest = refl

blank_space : is_ascii_whitespace 32 ≡ true
unfolding is_ascii_whitespace
blank_space = refl

skip-space : (c : ℕ) (cs : Text) → is_ascii_whitespace c ≡ false → skip_space (32 ∷ c ∷ cs) ≡ c ∷ cs
unfolding skip_while
skip-space c cs e = rw (blank_space, e) refl

read_attributes-step :
    (fuel limit : ℕ) (attrs : Attributes) (name value end : Text)
    → IsName name
    → length attrs < limit
    → has_name name attrs ≡ false
    → read_attributes
        (suc fuel)
        limit
        attrs
        (32 ∷ (name ++ 61 ∷ (34 ∷ (escape_text value ++ 34 ∷ end))))
      ≡ read_attributes fuel limit (attrs ++ (name, value) ∷ []) end
unfolding read_attributes
read_attributes-step fuel limit attrs [] value end n p q = absurd n
read_attributes-step fuel limit attrs (c ∷ cs) value end n p q =
    rw
      (
        read_attributes,
        skip-space c (cs ++ 61 ∷ (34 ∷ (escape_text value ++ 34 ∷ end))) (name-space c n.1.0).0,
        n.0,
        (name-space c n.1.0).1,
        read_attribute-ok limit attrs (c ∷ cs) value end n p q,
      )
      refl

append-cons : (xs ys : Attributes) (a : Text × Text) → xs ++ (a ∷ ys) ≡ (xs ++ a ∷ []) ++ ys
append-cons [] ys a = refl
append-cons (x ∷ xs) ys a = ap (λ t. x ∷ t) (append-cons xs ys a)

read_attributes-print :
    (fuel limit : ℕ) (attrs more : Attributes) (self : Bool) (rest : Text)
    → length more < fuel
    → Readable limit attrs more
    → read_attributes fuel limit attrs (print_attributes more (tag_end self rest))
      ≡ ok (record { attributes = attrs ++ more; self_closing = self; rest = rest })
read_attributes-print zero limit attrs more self rest p r = absurd (omega arith)
read_attributes-print (suc fuel) limit attrs [] self rest p r =
    rw append-nil (read_attributes-end fuel limit attrs self rest)
read_attributes-print (suc fuel) limit attrs ((name, value) ∷ more) self rest p r =
    read_attributes-step fuel limit attrs name value (print_attributes more (tag_end self rest)) r.0
      r.1 r.2
    ∙ read_attributes-print fuel limit (attrs ++ (name, value) ∷ []) more self rest (omega arith)
        r.3
    ∙ ap (λ t. ok (record { attributes = t; self_closing = self; rest = rest }))
        (sym (append-cons attrs more (name, value)))

-- The tag in its two forms: closed by itself, or by an empty element's end.
abbrev pub print_tag : Bool → Text → Attributes → Text
print_tag true name attrs = 60 ∷ (name ++ print_attributes attrs (tag_end true []))
print_tag false name attrs =
    60 ∷ (name ++ print_attributes attrs (tag_end false (60 ∷ 47 ∷ (name ++ 62 ∷ []))))

split_name :
    (name : Text) (attrs : Attributes) (self : Bool) (rest : Text)
    → NoneOf ends_tag_name name
    → split_where ends_tag_name (name ++ print_attributes attrs (tag_end self rest))
      ≡ (name, print_attributes attrs (tag_end self rest))
unfolding ends_tag_name is_ascii_whitespace
split_name name [] true rest n = split-NoneOf ends_tag_name name 47 (62 ∷ rest) n refl
split_name name [] false rest n = split-NoneOf ends_tag_name name 62 rest n refl
split_name name ((key, value) ∷ attrs) self rest n = split-NoneOf ends_tag_name name 32 _ n refl

length-print :
    (attrs : Attributes) (end : Text) → length attrs ≤ length (print_attributes attrs end)
length-print [] end = omega arith
length-print ((name, value) ∷ attrs) end = omega (
  arith,
  length-append name (61 ∷ (34 ∷ (escape_text value ++ 34 ∷ print_attributes attrs end))),
  length-append (escape_text value) (34 ∷ print_attributes attrs end),
  length-print attrs end,
)

equal_self : (t : Text) → equal_texts t t ≡ true
unfolding equal_texts
equal_self [] = refl
equal_self (c ∷ cs) = ground (arith, equal_self cs)

closing_name : (name : Text) → NoneOf ends_tag_name name → NoneOf ends_closing_name name
closing_name [] n = tt
closing_name (c ∷ cs) n =
    (unfold ends_tag_name ends_closing_name in ground (arith, n.0), closing_name cs n.1)

check_element-ok :
    (name : Text)
    → NoneOf ends_tag_name name
    → check_element name (60 ∷ 47 ∷ (name ++ 62 ∷ [])) ≡ ok tt
unfolding check_element starts_with expect_char skip_while is_ascii_whitespace
check_element-ok name n =
    rw
      (
        split-NoneOf ends_closing_name name 62 [] (closing_name name n)
            (unfold ends_closing_name is_ascii_whitespace in refl),
        equal_self name,
      )
      refl

-- A tag that was written in either form is parsed to its name and its attributes, with the values
-- unescaped: the names are valid and differ, and there are no more than the limit.
pub parse_single_tag-print_tag :
    (limit : ℕ) (self : Bool) (name : Text) (attrs : Attributes)
    → IsTagName name
    → Readable limit [] attrs
    → parse_single_tag limit (print_tag self name attrs) ≡ ok (name, attrs)
unfolding parse_single_tag expect_char check_closing skip_while is_ascii_whitespace
parse_single_tag-print_tag limit self [] attrs n r = absurd n
parse_single_tag-print_tag limit true (c ∷ cs) attrs n r =
    rw
      (
        split_name (c ∷ cs) attrs true [] n,
        nonempty (length cs),
        read_attributes-print (suc (length (print_attributes attrs (tag_end true [])))) limit []
            attrs true [] (omega (arith, length-print attrs (tag_end true []))) r,
      )
      refl
parse_single_tag-print_tag limit false (c ∷ cs) attrs n r =
    rw
      (
        split_name (c ∷ cs) attrs false (60 ∷ 47 ∷ ((c ∷ cs) ++ 62 ∷ [])) n,
        nonempty (length cs),
        read_attributes-print
            (suc
              (length (print_attributes attrs (tag_end false (60 ∷ 47 ∷ ((c ∷ cs) ++ 62 ∷ []))))))
            limit [] attrs false (60 ∷ 47 ∷ ((c ∷ cs) ++ 62 ∷ []))
            (omega (arith, length-print attrs (tag_end false (60 ∷ 47 ∷ ((c ∷ cs) ++ 62 ∷ []))))) r,
      )
      (rw (nonempty (suc (suc (length (cs ++ 62 ∷ [])))), check_element-ok (c ∷ cs) n) refl)
