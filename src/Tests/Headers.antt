-- ===== src/Tests/Headers.antt =====
-- The header's tag and its attributes at concrete values.
use mdictlib.Prelude.{true, some, [], ◌∷◌, ◌≡◌, refl, arith}
use mdictlib.Error.{ok}
use mdictlib.Texts.{codes, is_ascii_whitespace}
use mdictlib.Header.{Attributes, parse_single_tag, has_name, ends_name, ends_tag_name}
use mdictlib.Header.Tag.{print_tag, Readable, IsTagName, parse_single_tag-print_tag}
use mdictlib.Header.Aliases.{known_attribute, find_alias, agree}
use mdictlib.CaseVariants.{equal_texts, eq_ignore_ascii_case}
use mdictlib.Header.Aliases.Agreement.{Known, known_attribute-Known}

abbrev attributes : Attributes
attributes =
    (codes "Title", codes "A & B")
    ∷ (codes "Encoding", codes "UTF-8")
    ∷ (codes "encoding", codes "UTF-8")
    ∷ []

attributes-Readable : Readable 4 [] attributes
unfolding has_name ends_name is_ascii_whitespace equal_texts
attributes-Readable = (
  (refl, (refl, (refl, (refl, (refl, (refl, tt)))))),
  omega arith,
  refl,
  (
    (refl, (refl, (refl, (refl, (refl, (refl, (refl, (refl, (refl, tt))))))))),
    omega arith,
    refl,
    (
      (refl, (refl, (refl, (refl, (refl, (refl, (refl, (refl, (refl, tt))))))))),
      omega arith,
      refl,
      tt,
    ),
  ),
)

dictionary-IsTagName : IsTagName (codes "Dictionary")
unfolding ends_tag_name is_ascii_whitespace
dictionary-IsTagName =
    (refl, (refl, (refl, (refl, (refl, (refl, (refl, (refl, (refl, (refl, tt))))))))))

parse_single_tag_example :
    parse_single_tag 4 (print_tag true (codes "Dictionary") attributes)
    ≡ ok (codes "Dictionary", attributes)
parse_single_tag_example =
    parse_single_tag-print_tag 4 true (codes "Dictionary") attributes dictionary-IsTagName
      attributes-Readable

known_attribute_example : Known "Encoding" attributes (known_attribute attributes "Encoding")
known_attribute_example = known_attribute-Known attributes "Encoding"

encoding_found : known_attribute attributes "Encoding" ≡ ok (some (codes "UTF-8"))
unfolding known_attribute find_alias eq_ignore_ascii_case agree equal_texts
encoding_found = refl
