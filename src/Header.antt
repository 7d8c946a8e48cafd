-- ===== src/Header.antt =====
-- format/common/header.rs: the XML tag of the header and its attributes.
pub mod Escape
pub mod Tag
pub mod Aliases
pub mod Metadata
pub mod Section
use mdictlib.Prelude.{
  ℕ, zero, suc, ◌+◌, Bool, true, false, ◌&&◌, ◌||◌, not, Option, none, some, List, [], ◌∷◌, ◌++◌,
  ltb, leb, ◌==◌, if◌then◌else◌, length, drop,
}
use mdictlib.Error.{
  Error, Result, ok, err, ◌>>=◌, ◌>>◌, ok_or, fail_if, invalid_format, invalid_data, limit_exceeded,
}
use mdictlib.Descriptors.{Text}
use mdictlib.CaseVariants.{equal_texts}
use mdictlib.Texts.{codes, is_ascii_whitespace, split_where, skip_while, starts_with, parse_radix}

abbrev pub Attributes : Type 0
Attributes = List (Text × Text)

-- `char::from_u32`
unfoldable pub char_from : ℕ → Option ℕ
char_from c = if ltb c 55296 || (leb 57344 c && ltb c 1114112) then some c else none

-- The `match entity` of `unescape_xml`.
unfoldable pub entity_char : Text → Result ℕ
unfolding equal_texts starts_with parse_radix char_from
entity_char entity =
    if equal_texts entity (codes "amp")
    then ok 38
    else if equal_texts entity (codes "lt")
    then ok 60
    else if equal_texts entity (codes "gt")
    then ok 62
    else if equal_texts entity (codes "quot")
    then ok 34
    else if equal_texts entity (codes "apos")
    then ok 39
    else if starts_with (codes "#x") entity || starts_with (codes "#X") entity
    then (do
      codepoint ←
          ok_or (parse_radix 16 4294967295 (drop 2 entity))
            (invalid_format "invalid hex xml entity")
      ok_or (char_from codepoint) (invalid_format "invalid hex xml codepoint"))
    else if starts_with (codes "#") entity
    then (do
      codepoint ←
          ok_or (parse_radix 10 4294967295 (drop 1 entity))
            (invalid_format "invalid decimal xml entity")
      ok_or (char_from codepoint) (invalid_format "invalid decimal xml codepoint"))
    else err (invalid_format "unsupported xml entity")

-- `after_ampersand.find(';')`
unfoldable pub split_entity : Text × Text → Result (Text × Text)
split_entity (entity, []) = err (invalid_format "unterminated XML entity")
split_entity (entity, semicolon ∷ rest) = ok (entity, rest)

-- The loop of `unescape_xml`, character by character; a round takes one at least.
unfoldable pub unescape_loop : ℕ → Text → Result Text
unescape_loop fuel [] = ok []
unescape_loop zero (c ∷ cs) = ok []
unescape_loop (suc fuel) (c ∷ cs) =
    let plain = unescape_loop fuel cs >>= (λ rest. ok (c ∷ rest)) in
    let escaped = (do
      (entity, after) ← split_entity (split_where (λ b. b == 59) cs)
      ch ← entity_char entity
      rest ← unescape_loop fuel after
      ok (ch ∷ rest)) in
    if c == 38 then escaped else plain

unfoldable pub unescape_xml : Text → Result Text
unescape_xml value = unescape_loop (length value) value

-- The end of a tag name, and that of an attribute's name.
unfoldable pub ends_tag_name : ℕ → Bool
ends_tag_name c = is_ascii_whitespace c || (c == 47 || c == 62)

unfoldable pub ends_name : ℕ → Bool
ends_name c = is_ascii_whitespace c || (c == 61 || c == 62)

unfoldable pub ends_closing_name : ℕ → Bool
ends_closing_name c = is_ascii_whitespace c || c == 62

abbrev pub skip_space : Text → Text
skip_space t = skip_while is_ascii_whitespace t

-- `bytes.get(index) == Some(&b)` with `index += 1`.
unfoldable pub expect_char : ℕ → Error → Text → Result Text
expect_char b error [] = err error
expect_char b error (c ∷ cs) = if c == b then ok cs else err error

-- The quote, and the text behind it.
unfoldable pub open_quote : Text → Result (ℕ × Text)
open_quote [] = err (invalid_format "expected quoted header xml attribute")
open_quote (c ∷ cs) =
    if c == 34 || c == 39
    then ok (c, cs)
    else err (invalid_format "expected quoted header xml attribute")

-- The value up to the closing quote, and the text behind that.
unfoldable pub close_quote : Text × Text → Result (Text × Text)
close_quote (value, []) = err (invalid_format "unterminated header xml attribute value")
close_quote (value, quote ∷ rest) = ok (value, rest)

unfoldable pub has_name : Text → Attributes → Bool
has_name name [] = false
has_name name ((candidate, value) ∷ attrs) = equal_texts candidate name || has_name name attrs

-- One attribute of the loop of `parse_single_tag`, in front of `rest`.
unfoldable pub read_attribute : ℕ → Attributes → Text → Result ((Text × Text) × Text)
read_attribute header_attributes attrs rest = do
  fail_if (leb header_attributes (length attrs))
      (limit_exceeded "header_attributes" (length attrs + 1) header_attributes)
  let named = split_where ends_name rest
  fail_if (length named.0 == 0) (invalid_format "empty header XML attribute name")
  fail_if (has_name named.0 attrs) (invalid_data "duplicate exact header XML attribute" [])
  behind_equals ←
      expect_char 61 (invalid_format "expected '=' in header xml attribute") (skip_space named.1)
  (quote, quoted) ← open_quote (skip_space behind_equals)
  (raw, behind) ← close_quote (split_where (λ c. c == quote) quoted)
  value ← unescape_xml raw
  ok ((named.0, value), behind)

-- What the loop of `parse_single_tag` ends with.
pub record OpenTag : Type 0 where
  pub attributes : Attributes
  pub self_closing : Bool
  pub rest : Text

unfoldable pub close_self : Attributes → Text → Result OpenTag
close_self attrs rest = do
  behind ← expect_char 62 (invalid_format "invalid self-closing header tag") rest
  ok (record { attributes = attrs; self_closing = true; rest = behind })

-- The loop of `parse_single_tag`. Each round takes a character at least.
unfoldable pub read_attributes : ℕ → ℕ → Attributes → Text → Result OpenTag
read_attributes zero header_attributes attrs rest =
    err (invalid_format "unterminated header xml tag")
read_attributes (suc fuel) header_attributes attrs rest = elim (skip_space rest) [
  | [] ↦ err (invalid_format "unterminated header xml tag")
  | c ∷ cs ↦
      let more =
        read_attribute header_attributes attrs (c ∷ cs)
        >>= (λ p. read_attributes fuel header_attributes (attrs ++ p.0 ∷ []) p.1) in
      if c == 47
      then close_self attrs cs
      else if c == 62
      then ok (record { attributes = attrs; self_closing = false; rest = cs })
      else more
]

-- The closing tag.
unfoldable pub check_element : Text → Text → Result (Unit {0})
check_element tag_name rest = do
  fail_if (not (starts_with (codes "</") rest))
      (invalid_format "content inside top-level header element is not supported")
  let named = split_where ends_closing_name (drop 2 rest)
  fail_if (not (equal_texts named.0 tag_name))
      (invalid_format "mismatched top-level header closing tag")
  behind ←
      expect_char 62 (invalid_format "malformed top-level header closing tag") (skip_space named.1)
  fail_if (not (length (skip_space behind) == 0))
      (invalid_format "trailing content after top-level header element")

-- The part of `parse_single_tag` behind the opening tag.
unfoldable pub check_closing : Text → Bool → Text → Result (Unit {0})
check_closing tag_name self_closing rest =
    if not (length rest == 0) && self_closing
    then err (invalid_format "trailing content after top-level header tag")
    else if length rest == 0
    then ok tt
    else check_element tag_name rest

unfoldable pub parse_single_tag : ℕ → Text → Result (Text × Attributes)
parse_single_tag header_attributes xml = do
  opened ← expect_char 60 (invalid_format "header xml must start with '<'") xml
  let named = split_where ends_tag_name opened
  fail_if (length named.0 == 0) (invalid_format "empty top-level header tag")
  tag ← read_attributes (suc (length named.1)) header_attributes [] named.1
  check_closing named.0 tag.self_closing (skip_space tag.rest)
  ok (named.0, tag.attributes)
