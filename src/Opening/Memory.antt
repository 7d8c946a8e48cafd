-- ===== src/Opening/Memory.antt =====
-- What opening a file keeps reserved.
use mdictlib.Prelude.{ℕ, ◌+◌, ◌≡◌, refl, sym, arith, Option}
use mathlib.Core.Path.{subst}
use mdictlib.Budget.{MemoryBudget}
use mdictlib.Budget.Laws.{IsSound}
use mdictlib.Budget.Memory.{
  Balanced, lift-Balanced, bind-Balanced, with_reserved-Balanced, Ensures, lift_then, any_then,
  ok-Ensures,
}
use mdictlib.Budget.Accounts.{
  Kept, Accounts, bind-Accounts, lift-Accounts, with_retained-Accounts, with_retained-Ensures,
}
use mdictlib.Source.{FileSource}
use mdictlib.RecordSection.{v1_wire, v2_wire}
use mdictlib.RecordSection.Parse.{parse_v1_record_section, parse_v2_record_section}
use mdictlib.RecordSection.Shape.{parse_record_section_at-Balanced}
use mdictlib.Compression.{Codecs}
use mdictlib.Encoding.{LegacyCodecs, TextEncoding}
use mdictlib.Header.Metadata.{ContainerKind, Header, HeaderSection}
use mdictlib.Header.Section.{parse_header, parse_header_bytes_with_limits}
use mdictlib.KeywordSection.{OpenOptions, KeywordSection}
use mdictlib.KeywordSection.Shape.{
  parse_v1_keyword_section-Balanced, parse_v2_keyword_section-Balanced,
}
use mdictlib.Versions.{WireVersion, v1, v2}
use mdictlib.Opening.{
  held_by_layout, layout_of, parse_keyword_section, parse_record_section, layout_with_keys,
  layout_with_header, parse_layout, parsed_layout, open_layout,
}
use mdictlib.Opening.Checked.{open_layout-IsOpened}

module _ (codecs : Codecs) (legacy : LegacyCodecs) (source : FileSource) (kind : ContainerKind)
    (options : OpenOptions) where
  parse_header-Balanced :
      Balanced (parse_header legacy kind options.limits options.checksum_policy source)
  unfolding parse_header parse_header_bytes_with_limits
  parse_header-Balanced = search (with_reserved-Balanced, bind-Balanced, lift-Balanced) depth 60

  keys-Balanced :
      (version : WireVersion) (header : Header) (encoding : TextEncoding) (offset : ℕ)
      → Balanced
          (parse_keyword_section codecs legacy source kind options version header encoding offset)
  unfolding parse_keyword_section
  keys-Balanced v1 header encoding offset =
      parse_v1_keyword_section-Balanced codecs legacy source header encoding offset options
  keys-Balanced v2 header encoding offset =
      parse_v2_keyword_section-Balanced codecs legacy source header encoding offset options

  records-Balanced :
      (version : WireVersion) (offset : ℕ)
      → Balanced (parse_record_section codecs legacy source kind options version offset)
  unfolding parse_record_section parse_v1_record_section parse_v2_record_section
  records-Balanced v1 offset = parse_record_section_at-Balanced v1_wire source offset options.limits
  records-Balanced v2 offset = parse_record_section_at-Balanced v2_wire source offset options.limits

  module _ (version : WireVersion) (hs : HeaderSection) where
    -- The reservations that a layout names are those that were made for it.
    module _ (key_encoding : TextEncoding) (record_encoding : Option TextEncoding)
        (keys : KeywordSection) where
      keys_named :
          Ensures
            (layout_with_keys codecs legacy source kind options version hs key_encoding
              record_encoding keys)
            (λ l. l.retained.key_metadata ≡ keys.retained_bytes)
      unfolding layout_with_keys layout_of
      keys_named =
          any_then _ _ _
            λ records. with_retained-Ensures _ _ _ (lift_then _ _ _ λ _ _. ok-Ensures _ _ refl)

      header_named :
          Ensures
            (layout_with_keys codecs legacy source kind options version hs key_encoding
              record_encoding keys)
            (λ l. l.retained.header ≡ hs.retained_bytes)
      unfolding layout_with_keys layout_of
      header_named =
          any_then _ _ _
            λ records. with_retained-Ensures _ _ _ (lift_then _ _ _ λ _ _. ok-Ensures _ _ refl)

      layout_with_keys-Accounts :
          Accounts
            (layout_with_keys codecs legacy source kind options version hs key_encoding
              record_encoding keys)
            (λ l. l.retained.record_metadata)
      unfolding layout_with_keys layout_of
      layout_with_keys-Accounts =
          bind-Accounts _ _ _ (records-Balanced version keys.record_section_offset) λ records.
            with_retained-Accounts records.retained_bytes _
              (λ l. l.retained.record_metadata ≡ records.retained_bytes) _ (λ l. 0)
              (lift_then _ _ _ λ _ _. ok-Ensures _ _ refl) (λ l same. omega (arith, same))
              (bind-Accounts _ _ _ (lift-Balanced _) λ _. lift-Accounts _ _ (λ l. refl))

    layout_with_header-Accounts :
        Accounts
          (layout_with_header codecs legacy source kind options version hs)
          (λ l. l.retained.key_metadata + l.retained.record_metadata)
    unfolding layout_with_header
    layout_with_header-Accounts = bind-Accounts _ _ _ (lift-Balanced _) λ key_encoding.
        bind-Accounts _ _ _ (lift-Balanced _) λ record_encoding.
          bind-Accounts _ _ _
            (keys-Balanced version hs.header key_encoding hs.keyword_section_offset)
            λ keys.
              with_retained-Accounts keys.retained_bytes _
                (λ l. l.retained.key_metadata ≡ keys.retained_bytes) _
                (λ l. l.retained.record_metadata) (keys_named key_encoding record_encoding keys)
                (λ l same. omega (arith, same))
                (layout_with_keys-Accounts key_encoding record_encoding keys)

    parse_layout-Accounts :
        Accounts (parse_layout codecs legacy source kind options version hs) held_by_layout
    unfolding parse_layout layout_with_header
    parse_layout-Accounts =
        with_retained-Accounts hs.retained_bytes _ (λ l. l.retained.header ≡ hs.retained_bytes) _
          (λ l. l.retained.key_metadata + l.retained.record_metadata)
          (lift_then _ _ _ λ key_encoding _. lift_then _ _ _ λ record_encoding _.
            any_then _ _ _
              λ keys. with_retained-Ensures _ _ _ (header_named key_encoding record_encoding keys))
          (λ l same. omega (arith, same)) layout_with_header-Accounts

  parsed_layout-Accounts : Accounts (parsed_layout codecs legacy source kind options) held_by_layout
  unfolding parsed_layout
  parsed_layout-Accounts =
      bind-Accounts _ _ _ parse_header-Balanced
        λ hs. bind-Accounts _ _ _ (lift-Balanced _) λ version. parse_layout-Accounts version hs

-- Opening a file with a sound budget leaves it sound: a layout that is returned keeps exactly the three
-- reservations that it names, beside what was live before, and a failure keeps nothing.
pub open_layout-Kept :
    (codecs : Codecs) (legacy : LegacyCodecs) (source : FileSource) (kind : ContainerKind)
    (options : OpenOptions) (b : MemoryBudget) (live : ℕ)
    → IsSound b live
    → Kept held_by_layout live (open_layout codecs legacy source kind options b)
unfolding Accounts
open_layout-Kept codecs legacy source kind options b live s =
    subst (Kept held_by_layout live)
      (sym (open_layout-IsOpened codecs legacy source kind options b).0)
      (parsed_layout-Accounts codecs legacy source kind options b live s)
