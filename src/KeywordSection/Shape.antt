-- ===== src/KeywordSection/Shape.antt =====
-- What a parsed keyword section looks like, and that its parsers return every byte they reserve.
use mdictlib.Prelude.{ℕ, ◌+◌, ◌≤◌, List, ◌≡◌, refl, sym, inl, inr, arith, String}
use mathlib.Core.Path.{subst}
use mdictlib.Error.{ok, ok_or, invalid_format, Result-cases, ok_then}
use mdictlib.Limits.Laws.{checked_add-ok}
use mdictlib.Source.Laws.{ensure_range-ok}
use mdictlib.Budget.Memory.{
  Balanced, lift-Balanced, bind-Balanced, with_reserved-Balanced, Ensures, with_reserved-Ensures,
  lift-Ensures, lift_then,
}
use mdictlib.Source.{FileSource}
use mdictlib.Compression.{Codecs}
use mdictlib.Encoding.{LegacyCodecs, TextEncoding}
use mdictlib.Descriptors.Verify.{CoversKeys}
use mdictlib.RecordSection.{Limits}
use mdictlib.Header.Metadata.{Header}
use mdictlib.KeywordIndex.{
  Grammar, KeywordIndexLayout, version1, version2, check_totals, parse_keyword_index_entries,
}
use mdictlib.KeywordIndex.Rows.{KeysLaidOut, parse_keyword_index_entries-CoversKeys}
use mdictlib.KeywordSection.{
  OpenOptions, KeywordSection, KeywordHeader, KeywordOffsets, place_keyword_section,
  ensure_key_blocks, finish_keyword_section, checked_add, ensure_range,
}
use mdictlib.KeywordSection.Parse.{
  keyword_section_of, read_v1_index, parse_v1_keyword_section, decode_v2_index, read_v2_index,
  parse_v2_keyword_section,
}

-- A section that is accepted: its three ranges lie one behind the other from `offset`, the record section
-- begins at their end, and the blocks number the entries and fill their range.
pub record IsKeywordSection (size : ℕ) (source : FileSource) (limits : Limits) (offset : ℕ)
    (s : KeywordSection) : Type 0 where
  pub header_at : s.sections.header.offset ≡ offset
  pub header_len : s.sections.header.len ≡ size
  pub index_at : s.sections.index.offset ≡ offset + size
  pub blocks_at : s.sections.blocks.offset ≡ s.sections.index.offset + s.sections.index.len
  pub records_at : s.record_section_offset ≡ s.sections.blocks.offset + s.sections.blocks.len
  pub blocks_inside : s.record_section_offset ≤ source.len
  pub covers : CoversKeys s.blocks 0 s.num_entries
  pub laid_out : KeysLaidOut limits s.blocks s.sections.blocks.offset s.record_section_offset

record Placed (source : FileSource) (offset header_len index_len blocks_len : ℕ)
    (at : KeywordOffsets) : Type 0 where
  index_at : at.index ≡ offset + header_len
  blocks_at : at.blocks ≡ at.index + index_len
  records_at : at.records ≡ at.blocks + blocks_len
  inside : at.records ≤ source.len

place_keyword_section-Placed :
    (source : FileSource) (offset header_len : ℕ) (context : String) (index_len blocks_len : ℕ)
    (at : KeywordOffsets)
    → place_keyword_section source offset header_len context index_len blocks_len ≡ ok at
    → Placed source offset header_len index_len blocks_len at
unfolding place_keyword_section
place_keyword_section-Placed source offset header_len context index_len blocks_len at e =
    elim (Result-cases
      (ok_or (checked_add offset header_len) (invalid_format "keyword index offset overflow"))) [
        | inr (x, i) ↦ absurd (cc)
        | inl (index, i) ↦
            elim (Result-cases (
              ok_or (checked_add index index_len)
                (invalid_format "keyword blocks offset overflow"))) [
                  | inr (x, b) ↦ absurd (cc)
                  | inl (blocks, b) ↦
                      elim (Result-cases (
                        ok_or (checked_add blocks blocks_len)
                          (invalid_format "record section offset overflow"))) [
                            | inr (x, r) ↦ absurd (cc)
                            | inl (records, r) ↦
                                elim (Result-cases (ensure_range source index index_len context)) [
                                  | inr (x, u) ↦ absurd (cc)
                                  | inl (_, u) ↦
                                      elim (Result-cases (
                                        ensure_range source blocks blocks_len
                                          "keyword block section")) [
                                            | inr (x, fits) ↦ absurd (cc)
                                            | inl (_, fits) ↦
                                                ok_then
                                                  (record {
                                                    index = index;
                                                    blocks = blocks;
                                                    records = records;
                                                  })
                                                  (Placed source offset header_len index_len
                                                    blocks_len)
                                                  (record {
                                                    index_at = (checked_add-ok _ _ _ _ i).0;
                                                    blocks_at = (checked_add-ok _ _ _ _ b).0;
                                                    records_at = (checked_add-ok _ _ _ _ r).0;
                                                    inside = omega (
                                                      arith,
                                                      (ensure_range-ok source blocks blocks_len _
                                                          fits).0,
                                                      (checked_add-ok _ _ _ _ r).0,
                                                    );
                                                  })
                                                  at (rw (i, b, r, u, fits) at e)
                                          ]
                                ]
                          ]
                ]
      ]

module _ (codecs : Codecs) (legacy : LegacyCodecs) (source : FileSource) (header : Header)
    (encoding : TextEncoding) (offset : ℕ) (options : OpenOptions) where
  pub parse_v1_keyword_section-Balanced :
      Balanced (parse_v1_keyword_section codecs legacy source header encoding offset options)
  unfolding parse_v1_keyword_section read_v1_index
  parse_v1_keyword_section-Balanced =
      search (with_reserved-Balanced, bind-Balanced, lift-Balanced) depth 40

  pub parse_v2_keyword_section-Balanced :
      Balanced (parse_v2_keyword_section codecs legacy source header encoding offset options)
  unfolding parse_v2_keyword_section read_v2_index decode_v2_index
  parse_v2_keyword_section-Balanced =
      search (with_reserved-Balanced, bind-Balanced, lift-Balanced) depth 50

  keyword_section_of-IsKeywordSection :
      (g : Grammar) (header_len : ℕ) (h : KeywordHeader) (at : KeywordOffsets)
      (num_blocks retained_bytes : ℕ) (decoded : List ℕ)
      → Placed source offset header_len h.index_comp_len h.blocks_len at
      → (s : KeywordSection)
      → keyword_section_of codecs legacy source header encoding offset options g header_len h at
          num_blocks retained_bytes decoded
        ≡ ok s
      → IsKeywordSection header_len source options.limits offset s
  unfolding keyword_section_of finish_keyword_section
  keyword_section_of-IsKeywordSection g header_len h at num_blocks retained_bytes decoded p s e =
      elim (Result-cases (
        parse_keyword_index_entries legacy g encoding options.limits decoded num_blocks
          at.blocks)) [
            | inr (x, parsed) ↦ absurd cc
            | inl (blocks, parsed) ↦
                elim (Result-cases (check_totals blocks h.num_entries h.blocks_len)) [
                  | inr (x, totals) ↦ absurd cc
                  | inl (_, totals) ↦ elim (Result-cases (ensure_key_blocks source offset blocks)) [
                    | inr (x, inside) ↦ absurd cc
                    | inl (_, inside) ↦
                        let known =
                          parse_keyword_index_entries-CoversKeys legacy g encoding options.limits
                            decoded num_blocks at.blocks h.num_entries h.blocks_len blocks parsed
                            totals in
                        ok_then _ (IsKeywordSection header_len source options.limits offset)
                          (record {
                            header_at = refl;
                            header_len = refl;
                            index_at = p.index_at;
                            blocks_at = p.blocks_at;
                            records_at = p.records_at;
                            blocks_inside = p.inside;
                            covers = known.0;
                            laid_out =
                                subst (KeysLaidOut options.limits blocks at.blocks)
                                  (sym p.records_at) known.1;
                          })
                          s (rw (parsed, totals, inside) at e)
                  ]
                ]
          ]

  read_v1_index-IsKeywordSection :
      (h : KeywordHeader) (at : KeywordOffsets) (num_blocks : ℕ)
      → Placed source offset 16 h.index_comp_len h.blocks_len at
      → Ensures
          (read_v1_index codecs legacy source header encoding offset options h at num_blocks)
          (IsKeywordSection 16 source options.limits offset)
  unfolding read_v1_index
  read_v1_index-IsKeywordSection h at num_blocks p = lift_then _ _ _ λ index_len _.
      with_reserved-Ensures _ _ _ (
        lift_then _ _ _ λ key_info _. lift_then _ _ _ λ retained _. with_reserved-Ensures _ _ _ (
          lift-Ensures _ _
            (keyword_section_of-IsKeywordSection version1 16 h at num_blocks retained key_info p)))

  read_v2_index-IsKeywordSection :
      (layout : KeywordIndexLayout) (h : KeywordHeader) (at : KeywordOffsets) (num_blocks : ℕ)
      → Placed source offset 44 h.index_comp_len h.blocks_len at
      → Ensures
          (read_v2_index codecs legacy source header encoding offset options layout h at num_blocks)
          (IsKeywordSection 44 source options.limits offset)
  unfolding read_v2_index decode_v2_index
  read_v2_index-IsKeywordSection layout h at num_blocks p = lift_then _ _ _ λ comp_len _.
      with_reserved-Ensures _ _ _ (
        lift_then _ _ _ λ raw_index _. lift_then _ _ _ λ index_bytes _.
          lift_then _ _ _ λ decomp_len _. with_reserved-Ensures _ _ _ (
            lift_then _ _ _ λ retained _. with_reserved-Ensures _ _ _ (
              lift_then _ _ _ λ decoded _. lift-Ensures _ _ (
                keyword_section_of-IsKeywordSection (version2 layout) 44 h at num_blocks retained
                  decoded p))))

  -- Whatever keyword section of version 1 is accepted has the shape `IsKeywordSection`.
  pub parse_v1_keyword_section-IsKeywordSection :
      Ensures
        (parse_v1_keyword_section codecs legacy source header encoding offset options)
        (IsKeywordSection 16 source options.limits offset)
  unfolding parse_v1_keyword_section
  parse_v1_keyword_section-IsKeywordSection = lift_then _ _ _ λ _ _. lift_then _ _ _ λ header_len _.
      with_reserved-Ensures _ _ _ (
        lift_then _ _ _ λ raw_header _. lift_then _ _ _ λ h _. lift_then _ _ _ λ _ _.
          lift_then _ _ _ λ num_blocks _. lift_then _ _ _ λ at placed.
            read_v1_index-IsKeywordSection h at num_blocks (
              place_keyword_section-Placed source offset 16 _ h.index_comp_len h.blocks_len at
                placed))

  -- The same of version 2.
  pub parse_v2_keyword_section-IsKeywordSection :
      Ensures
        (parse_v2_keyword_section codecs legacy source header encoding offset options)
        (IsKeywordSection 44 source options.limits offset)
  unfolding parse_v2_keyword_section
  parse_v2_keyword_section-IsKeywordSection = with_reserved-Ensures _ _ _ (
      lift_then _ _ _ λ raw_header _. lift_then _ _ _ λ plain_header _. lift_then _ _ _ λ layout _.
        lift_then _ _ _ λ h _. lift_then _ _ _ λ _ _. lift_then _ _ _ λ num_blocks _.
          lift_then _ _ _ λ at placed. read_v2_index-IsKeywordSection layout h at num_blocks (
            place_keyword_section-Placed source offset 44 _ h.index_comp_len h.blocks_len at
              placed))
