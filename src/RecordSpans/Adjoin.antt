-- ===== src/RecordSpans/Adjoin.antt =====
-- The spans of the records of consecutive ordinals adjoin.
use mdictlib.Prelude.{
  dec_lt, ltb, false, lt→ltb, ℕ, suc, ◌-◌, ◌≤◌, ◌<◌, some, List, length, get_elem?, ◌≡◌, inl, inr,
  refl, sym, ◌∙◌, arith,
}
use mdictlib.Descriptors.{KeyBlockDescriptor}
use mdictlib.Descriptors.Verify.{CoversKeys}
use mathlib.Core.Path.{subst}
use mdictlib.Error.{Result, ok}
use mdictlib.Limits.{checked_sub}
use mdictlib.KeyRows.{DecodedKeyRow}
use mdictlib.KeySearch.Found.{Numbers, find_key_block_by_ordinal-Numbers}
use mdictlib.KeyEntries.{KeyBlockHit, key_entry_at_ordinal}
use mdictlib.RecordSpans.Blocks.{
  NoneEmpty, next_block, last_block, get_elem?-past, get_elem?-inside, get_elem?-first_row,
  some_start, same_place,
}
use mdictlib.KeyEntries.Complete.{get_elem?-lt}
use mdictlib.RecordSpans.{
  RecordDescriptor, block_start, end_behind, span_end, record_descriptor_from_hit, descriptor_of,
  record_at_ordinal,
}

module _ (decode : ℕ → Result (List DecodedKeyRow)) (bs : List KeyBlockDescriptor) (total : ℕ) where
  -- Every block is decoded to as many rows as it declares.
  abbrev pub Decoded : Type 0
  Decoded =
      (k : ℕ) (b : KeyBlockDescriptor)
      → get_elem? bs k ≡ some b
      → (rows : List DecodedKeyRow) × (decode k ≡ ok rows) × (length rows ≡ b.entry_count)

  -- Where an ordinal has its row.
  record Place (ordinal : ℕ) : Type 0 where
    k : ℕ
    b : KeyBlockDescriptor
    rows : List DecodedKeyRow
    row : DecodedKeyRow
    at : get_elem? bs k ≡ some b
    numbers : Numbers b ordinal
    decoded : decode k ≡ ok rows
    counted : length rows ≡ b.entry_count
    row_at : get_elem? rows (ordinal - b.entry_start_index) ≡ some row
    found :
        key_entry_at_ordinal decode bs total ordinal
        ≡ ok (
            some (record {
              block_index = k;
              entry_index = ordinal - b.entry_start_index;
              entries = rows;
            }))

  place : (ordinal : ℕ) → CoversKeys bs 0 total → Decoded → ordinal < total → Place ordinal
  unfolding key_entry_at_ordinal checked_sub
  place ordinal h reads inside = elim (find_key_block_by_ordinal-Numbers bs total ordinal h) [
    | inl (_, k, b, found, at, numbers) ↦
        let (rows, decoded, counted) = reads k b at in
        let (row, row_at) = get_elem?-lt rows (ordinal - b.entry_start_index) (omega arith) in
        record {
          k = k;
          b = b;
          rows = rows;
          row = row;
          at = at;
          numbers = numbers;
          decoded = decoded;
          counted = counted;
          row_at = row_at;
          found = ground arith;
        }
    | inr (past, found) ↦ absurd (omega arith)
  ]

  module _ (total_len : ℕ) where
    hit_span :
        (hit : KeyBlockHit) (row : DecodedKeyRow) (d : RecordDescriptor)
        → get_elem? hit.entries hit.entry_index ≡ some row
        → descriptor_of decode bs total total_len (some hit) ≡ ok (some d)
        → (d.start ≡ row.record_start) × (span_end decode bs total total_len hit ≡ ok d.end)
    unfolding descriptor_of record_descriptor_from_hit
    hit_span hit row d e f = ground arith

    span_inside :
        (k index : ℕ) (rows : List DecodedKeyRow) (next : DecodedKeyRow)
        → get_elem? rows (suc index) ≡ some next
        → span_end decode bs total total_len
            (record { block_index = k; entry_index = index; entries = rows })
          ≡ ok next.record_start
    unfolding span_end end_behind
    span_inside k index rows next e = rw e refl

    span_across :
        (k index : ℕ) (rows rows' : List DecodedKeyRow) (next : DecodedKeyRow)
        → length rows ≤ suc index
        → suc k < length bs
        → decode (suc k) ≡ ok rows'
        → get_elem? rows' 0 ≡ some next
        → span_end decode bs total total_len
            (record { block_index = k; entry_index = index; entries = rows })
          ≡ ok next.record_start
    unfolding span_end end_behind block_start
    span_across k index rows rows' next past more decoded first =
        rw
          (
            get_elem?-past rows (suc index) past,
            lt→ltb (suc k) (length bs) more,
            decoded,
            get_elem?-first_row rows' next first,
          )
          refl

    span_last :
        (k index : ℕ) (rows : List DecodedKeyRow)
        → length rows ≤ suc index
        → length bs ≤ suc k
        → span_end decode bs total total_len
            (record { block_index = k; entry_index = index; entries = rows })
          ≡ ok total_len
    unfolding span_end end_behind
    span_last k index rows past last =
        let no : ltb (suc k) (length bs) ≡ false = ground arith in
        rw (get_elem?-past rows (suc index) past, no) refl

    same_rows :
        (k l : ℕ) (rows rows' : List DecodedKeyRow)
        → l ≡ k
        → decode k ≡ ok rows
        → decode l ≡ ok rows'
        → rows' ≡ rows
    same_rows k l rows rows' e p q = cc

    next_inside : (k l : ℕ) → l ≡ suc k → l < length bs → suc k < length bs
    next_inside k l e p = omega arith

    next_span :
        (ordinal : ℕ)
        → CoversKeys bs 0 total
        → NoneEmpty bs
        → (here : Place ordinal) (there : Place (suc ordinal))
        → span_end decode bs total total_len (record {
          block_index = here.k;
          entry_index = ordinal - here.b.entry_start_index;
          entries = here.rows;
        })
          ≡ ok there.row.record_start
    next_span ordinal h n here there =
        elim (next_block bs 0 total ordinal here.k there.k here.b there.b h n here.at there.at
          here.numbers there.numbers) [
            | inl (e, same) ↦
                let same_start : here.b.entry_start_index ≡ there.b.entry_start_index =
                  some_start here.b there.b same in
                span_inside here.k (ordinal - here.b.entry_start_index) here.rows there.row (
                  same_place here.rows there.rows (suc (ordinal - here.b.entry_start_index))
                    (suc ordinal - there.b.entry_start_index) there.row
                    (same_rows here.k there.k here.rows there.rows e here.decoded there.decoded)
                    (omega arith) there.row_at)
            | inr (e, start, end) ↦
                span_across here.k (ordinal - here.b.entry_start_index) here.rows there.rows
                  there.row (omega arith)
                  (next_inside here.k there.k e (get_elem?-inside bs there.k there.b there.at))
                  (subst (λ k. decode k ≡ ok there.rows) e there.decoded)
                  (same_place there.rows there.rows 0 (suc ordinal - there.b.entry_start_index)
                    there.row refl (omega arith) there.row_at)
          ]

    at-Place :
        (ordinal : ℕ) (here : Place ordinal) (d : RecordDescriptor)
        → record_at_ordinal decode bs total total_len ordinal ≡ ok (some d)
        → (d.start ≡ here.row.record_start)
          × (span_end decode bs total total_len (record {
            block_index = here.k;
            entry_index = ordinal - here.b.entry_start_index;
            entries = here.rows;
          })
              ≡ ok d.end)
    unfolding record_at_ordinal
    at-Place ordinal here d e = hit_span _ here.row d here.row_at (rw here.found at e)

    past_none :
        (ordinal : ℕ) (d : RecordDescriptor)
        → total ≤ ordinal
        → record_at_ordinal decode bs total total_len ordinal ≡ ok (some d)
        → ⊥
    unfolding record_at_ordinal key_entry_at_ordinal descriptor_of
    past_none ordinal d p e = ground arith

    in_total :
        (ordinal : ℕ) (d : RecordDescriptor)
        → record_at_ordinal decode bs total total_len ordinal ≡ ok (some d)
        → ordinal < total
    in_total ordinal d e = elim (dec_lt ordinal total) [
      | yes inside ↦ inside
      | no past ↦ absurd (past_none ordinal d (omega arith) e)
    ]

    same_end : (r : Result ℕ) (m n : ℕ) → r ≡ ok m → r ≡ ok n → m ≡ n
    same_end r m n p q = cc

    adjoin :
        (ordinal : ℕ) (d e : RecordDescriptor)
        → CoversKeys bs 0 total
        → NoneEmpty bs
        → Decoded
        → record_at_ordinal decode bs total total_len ordinal ≡ ok (some d)
        → record_at_ordinal decode bs total total_len (suc ordinal) ≡ ok (some e)
        → d.end ≡ e.start
    adjoin ordinal d e h n reads p q =
        let here = place ordinal h reads (in_total ordinal d p) in
        let there = place (suc ordinal) h reads (in_total (suc ordinal) e q) in
        same_end _ d.end there.row.record_start (at-Place ordinal here d p).1
          (next_span ordinal h n here there)
        ∙ sym (at-Place (suc ordinal) there e q).0

    ends_stream :
        (ordinal : ℕ) (d : RecordDescriptor)
        → CoversKeys bs 0 total
        → NoneEmpty bs
        → Decoded
        → record_at_ordinal decode bs total total_len ordinal ≡ ok (some d)
        → suc ordinal ≡ total
        → d.end ≡ total_len
    ends_stream ordinal d h n reads p last =
        let here = place ordinal h reads (in_total ordinal d p) in
        let (blocks, rows) =
          last_block bs 0 total ordinal here.k here.b h n here.at here.numbers last in
        same_end _ d.end total_len (at-Place ordinal here d p).1
          (span_last here.k (ordinal - here.b.entry_start_index) here.rows (omega arith) blocks)

-- In key blocks that number the entries without a gap, none of them empty, each of which is decoded to as
-- many rows as it declares: a record that is described has an ordinal below the total; its span ends
-- where that of the next ordinal begins, and the span of the last ordinal ends with the stream.
pub record_at_ordinal-adjoin :
    (decode : ℕ → Result (List DecodedKeyRow)) (bs : List KeyBlockDescriptor)
    (total total_len ordinal : ℕ) (d : RecordDescriptor)
    → CoversKeys bs 0 total
    → NoneEmpty bs
    → Decoded decode bs total
    → record_at_ordinal decode bs total total_len ordinal ≡ ok (some d)
    → (ordinal < total)
      × ((e : RecordDescriptor)
          → record_at_ordinal decode bs total total_len (suc ordinal) ≡ ok (some e)
          → d.end ≡ e.start)
      × (suc ordinal ≡ total → d.end ≡ total_len)
record_at_ordinal-adjoin decode bs total total_len ordinal d h n reads p = (
  in_total decode bs total total_len ordinal d p,
  λ e q. adjoin decode bs total total_len ordinal d e h n reads p q,
  λ last. ends_stream decode bs total total_len ordinal d h n reads p last,
)
