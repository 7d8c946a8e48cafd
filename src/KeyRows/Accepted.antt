-- ===== src/KeyRows/Accepted.antt =====
-- What holds of every key block that is accepted.
use mathlib.Core.Path.{subst}
use mdictlib.Prelude.{
  ℕ, zero, suc, ◌+◌, ◌≤◌, ◌==◌, Bool-cases, Option, none, some, List, [], ◌∷◌, length, ◌≡◌, refl,
  ◌∙◌, arith, inl, inr, ◌⊎◌,
}
use mdictlib.Error.{Result, ok, err, ◌>>=◌}
use mdictlib.Limits.{checked_usize}
use mdictlib.Cursor.{is_empty}
use mdictlib.RecordSection.{Wire, v1_wire, v2_wire}
use mdictlib.Encoding.{LegacyCodecs}
use mdictlib.KeyRows.{
  DecodedKeyRow, KeyRowContext, RowState, check_order, key_row, check_count, key_rows,
  decode_key_rows, decode_v1_key_rows, decode_v2_key_rows,
}

-- Offsets that do not decrease, from the previous one on, and do not exceed the total.
abbrev pub Ascending : ℕ → Option ℕ → List DecodedKeyRow → Type 0
Ascending total previous [] = Unit {0}
Ascending total none (r ∷ rs) = (r.record_start ≤ total) × Ascending total (some r.record_start) rs
Ascending total (some previous) (r ∷ rs) =
    (previous ≤ r.record_start)
    × (r.record_start ≤ total)
    × Ascending total (some r.record_start) rs

module _ (codecs : LegacyCodecs) (w : Wire) (context : KeyRowContext) where
  RowPost : RowState → Result (DecodedKeyRow × RowState) → Type 0
  RowPost s (err e) = Unit {0}
  RowPost s (ok (row, s')) =
      (check_order s.previous_record_start row.record_start ≡ ok tt)
      × (row.record_start ≤ context.total_decoded_record_len)
      × (s'.decoded ≡ s.decoded + 1)
      × (s'.previous_record_start ≡ some row.record_start)

  key_row-RowPost : (expected : ℕ) (s : RowState) → RowPost s (key_row codecs w context expected s)
  unfolding RowPost key_row
  key_row-RowPost expected s = ground arith

  RowsPost : ℕ → RowState → Result (List DecodedKeyRow) → Type 0
  RowsPost expected s (err e) = Unit {0}
  RowsPost expected s (ok rows) =
      (s.decoded + length rows ≡ expected)
      × Ascending context.total_decoded_record_len s.previous_record_start rows

  count_post :
      (expected : ℕ) (s : RowState)
      → RowsPost expected s (check_count codecs w context expected s.decoded)
  unfolding RowsPost check_count
  count_post expected s = elim (Bool-cases (s.decoded == expected)) [
    | inl e ↦ rw e (ground arith, tt)
    | inr e ↦ rw e tt
  ]

  Ascending-step :
      (previous previous' : Option ℕ) (row : DecodedKeyRow) (rows : List DecodedKeyRow)
      → check_order previous row.record_start ≡ ok tt
      → row.record_start ≤ context.total_decoded_record_len
      → previous' ≡ some row.record_start
      → Ascending context.total_decoded_record_len previous' rows
      → Ascending context.total_decoded_record_len previous (row ∷ rows)
  unfolding check_order
  Ascending-step none previous' row rows c b e h =
      (b, subst (λ p. Ascending context.total_decoded_record_len p rows) e h)
  Ascending-step (some previous) previous' row rows c b e h =
      (ground arith, b, subst (λ p. Ascending context.total_decoded_record_len p rows) e h)

  rows_step :
      (expected : ℕ) (s s' : RowState) (row : DecodedKeyRow) (r : Result (List DecodedKeyRow))
      → RowPost s (ok (row, s'))
      → RowsPost expected s' r
      → RowsPost expected s (r >>= λ rows. ok (row ∷ rows))
  unfolding RowPost RowsPost
  rows_step expected s s' row (err e) one rest = tt
  rows_step expected s s' row (ok rows) one rest = (
    omega (arith, one.2, rest.0),
    Ascending-step s.previous_record_start s'.previous_record_start row rows one.0 one.1 one.3
        rest.1,
  )

  rows_after :
      (expected : ℕ) (s : RowState) (r : Result (DecodedKeyRow × RowState))
      (next_rows : RowState → Result (List DecodedKeyRow))
      → RowPost s r
      → ((s' : RowState) → RowsPost expected s' (next_rows s'))
      → RowsPost expected s (r >>= λ (row, s'). next_rows s' >>= λ rows. ok (row ∷ rows))
  unfolding RowsPost
  rows_after expected s (err e) next_rows one rest = tt
  rows_after expected s (ok (row, s')) next_rows one rest =
      rows_step expected s s' row (next_rows s') one (rest s')

  key_rows-RowsPost :
      (fuel expected : ℕ) (s : RowState)
      → RowsPost expected s (key_rows codecs w context fuel expected s)
  unfolding key_rows
  key_rows-RowsPost zero expected s = count_post expected s
  key_rows-RowsPost (suc fuel) expected s = elim (Bool-cases (is_empty s.cursor)) [
    | inl e ↦ rw e (count_post expected s)
    | inr e ↦ rw e (
        rows_after expected s (key_row codecs w context expected s)
          (key_rows codecs w context fuel expected) (key_row-RowPost expected s)
          (key_rows-RowsPost fuel expected))
  ]

  abbrev first_state : List ℕ → RowState
  first_state bytes = record {
    cursor = record { bytes = bytes; offset = 0 };
    decoded = 0;
    previous_record_start = none;
  }

  accepted :
      (expected : ℕ) (bytes : List ℕ) (rows : List DecodedKeyRow)
      → key_rows codecs w context (length bytes) expected (first_state bytes) ≡ ok rows
      → (length rows ≡ expected) × Ascending context.total_decoded_record_len none rows
  unfolding RowsPost
  accepted expected bytes rows h =
      let post : (0 + length rows ≡ expected)
          × Ascending context.total_decoded_record_len none rows =
        subst (RowsPost expected (first_state bytes)) h
          (key_rows-RowsPost (length bytes) expected (first_state bytes)) in
      (omega arith, post.1)

  after_count :
      (n : Result ℕ) (bytes : List ℕ) (rows : List DecodedKeyRow)
      → checked_usize context.expected_entries "decoded key entry count" ≡ n
      → (n >>= λ expected. key_rows codecs w context (length bytes) expected (first_state bytes))
        ≡ ok rows
      → (length rows ≡ context.expected_entries)
        × Ascending context.total_decoded_record_len none rows
  unfolding checked_usize
  after_count (err e) bytes rows c h = cc
  after_count (ok expected) bytes rows c h =
      let same : expected ≡ context.expected_entries = ground arith in
      let all = accepted expected bytes rows h in (all.0 ∙ same, all.1)

  pub decode_any-Ascending :
      (bytes : List ℕ) (rows : List DecodedKeyRow)
      → decode_key_rows codecs w context bytes ≡ ok rows
      → (length rows ≡ context.expected_entries)
        × Ascending context.total_decoded_record_len none rows
  unfolding decode_key_rows
  decode_any-Ascending bytes rows h =
      after_count (checked_usize context.expected_entries "decoded key entry count") bytes rows refl
        h

-- Whatever bytes a key block holds, the rows that a decoder of either version accepts have the count
-- that the metadata declares, and record offsets that do not decrease and stay inside the stream.
pub decode_key_rows-Ascending :
    (codecs : LegacyCodecs) (context : KeyRowContext) (bytes : List ℕ) (rows : List DecodedKeyRow)
    → (decode_v1_key_rows codecs context bytes ≡ ok rows)
      ⊎ (decode_v2_key_rows codecs context bytes ≡ ok rows)
    → (length rows ≡ context.expected_entries)
      × Ascending context.total_decoded_record_len none rows
unfolding decode_v1_key_rows decode_v2_key_rows
decode_key_rows-Ascending codecs context bytes rows (inl h) =
    decode_any-Ascending codecs v1_wire context bytes rows h
decode_key_rows-Ascending codecs context bytes rows (inr h) =
    decode_any-Ascending codecs v2_wire context bytes rows h
