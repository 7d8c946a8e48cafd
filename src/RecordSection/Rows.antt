-- ===== src/RecordSection/Rows.antt =====
-- The blocks of a record index: they cover the decoded stream and the file range without a gap, and
-- the rows are read back from their encoding.
use mdictlib.Prelude.{ℕ, zero, suc, ◌+◌, ◌≤◌, List, [], ◌∷◌, length, ◌≡◌, refl, arith}
use mdictlib.Error.{Result, ok, err, ◌>>=◌}
use mdictlib.Limits.{u64_max}
use mdictlib.Source.{FileSource}
use mdictlib.Descriptors.{RecordBlockDescriptor}
use mdictlib.Descriptors.Verify.{CoversRecords}
use mdictlib.RecordSection.{
  Limits, Wire, RowState, record_row, record_rows, check_record_end, first_row, parse_record_index,
}

-- The blocks lie one behind the other in the file, from `start` to `end`, each within the opened
-- length and the limits, and none smaller than its eight-byte envelope.
abbrev pub LaidOut : FileSource → Limits → List RecordBlockDescriptor → ℕ → ℕ → Type 0
LaidOut source limits [] start end = start ≡ end
LaidOut source limits (b ∷ bs) start end =
    (b.comp_offset ≡ start)
    × (start + b.comp_size ≤ source.len)
    × (8 ≤ b.comp_size)
    × (b.comp_size ≤ limits.compressed_block_bytes)
    × (b.decomp_size ≤ limits.decompressed_block_bytes)
    × LaidOut source limits bs (start + b.comp_size) end

record RowStep (source : FileSource) (limits : Limits) (s : RowState) (b : RecordBlockDescriptor)
    (s' : RowState) : Type 0 where
  at : b.comp_offset ≡ s.comp_offset
  from : b.decomp_offset ≡ s.decomp_offset
  comp : s'.comp_offset ≡ s.comp_offset + b.comp_size
  decomp : s'.decomp_offset ≡ s.decomp_offset + b.decomp_size
  sum : s'.total_comp ≡ s.total_comp + b.comp_size
  small : s'.decomp_offset ≤ u64_max
  inside : s.comp_offset + b.comp_size ≤ source.len
  envelope : 8 ≤ b.comp_size
  comp_limit : b.comp_size ≤ limits.compressed_block_bytes
  decomp_limit : b.decomp_size ≤ limits.decompressed_block_bytes

abbrev RowPost : FileSource → Limits → RowState → Result (RecordBlockDescriptor × RowState) → Type 0
RowPost source limits s (err e) = Unit {0}
RowPost source limits s (ok (b, s')) = RowStep source limits s b s'

-- What the row loop leaves: `n` blocks that cover what the counters have moved over.
pub record Rows (source : FileSource) (limits : Limits) (n : ℕ) (s : RowState)
    (bs : List RecordBlockDescriptor) (s' : RowState) : Type 0 where
  pub covers : CoversRecords bs s.decomp_offset s'.decomp_offset
  pub laid_out : LaidOut source limits bs s.comp_offset s'.comp_offset
  pub counted : length bs ≡ n
  pub summed : s'.total_comp + s.comp_offset ≡ s'.comp_offset + s.total_comp

abbrev RowsPost :
    FileSource → Limits → ℕ → RowState → Result (List RecordBlockDescriptor × RowState) → Type 0
RowsPost source limits n s (err e) = Unit {0}
RowsPost source limits n s (ok (bs, s')) = Rows source limits n s bs s'

with_length :
    ℕ → ℕ → List RecordBlockDescriptor × RowState → Result (List RecordBlockDescriptor × ℕ)
with_length start len p = check_record_end p.1 start len >>= λ t. ok (p.0, t)

module _ (w : Wire) (source : FileSource) (limits : Limits) where
  record_row-RowPost : (s : RowState) → RowPost source limits s (record_row w source limits s)
  unfolding record_row
  record_row-RowPost s = ground arith

  rows_cons :
      (n : ℕ) (s s1 : RowState) (b : RecordBlockDescriptor)
      (r : Result (List RecordBlockDescriptor × RowState))
      → RowStep source limits s b s1
      → RowsPost source limits n s1 r
      → RowsPost source limits (suc n) s (r >>= λ p. ok (b ∷ p.0, p.1))
  rows_cons n s s1 b (err e) st h = tt
  rows_cons n s s1 b (ok (bs, s')) st h = record {
    covers = (st.from, rw st.decomp at h.covers);
    laid_out =
        (st.at, st.inside, st.envelope, st.comp_limit, st.decomp_limit, rw st.comp at h.laid_out);
    counted = omega arith;
    summed = omega arith;
  }

  rows_step :
      (n : ℕ) (s : RowState) (r : Result (RecordBlockDescriptor × RowState))
      → RowPost source limits s r
      → ((s1 : RowState)
          → s1.decomp_offset ≤ u64_max
          → RowsPost source limits n s1 (record_rows w source limits n s1))
      → RowsPost source limits
          (suc n)
          s
          (r >>= λ p. record_rows w source limits n p.1 >>= λ q. ok (p.0 ∷ q.0, q.1))
  rows_step n s (err e) st h = tt
  rows_step n s (ok (b, s1)) st h = rows_cons n s s1 b _ st (h s1 st.small)

  pub record_rows-Rows :
      (n : ℕ) (s : RowState)
      → s.decomp_offset ≤ u64_max
      → RowsPost source limits n s (record_rows w source limits n s)
  unfolding record_rows
  record_rows-Rows zero s m = record {
    covers = (refl, m);
    laid_out = refl;
    counted = refl;
    summed = omega arith;
  }
  record_rows-Rows (suc n) s m =
      rows_step n s (record_row w source limits s) (record_row-RowPost s) (record_rows-Rows n)

  rows_end :
      (n start len : ℕ) (s : RowState) (r : Result (List RecordBlockDescriptor × RowState))
      (blocks : List RecordBlockDescriptor) (total : ℕ)
      → s.comp_offset ≡ start
      → s.total_comp ≡ 0
      → RowsPost source limits n s r
      → (r >>= with_length start len) ≡ ok (blocks, total)
      → CoversRecords blocks s.decomp_offset total
        × LaidOut source limits blocks start (start + len)
        × (length blocks ≡ n)
  unfolding check_record_end with_length
  rows_end n start len s (err x) blocks total p q h e = cc
  rows_end n start len s (ok (bs, s')) blocks total p q h e =
      let found : (bs ≡ blocks) × (s'.decomp_offset ≡ total) × (s'.comp_offset ≡ start + len) =
        ground arith in
      (
        rw (found.0, found.1) at h.covers,
        rw (← found.0, ← found.2, ← p) h.laid_out,
        rw found.0 at h.counted,
      )

  -- The index that a record section declares: its blocks cover the decoded stream from 0 to the
  -- length that is reported, and the declared file range exactly.
  pub parse_record_index-covers :
      (n : ℕ) (index : List ℕ) (start len : ℕ) (blocks : List RecordBlockDescriptor) (total : ℕ)
      → parse_record_index w source limits n index start len ≡ ok (blocks, total)
      → CoversRecords blocks 0 total
        × LaidOut source limits blocks start (start + len)
        × (length blocks ≡ n)
  unfolding parse_record_index with_length
  parse_record_index-covers n index start len blocks total e =
      rows_end n start len (first_row index start)
        (record_rows w source limits n (first_row index start)) blocks total refl refl
        (record_rows-Rows n (first_row index start) (omega arith)) e
