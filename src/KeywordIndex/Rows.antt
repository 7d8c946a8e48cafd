-- ===== src/KeywordIndex/Rows.antt =====
-- What holds of every keyword index that is accepted with its totals.
use mathlib.Core.Path.{subst}
use mdictlib.Prelude.{ℕ, zero, suc, ◌+◌, ◌≤◌, some, List, [], ◌∷◌, length, ◌≡◌, refl, arith}
use mdictlib.Error.{Result, ok, err, ◌>>=◌}
use mdictlib.Limits.{u64_max, checked_add}
use mdictlib.Descriptors.{KeyBlockDescriptor}
use mdictlib.Descriptors.Verify.{CoversKeys}
use mdictlib.RecordSection.{Limits}
use mdictlib.Encoding.{LegacyCodecs, TextEncoding}
use mdictlib.KeywordIndex.{
  Grammar, IndexState, index_row, index_rows, parse_keyword_index_entries, sum_sizes, entries_end,
  check_totals,
}

-- The blocks lie one behind the other from `start` to `stop`; each has an entry at least, an envelope
-- of eight bytes, and sizes within the limits.
abbrev pub KeysLaidOut : Limits → List KeyBlockDescriptor → ℕ → ℕ → Type 0
KeysLaidOut limits [] start stop = start ≡ stop
KeysLaidOut limits (b ∷ bs) start stop =
    (b.comp_offset ≡ start)
    × (1 ≤ b.entry_count)
    × (b.entry_count ≤ limits.key_block_entries)
    × (8 ≤ b.comp_size)
    × (b.comp_size ≤ limits.compressed_block_bytes)
    × (b.decomp_size ≤ limits.decompressed_block_bytes)
    × KeysLaidOut limits bs (start + b.comp_size) stop

record KeyStep (limits : Limits) (s : IndexState) (b : KeyBlockDescriptor) (s' : IndexState)
    : Type 0 where
  pub from : b.entry_start_index ≡ s.entry_start_index
  pub at : b.comp_offset ≡ s.comp_offset
  pub entries : s'.entry_start_index ≡ s.entry_start_index + b.entry_count
  pub comp : s'.comp_offset ≡ s.comp_offset + b.comp_size
  pub small : s'.entry_start_index ≤ u64_max
  pub some_entry : 1 ≤ b.entry_count
  pub entry_limit : b.entry_count ≤ limits.key_block_entries
  pub envelope : 8 ≤ b.comp_size
  pub comp_limit : b.comp_size ≤ limits.compressed_block_bytes
  pub decomp_limit : b.decomp_size ≤ limits.decompressed_block_bytes

KeyRowPost : Limits → IndexState → Result (KeyBlockDescriptor × IndexState) → Type 0
KeyRowPost limits s (err e) = Unit {0}
KeyRowPost limits s (ok (b, s')) = KeyStep limits s b s'

record KeyRows (limits : Limits) (n : ℕ) (s : IndexState) (bs : List KeyBlockDescriptor)
    (s' : IndexState) : Type 0 where
  pub covers : CoversKeys bs s.entry_start_index s'.entry_start_index
  pub laid_out : KeysLaidOut limits bs s.comp_offset s'.comp_offset
  pub counted : length bs ≡ n

KeyRowsPost : Limits → ℕ → IndexState → Result (List KeyBlockDescriptor × IndexState) → Type 0
KeyRowsPost limits n s (err e) = Unit {0}
KeyRowsPost limits n s (ok (bs, s')) = KeyRows limits n s bs s'

module _ (codecs : LegacyCodecs) (g : Grammar) (encoding : TextEncoding) (limits : Limits) where
  index_row-KeyRowPost :
      (s : IndexState) → KeyRowPost limits s (index_row codecs g encoding limits s)
  unfolding index_row KeyRowPost
  index_row-KeyRowPost s = ground arith

  rows_cons :
      (n : ℕ) (s s1 : IndexState) (b : KeyBlockDescriptor)
      (r : Result (List KeyBlockDescriptor × IndexState))
      → KeyStep limits s b s1
      → KeyRowsPost limits n s1 r
      → KeyRowsPost limits (suc n) s (r >>= λ p. ok (b ∷ p.0, p.1))
  unfolding KeyRowsPost
  rows_cons n s s1 b (err e) st h = tt
  rows_cons n s s1 b (ok (bs, s')) st h = record {
    covers = (st.from, subst (λ k. CoversKeys bs k s'.entry_start_index) st.entries h.covers);
    laid_out = (
      st.at,
      st.some_entry,
      st.entry_limit,
      st.envelope,
      st.comp_limit,
      st.decomp_limit,
      subst (λ k. KeysLaidOut limits bs k s'.comp_offset) st.comp h.laid_out,
    );
    counted = omega arith;
  }

  rows_step :
      (n : ℕ) (s : IndexState) (r : Result (KeyBlockDescriptor × IndexState))
      → KeyRowPost limits s r
      → ((s1 : IndexState)
          → s1.entry_start_index ≤ u64_max
          → KeyRowsPost limits n s1 (index_rows codecs g encoding limits n s1))
      → KeyRowsPost limits
          (suc n)
          s
          (r >>= λ p. index_rows codecs g encoding limits n p.1 >>= λ q. ok (p.0 ∷ q.0, q.1))
  unfolding KeyRowPost KeyRowsPost
  rows_step n s (err e) st h = tt
  rows_step n s (ok (b, s1)) st h = rows_cons n s s1 b _ st (h s1 st.small)

  index_rows-KeyRowsPost :
      (n : ℕ) (s : IndexState)
      → s.entry_start_index ≤ u64_max
      → KeyRowsPost limits n s (index_rows codecs g encoding limits n s)
  unfolding index_rows KeyRowsPost
  index_rows-KeyRowsPost zero s m = record { covers = (refl, m); laid_out = refl; counted = refl }
  index_rows-KeyRowsPost (suc n) s m =
      rows_step n s (index_row codecs g encoding limits s) (index_row-KeyRowPost s)
        (index_rows-KeyRowsPost n)

  abbrev first_state : List ℕ → ℕ → IndexState
  first_state bytes offset = record {
    cursor = record { bytes = bytes; offset = 0 };
    comp_offset = offset;
    entry_start_index = 0;
  }

  accepted :
      (bytes : List ℕ) (n offset : ℕ) (blocks : List KeyBlockDescriptor)
      (r : Result (List KeyBlockDescriptor × IndexState))
      → index_rows codecs g encoding limits n (first_state bytes offset) ≡ r
      → parse_keyword_index_entries codecs g encoding limits bytes n offset ≡ ok blocks
      → KeyRowsPost limits n (first_state bytes offset) r
      → (stop total : ℕ) × CoversKeys blocks 0 total
        × KeysLaidOut limits blocks offset stop
        × (length blocks ≡ n)
  unfolding parse_keyword_index_entries KeyRowsPost
  accepted bytes n offset blocks (err x) e h post = absurd (ground arith)
  accepted bytes n offset blocks (ok (bs, s')) e h post =
      let same : bs ≡ blocks = ground arith in
      (
        s'.comp_offset,
        s'.entry_start_index,
        rw same at post.covers,
        rw same at post.laid_out,
        rw same at post.counted,
      )

  parsed :
      (bytes : List ℕ) (n offset : ℕ) (blocks : List KeyBlockDescriptor)
      → parse_keyword_index_entries codecs g encoding limits bytes n offset ≡ ok blocks
      → (stop total : ℕ) × CoversKeys blocks 0 total
        × KeysLaidOut limits blocks offset stop
        × (length blocks ≡ n)
  unfolding parse_keyword_index_entries
  parsed bytes n offset blocks h =
      accepted bytes n offset blocks _ refl h
        (index_rows-KeyRowsPost n (first_state bytes offset) (omega arith))

covered_total :
    (b : KeyBlockDescriptor) (bs : List KeyBlockDescriptor) (start total : ℕ)
    → CoversKeys (b ∷ bs) start total
    → entries_end (b ∷ bs) ≡ ok total
unfolding entries_end
covered_total b [] start total h = ground arith
covered_total b (b' ∷ bs) start total h = covered_total b' bs (start + b.entry_count) total h.1

summed :
    (limits : Limits) (bs : List KeyBlockDescriptor) (acc sum start stop : ℕ)
    → sum_sizes bs acc ≡ some sum
    → KeysLaidOut limits bs start stop
    → stop + acc ≡ start + sum
unfolding sum_sizes checked_add
summed limits [] acc sum start stop e h = ground arith
summed limits (b ∷ bs) acc sum start stop e h =
    ground (arith, summed limits bs (acc + b.comp_size) sum (start + b.comp_size) stop)

totals :
    (limits : Limits) (bs : List KeyBlockDescriptor) (num_entries len start stop total : ℕ)
    → check_totals bs num_entries len ≡ ok tt
    → CoversKeys bs 0 total
    → KeysLaidOut limits bs start stop
    → (total ≡ num_entries) × (stop ≡ start + len)
unfolding check_totals entries_end sum_sizes
totals limits [] num_entries len start stop total e c h = ground arith
totals limits (b ∷ bs) num_entries len start stop total e c h =
    ground (arith, covered_total b bs 0 total c, summed limits (b ∷ bs) 0 len start stop)

-- A keyword index of either version that is accepted, and whose totals agree with the header, has as
-- many blocks as declared; they number the entries from 0 to the declared count without a gap, lie
-- one behind the other over exactly the declared length, and each has an entry at least and sizes
-- within the limits.
pub parse_keyword_index_entries-CoversKeys :
    (codecs : LegacyCodecs) (g : Grammar) (encoding : TextEncoding) (limits : Limits)
    (bytes : List ℕ) (n offset num_entries len : ℕ) (blocks : List KeyBlockDescriptor)
    → parse_keyword_index_entries codecs g encoding limits bytes n offset ≡ ok blocks
    → check_totals blocks num_entries len ≡ ok tt
    → CoversKeys blocks 0 num_entries
      × KeysLaidOut limits blocks offset (offset + len)
      × (length blocks ≡ n)
parse_keyword_index_entries-CoversKeys codecs g encoding limits bytes n offset num_entries len
      blocks h t =
    let (stop, total, covers, laid_out, counted) =
      parsed codecs g encoding limits bytes n offset blocks h in
    let same = totals limits blocks num_entries len offset stop total t covers laid_out in
    (rw same.0 at covers, rw same.1 at laid_out, counted)
