-- ===== src/KeyBlocks/Cache/Ordered.antt =====
-- The rows of consecutive key blocks, each read with whatever cache there was, are in order together.
use mathlib.Core.Path.{subst}
use mdictlib.Prelude.{
  ℕ, suc, ◌≤◌, Option, none, some, List, [], ◌∷◌, ◌++◌, ◌≡◌, refl, sym, ap, ◌∙◌, arith,
}
use mdictlib.Error.{Result, ok, err, ◌>>=◌}
use mdictlib.KeyRows.{DecodedKeyRow}
use mdictlib.KeyRows.Accepted.{Ascending, decode_any-Ascending}
use mdictlib.KeyBlocks.{
  KeyFile, DecodedKeyBlock, BlockPlan, first_row, last_row, plan_block, fetch_rows, boundary,
  block_entries, read_exact_at, decode_block,
}
use mdictlib.KeyBlocks.Cache.{KeyState, decode_key_block, check_first, last_start}
use mdictlib.KeyBlocks.Cache.Consistent.{
  fresh, fresh_entries, IsConsistent, Returns, decode_key_block-Returns,
}

-- The first part of a chain that succeeds.
bind-ok {ℓ κ} :
    {A : Type ℓ} {B : Type κ} (r : Result A) (f : A → Result B) (b : B)
    → (r >>= f) ≡ ok b
    → (a : A) × (r ≡ ok a) × (f a ≡ ok b)
bind-ok (ok a) f b e = (a, refl, e)
bind-ok (err x) f b e = cc

-- A bound on the first row that is not yet known.
Ascending_from :
    (total start : ℕ) (row : DecodedKeyRow) (rows more : List DecodedKeyRow)
    → first_row rows ≡ some row
    → start ≤ row.record_start
    → Ascending total none (rows ++ more)
    → Ascending total (some start) (rows ++ more)
unfolding first_row
Ascending_from total start row [] more f b h = cc
Ascending_from total start row (r ∷ rows) more f b h =
    let same : r ≡ row = cc in (rw same b, h.0, h.1)

Ascending-append :
    (total : ℕ) (previous : Option ℕ) (row : DecodedKeyRow) (rows more : List DecodedKeyRow)
    → last_row rows ≡ some row
    → Ascending total previous rows
    → Ascending total (some row.record_start) more
    → Ascending total previous (rows ++ more)
unfolding last_row
Ascending-append total previous row [] more l h m = cc
Ascending-append total none row (r ∷ []) more l h m = let same : r ≡ row = cc in (h.0, rw same m)
Ascending-append total (some p) row (r ∷ []) more l h m =
    let same : r ≡ row = cc in (h.0, h.1, rw same m)
Ascending-append total none row (r ∷ q ∷ rows) more l h m =
    (h.0, Ascending-append total (some r.record_start) row (q ∷ rows) more l h.1 m)
Ascending-append total (some p) row (r ∷ q ∷ rows) more l h m =
    (h.0, h.1, Ascending-append total (some r.record_start) row (q ∷ rows) more l h.2 m)

module _ (file : KeyFile) where
  abbrev pub total : ℕ
  total = file.total_decoded_record_len

  fetch_rows-Ascending :
      (plan : BlockPlan) (rows : List DecodedKeyRow)
      → fetch_rows file plan ≡ ok rows
      → Ascending total none rows
  unfolding fetch_rows
  fetch_rows-Ascending plan rows h =
      let read =
        bind-ok (read_exact_at file.source plan.block.comp_offset plan.comp_size "key block") _ rows
          h in
      let decoded =
        bind-ok
          (decode_block file.codecs "key block" read.0 plan.decomp_size file.limits
            file.checksum_policy)
          _ rows read.2 in
      (decode_any-Ascending file.legacy file.wire _ decoded.0 rows decoded.2).1

  -- A block that the file holds: rows in order, with a first and a last one.
  record IsBlock (block : DecodedKeyBlock) : Type 0 where
    ascending : Ascending total none block.entries
    first : DecodedKeyRow
    first_is : first_row block.entries ≡ some first
    last : DecodedKeyRow
    last_is : last_row block.entries ≡ some last

  boundary-some :
      (row : Option DecodedKeyRow) (found : DecodedKeyRow)
      → boundary file row ≡ ok found
      → row ≡ some found
  unfolding boundary
  boundary-some row found h = ground arith

  rows-IsBlock :
      (block : DecodedKeyBlock) (rows : List DecodedKeyRow) (first last : DecodedKeyRow)
      → rows ≡ block.entries
      → Ascending total none rows
      → first_row rows ≡ some first
      → last_row rows ≡ some last
      → IsBlock block
  rows-IsBlock block rows first last same a f l = record {
    ascending = subst (Ascending total none) same a;
    first = first;
    first_is = sym (ap first_row same) ∙ f;
    last = last;
    last_is = sym (ap last_row same) ∙ l;
  }

  block_entries-IsBlock :
      (index : ℕ) (block : DecodedKeyBlock) → block_entries file index ≡ ok block → IsBlock block
  unfolding block_entries
  block_entries-IsBlock index block h =
      let plan = bind-ok (plan_block file index) _ block h in
      let rows = bind-ok (fetch_rows file plan.0) _ block plan.2 in
      let first = bind-ok (boundary file (first_row rows.0)) _ block rows.2 in
      let last = bind-ok (boundary file (last_row rows.0)) _ block first.2 in
      let same : rows.0 ≡ block.entries = ground arith in
      rows-IsBlock block rows.0 first.0 last.0 same (fetch_rows-Ascending plan.0 rows.0 rows.1)
        (boundary-some _ first.0 first.1) (boundary-some _ last.0 last.1)

  -- The check between two blocks.
  fresh_order :
      (index : ℕ) (before block : DecodedKeyBlock) (last first : DecodedKeyRow)
      → block_entries file index ≡ ok before
      → fresh file (suc index) ≡ ok block
      → last_row before.entries ≡ some last
      → first_row block.entries ≡ some first
      → last.record_start ≤ first.record_start
  unfolding fresh last_start check_first boundary
  fresh_order index before block last first b h l f =
      let e = fresh_entries file (suc index) block h in ground arith

  -- The blocks from `index` on, each of which a reading has returned, from whatever sound state.
  abbrev pub Served : ℕ → List DecodedKeyBlock → Type 0
  Served index [] = Unit {0}
  Served index (block ∷ blocks) =
      ((rest : ℕ) × (s : KeyState) × IsConsistent file rest s
        × ((decode_key_block file index s).0 ≡ ok block))
      × Served (suc index) blocks

  abbrev pub rows_of : List DecodedKeyBlock → List DecodedKeyRow
  rows_of [] = []
  rows_of (block ∷ blocks) = block.entries ++ rows_of blocks

  returned_fresh :
      (index : ℕ) (block : DecodedKeyBlock) (r : Result DecodedKeyBlock)
      → r ≡ ok block
      → Returns file index r
      → fresh file index ≡ ok block
  returned_fresh index block (ok b) e h = h ∙ e
  returned_fresh index block (err x) e h = cc

  behind :
      (index : ℕ) (last : DecodedKeyRow) (before : DecodedKeyBlock) (blocks : List DecodedKeyBlock)
      → block_entries file index ≡ ok before
      → last_row before.entries ≡ some last
      → Served (suc index) blocks
      → Ascending total none (rows_of blocks)
      → Ascending total (some last.record_start) (rows_of blocks)
  behind index last before [] b l h a = tt
  behind index last before (block ∷ blocks) b l ((rest, s, good, e), h) a =
      let found =
        returned_fresh (suc index) block _ e
          (decode_key_block-Returns file (suc index) rest s good).0 in
      let block' =
        block_entries-IsBlock (suc index) block (fresh_entries file (suc index) block found) in
      Ascending_from total last.record_start block'.first block.entries (rows_of blocks)
        block'.first_is (fresh_order index before block last block'.first b found l block'.first_is)
        a

  -- The key blocks from any one on, each as `decode_key_block` returns it in some consistent state, whatever
  -- its cache holds: their rows, one block behind the other, have record starts that never decrease,
  -- across the ends of blocks too, and stay inside the decoded stream.
  pub decode_key_block-Ascending :
      (index : ℕ) (blocks : List DecodedKeyBlock)
      → Served index blocks
      → Ascending total none (rows_of blocks)
  decode_key_block-Ascending index [] h = tt
  decode_key_block-Ascending index (block ∷ blocks) ((rest, s, good, e), h) =
      let found =
        returned_fresh index block _ e (decode_key_block-Returns file index rest s good).0 in
      let entries = fresh_entries file index block found in
      let block' = block_entries-IsBlock index block entries in
      Ascending-append total none block'.last block.entries (rows_of blocks) block'.last_is
        block'.ascending
        (behind index block'.last block blocks entries block'.last_is h
          (decode_key_block-Ascending (suc index) blocks h))
