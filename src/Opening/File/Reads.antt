-- ===== src/Opening/File/Reads.antt =====
-- What is read behind an opening: the invariant of the key block cache holds from the opening on.
use mdictlib.Prelude.{ℕ, ◌≤◌, none, List, [], ◌∷◌, ◌≡◌, refl, arith}
use mdictlib.Error.{Result, ok, err, ok_then}
use mdictlib.Limits.{u64_max}
use mdictlib.Budget.{MemoryBudget}
use mdictlib.Budget
use mdictlib.Budget.Laws.{IsSound}
use mdictlib.Budget.Accounts.{Kept}
use mdictlib.Source.{FileSource}
use mdictlib.Descriptors.{Text}
use mdictlib.Compression.{Codecs}
use mdictlib.Encoding.{LegacyCodecs}
use mdictlib.Header.Metadata.{ContainerKind}
use mdictlib.KeywordSection.{OpenOptions}
use mdictlib.KeyBlocks.{KeyFile}
use mdictlib.KeyBlocks.Cache.{KeyState, decode_key_block}
use mdictlib.KeyBlocks.Cache.Consistent.{IsConsistent, Returns, decode_key_block-Returns}
use mdictlib.Opening.{OpenedLayout, open_layout, held_by_layout}
use mdictlib.Opening.Memory.{open_layout-Kept}
use mdictlib.Opening.File.{key_file_of, with_empty_cache, open_file, read_key_blocks}

read_key_blocks-IsConsistent :
    (file : KeyFile) (reads : List ℕ) (rest : ℕ) (s : KeyState)
    → IsConsistent file rest s
    → IsConsistent file rest (read_key_blocks file reads s)
unfolding read_key_blocks
read_key_blocks-IsConsistent file [] rest s c = c
read_key_blocks-IsConsistent file (index ∷ reads) rest s c =
    read_key_blocks-IsConsistent file reads rest (decode_key_block file index s).1
      (decode_key_block-Returns file index rest s c).1

new-IsSound : (limit : ℕ) → limit ≤ u64_max → IsSound (Budget.new limit) 0
unfolding Budget.new
new-IsSound limit small = record {
  machine = small;
  accounted = refl;
  within = omega arith;
  peaked = omega arith;
}

module _ (codecs : Codecs) (legacy : LegacyCodecs) (to_lowercase : ℕ → Text) (source : FileSource)
    (kind : ContainerKind) (options : OpenOptions) where
  -- The state behind an opening.
  abbrev pub Begins : OpenedLayout × KeyState → Type 0
  Begins opened =
      IsConsistent (key_file_of codecs legacy to_lowercase source kind options opened.0)
        (held_by_layout opened.0) opened.1

  begins :
      (p : Result OpenedLayout × MemoryBudget) (opened : OpenedLayout × KeyState)
      → Kept held_by_layout 0 p
      → with_empty_cache codecs legacy to_lowercase source kind options p ≡ ok opened
      → Begins opened
  unfolding Kept
  begins (ok l, b) opened k e =
      ok_then (l, record { memory = b; key_block_cache = none }) Begins
        (record { reflects = tt; sound = omega arith }) opened e
  begins (err x, b) opened k e = cc

-- From a file that was opened, within a limit of 64 bits: whatever key blocks were read since, in any
-- order and with any outcome, the next read returns the block as the file holds it, or an error of this
-- block or of one before it, or the budget is exhausted; and the budget accounts for the metadata of
-- the layout and the cached block, and nothing else.
pub open_file-Returns :
    (codecs : Codecs) (legacy : LegacyCodecs) (to_lowercase : ℕ → Text) (source : FileSource)
    (kind : ContainerKind) (options : OpenOptions) (layout : OpenedLayout) (s : KeyState)
    (reads : List ℕ) (index : ℕ)
    → options.limits.working_memory_bytes ≤ u64_max
    → open_file codecs legacy to_lowercase source kind options ≡ ok (layout, s)
    → (Returns
        (key_file_of codecs legacy to_lowercase source kind options layout)
        index
        (decode_key_block
          (key_file_of codecs legacy to_lowercase source kind options layout)
          index
          (read_key_blocks
            (key_file_of codecs legacy to_lowercase source kind options layout)
            reads
            s)).0)
      × IsConsistent
          (key_file_of codecs legacy to_lowercase source kind options layout)
          (held_by_layout layout)
          (read_key_blocks
            (key_file_of codecs legacy to_lowercase source kind options layout)
            reads
            s)
unfolding open_file
open_file-Returns codecs legacy to_lowercase source kind options layout s reads index small e =
    let file = key_file_of codecs legacy to_lowercase source kind options layout in
    let start =
      begins codecs legacy to_lowercase source kind options
        (open_layout codecs legacy source kind options
          (Budget.new options.limits.working_memory_bytes))
        (layout, s)
        (open_layout-Kept codecs legacy source kind options
          (Budget.new options.limits.working_memory_bytes) 0
          (new-IsSound options.limits.working_memory_bytes small))
        e in
    let now = read_key_blocks-IsConsistent file reads (held_by_layout layout) s start in
    (
      (decode_key_block-Returns file index (held_by_layout layout) (read_key_blocks file reads s)
          now).0,
      now,
    )
