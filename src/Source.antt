-- ===== src/Source.antt =====
-- format/common/source.rs: reads from the dictionary file. `len` is the length at the time of opening,
-- and `content` is what the file holds when it is read, which may have changed.
pub mod Laws
use mdictlib.Prelude.{ℕ, ◌+◌, ◌-◌, String, List, ltb, leb, ◌==◌, if◌then◌else◌, length, slice}
use mdictlib.Error.{Result, ok, err, ◌>>=◌, ◌>>◌, fail_if, ok_or, invalid_format, truncated, io}
use mdictlib.Limits.{checked_add, checked_u64}

pub record FileSource : Type 0 where
  pub content : List ℕ
  pub len : ℕ

-- `FileSource::open` of a file that could be opened.
unfoldable pub open_source : List ℕ → Result FileSource
open_source content =
    if length content == 0
    then err (invalid_format "empty input file")
    else ok (record { content = content; len = length content })

unfoldable pub ensure_range : FileSource → ℕ → ℕ → String → Result (Unit {0})
unfolding checked_add
ensure_range source offset len context = do
  end ← ok_or (checked_add offset len) (invalid_format "source range overflow")
  fail_if (ltb source.len end) (truncated context len (source.len - offset))

-- `seek` and `read_exact` of the file as it is now.
unfoldable pub read_file : List ℕ → ℕ → ℕ → Result (List ℕ)
read_file content offset len =
    if leb (offset + len) (length content) then ok (slice offset (offset + len) content) else err io

unfoldable pub read_exact_at : FileSource → ℕ → ℕ → String → Result (List ℕ)
unfolding checked_u64 ensure_range read_file
read_exact_at source offset len context = do
  len_u64 ← checked_u64 len context
  ensure_range source offset len_u64 context
  read_file source.content offset len
