-- ===== src/Tests/Layout.antt =====
-- The layout, the search, the cursor, the budget and the cached failures at concrete values.
use mdictlib.Prelude.{
  ℕ, List, [], ◌∷◌, ◌++◌, none, some, get_elem?, ◌≡◌, ◌↔◌, refl, arith, ◌+◌, length,
}
use mdictlib.Error.{Error, ok}
use mdictlib.Bytes.{to_be}
use mdictlib.Cursor.{Cursor, read_be}
use mdictlib.Cursor.Laws.{read_be-to_be}
use mdictlib.Budget.Laws.{IsSound}
use mdictlib.Budget.Threads.{Shared, idle, trying, Reach, here, more, load, Reach-IsSound}
use mdictlib.Budget.Threads.{IsSound as AllSound}
use mdictlib.Descriptors.{
  SectionRange, KeyBlockDescriptor, RecordBlockDescriptor, ValidatedLayout, verify,
  find_record_block,
}
use mdictlib.Descriptors.Verify.{IsCovering, CoversRecords, verify-IsCovering}
use mdictlib.Descriptors.Search.{Holds, find_record_block-some, find_record_block-none}
use mdictlib.Failure.{CachedFailure, CachedFailureKind, capture, replay}
use mdictlib.Failure.Laws.{IsTransient, capture-replay}
use mdictlib.Tests.Sample.{budget}

abbrev two_blocks : List RecordBlockDescriptor
two_blocks =
    record { comp_offset = 200; comp_size = 20; decomp_offset = 0; decomp_size = 30 }
    ∷ record { comp_offset = 220; comp_size = 25; decomp_offset = 30; decomp_size = 40 }
    ∷ []

abbrev key_block : KeyBlockDescriptor
key_block = record {
  entry_count = 3;
  entry_start_index = 0;
  first_key = 97 ∷ [];
  last_key = 99 ∷ [];
  comp_offset = 100;
  comp_size = 40;
  decomp_size = 60;
}

abbrev range : ℕ → ℕ → SectionRange
range offset len = record { offset = offset; len = len }

abbrev layout : ValidatedLayout
layout = record {
  sections = record {
    header = range 0 50;
    keyword_header = range 50 44;
    keyword_index = range 94 6;
    keyword_blocks = range 100 40;
    record_header = range 140 32;
    record_index = range 172 28;
    record_blocks = range 200 45;
  };
  total_entries = 3;
  total_decoded_record_len = 70;
  key_blocks = key_block ∷ [];
  record_blocks = two_blocks;
}

verify_example : (verify layout ≡ ok tt) ↔ IsCovering layout
verify_example = verify-IsCovering layout (omega arith)

blocks_cover : CoversRecords two_blocks 0 70
blocks_cover = (refl, (refl, (refl, omega arith)))

find_some_example :
    (k : ℕ) × (b : RecordBlockDescriptor) × (find_record_block two_blocks 35 ≡ some k)
    × (get_elem? two_blocks k ≡ some b)
    × Holds b 35
find_some_example = find_record_block-some two_blocks 70 35 blocks_cover (omega arith)

find_none_example : find_record_block two_blocks 70 ≡ none
find_none_example = find_record_block-none two_blocks 70 70 blocks_cover (omega arith)

abbrev seven : List ℕ
seven = 7 ∷ []

abbrev before_value : Cursor
before_value = record { bytes = seven ++ (to_be 2 300 ++ seven); offset = length seven }

read_be_example :
    read_be 2 "value" before_value ≡ ok (300, record before_value { offset = length seven + 2 })
read_be_example = read_be-to_be 2 300 "value" seven seven (omega arith) (omega arith)

abbrev two_threads : Shared
two_threads = record {
  max_bytes = 100;
  used = 40;
  peak = 60;
  threads = record { phase = idle; held = 40 } ∷ record { phase = idle; held = 0 } ∷ [];
}

abbrev one_trying : Shared
one_trying = record two_threads {
  threads = record { phase = idle; held = 40 } ∷ record { phase = trying 30 40; held = 0 } ∷ [];
}

one_step : Reach two_threads one_trying
one_step = more here (load 1 30 (record { phase = idle; held = 0 }) refl refl)

reach_example : AllSound one_trying
reach_example = Reach-IsSound (omega arith) one_step

abbrev kept : CachedFailure
kept = record { kind = CachedFailureKind.truncated "record block" 8 3; reserved = 0 }

capture_example :
    (replay kept ≡ Error.truncated "record block" 8 3)
    × (¬ IsTransient (Error.truncated "record block" 8 3))
    × IsSound budget (0 + kept.reserved)
unfolding capture
capture_example =
    capture-replay (Error.truncated "record block" 8 3) budget 0 kept budget (omega arith) refl
