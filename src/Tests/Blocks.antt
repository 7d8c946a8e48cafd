-- ===== src/Tests/Blocks.antt =====
-- The cache of key blocks over a file of three blocks, of which the second is out of order.
use mdictlib.Prelude.{ℕ, List, [], ◌∷◌, ◌++◌, none, some, false, ◌≡◌, refl, arith}
use mdictlib.Error.{err, num, ok}
use mdictlib.Budget.{claim, attempt, release}
use mdictlib.Descriptors.{KeyBlockDescriptor}
use mdictlib.RecordSection.{v1_wire, read_field}
use mdictlib.Encoding.{
  utf8, max_decoded_len, split_terminated, decode_text, decode_utf8, lead, split_bytes, get_from,
  utf8_step, zero_byte,
}
use mdictlib.Compression.{
  skip, decode_block, decode_payload, decode_uncompressed_block, is_skip, parse_comp_type,
}
use mdictlib.Failure.{
  CachedFailure, failed, replay, capture, capture_text, message_len, args_len, arg_len, digits_of,
}
use mdictlib.Failure.{CachedFailureKind}
use mdictlib.KeyRows.{decode_key_rows, key_rows, key_row, check_order, read_key, check_count}
use mdictlib.KeyBlocks.{
  KeyFile, DecodedKeyBlock, plan_block, fetch_rows, boundary, first_row, last_row, same_summary,
  summary_memory, block_entries, check_summary,
}
use mdictlib.KeyBlocks.Cache.{
  KeyState, decode_key_block, check_first, last_start, load_block, decode_key_block_uncached,
  key_summary_matches,
}
use mdictlib.KeyBlocks.Cache.Consistent.{fresh, IsConsistent, Returns, decode_key_block-Returns}
use mdictlib.KeyRows.Accepted.{Ascending}
use mdictlib.KeyBlocks.Cache.Ordered.{decode_key_block-Ascending, rows_of}
use mdictlib.KeyBlocks.Cache.Inherits.{decode_key_block-inherits}
use mdictlib.Tests.Sample.{limits, codecs, source_of}
use mdictlib.Tests.Keys.{legacy}
use mdictlib.Limits.{
  checked_usize, checked_add, checked_mul, checked_sub, checked_u64, ensure_usize_limit,
}
use mdictlib.Source.{read_exact_at, ensure_range, read_file}
use mdictlib.Cursor.{is_empty, get_range, read_be, read_bytes, remaining}
use mdictlib.Bytes.{from_be, from_le}
use mdictlib.CaseVariants.{ascii_lower, equal_texts}
use mdictlib.Normalize.{
  add_len, len_utf8, normalize, normalize_into, normalize_loop, normalized_len, normalized_len_loop,
  push_len, push_text, retains, separated, skips,
}
use mdictlib.Budget.Memory.{◌>>=◌, lift, with_reserved}
use mdictlib.Budget.Implements.{with_retained}

-- One row with the key "a".
abbrev block_of : ℕ → List ℕ
block_of start = 0 ∷ 0 ∷ 0 ∷ 0 ∷ 0 ∷ 0 ∷ 0 ∷ 0 ∷ 0 ∷ 0 ∷ 0 ∷ start ∷ 97 ∷ 0 ∷ []

abbrev key_block_at : ℕ → ℕ → KeyBlockDescriptor
key_block_at index offset = record {
  entry_count = 1;
  entry_start_index = index;
  first_key = 97 ∷ [];
  last_key = 97 ∷ [];
  comp_offset = offset;
  comp_size = 14;
  decomp_size = 6;
}

abbrev key_file : KeyFile
key_file = record {
  source = source_of (block_of 5 ++ (block_of 3 ++ block_of 4));
  key_blocks = key_block_at 0 0 ∷ key_block_at 1 14 ∷ key_block_at 2 28 ∷ [];
  key_encoding = utf8;
  total_decoded_record_len = 10;
  wire = v1_wire;
  limits = limits;
  checksum_policy = skip;
  normalizer = record { case_sensitive = false; strip_profile = false; resource_path = false };
  codecs = codecs;
  legacy = legacy;
  to_lowercase = λ c. c ∷ [];
}

abbrev closed : KeyState
closed = record { memory = record { max_bytes = 1000; used = 0; peak = 0 }; key_block_cache = none }

closed-IsConsistent : IsConsistent key_file 0 closed
closed-IsConsistent = record {
  reflects = tt;
  sound = record {
    machine = omega arith;
    accounted = refl;
    within = omega arith;
    peaked = omega arith;
  };
}

decode_key_block_example :
    Returns key_file 2 (decode_key_block key_file 2 closed).0
    × IsConsistent key_file 0 (decode_key_block key_file 2 closed).1
decode_key_block_example = decode_key_block-Returns key_file 2 0 closed closed-IsConsistent

abbrev kept : CachedFailure
kept = record {
  kind =
      CachedFailureKind.invalid_data "record starts decrease across key blocks from {} to {}"
        (num 5 ∷ num 3 ∷ []);
  reserved = 52;
}

abbrev third_block : DecodedKeyBlock
third_block = record { entries = record { key = 97 ∷ []; record_start = 4 } ∷ []; reserved = 38 }

second_kept : (decode_key_block key_file 1 closed).1.key_block_cache ≡ some (1, failed kept)
unfolding decode_key_block load_block decode_key_block_uncached key_summary_matches ◌>>=◌ lift
    with_retained claim attempt release with_reserved capture capture_text message_len args_len
    arg_len digits_of plan_block checked_usize max_decoded_len fetch_rows read_exact_at decode_block
    decode_payload decode_key_rows key_rows is_empty key_row read_field from_be check_order read_key
    split_terminated from_le ascii_lower equal_texts decode_uncompressed_block is_skip
    parse_comp_type get_range read_be read_bytes remaining decode_text decode_utf8 lead split_bytes
    get_from utf8_step zero_byte boundary first_row last_row same_summary summary_memory check_count
    checked_add checked_mul checked_sub checked_u64 ensure_usize_limit add_len len_utf8 normalize
    normalize_into normalize_loop normalized_len normalized_len_loop push_len push_text retains
    separated skips ensure_range read_file check_first last_start
second_kept = refl

third_fresh : fresh key_file 2 ≡ ok third_block
unfolding fresh block_entries check_summary plan_block checked_usize max_decoded_len fetch_rows
    read_exact_at decode_block decode_payload decode_key_rows key_rows is_empty key_row read_field
    from_be check_order read_key split_terminated from_le ascii_lower equal_texts
    decode_uncompressed_block is_skip parse_comp_type get_range read_be read_bytes remaining
    decode_text decode_utf8 lead split_bytes get_from utf8_step zero_byte boundary first_row
    last_row same_summary summary_memory check_count checked_add checked_mul checked_sub checked_u64
    ensure_usize_limit add_len len_utf8 normalize normalize_into normalize_loop normalized_len
    normalized_len_loop push_len push_text retains separated skips ensure_range read_file
    check_first last_start
third_fresh = refl

inherits_example :
    (decode_key_block key_file 2 (decode_key_block key_file 1 closed).1).0 ≡ err (replay kept)
inherits_example =
    decode_key_block-inherits key_file 1 closed kept third_block second_kept third_fresh

-- A file of the same form in which the starts are in order.
abbrev ordered_file : KeyFile
ordered_file = record key_file { source = source_of (block_of 3 ++ (block_of 5 ++ block_of 5)) }

abbrev opened : KeyState
opened = record { memory = record { max_bytes = 1000; used = 0; peak = 0 }; key_block_cache = none }

opened-IsConsistent : IsConsistent ordered_file 0 opened
opened-IsConsistent = record {
  reflects = tt;
  sound = record {
    machine = omega arith;
    accounted = refl;
    within = omega arith;
    peaked = omega arith;
  };
}

abbrev row_at : ℕ → DecodedKeyBlock
row_at start = record {
  entries = record { key = 97 ∷ []; record_start = start } ∷ [];
  reserved = 38;
}

read_first : (decode_key_block ordered_file 0 opened).0 ≡ ok (row_at 3)
unfolding decode_key_block load_block decode_key_block_uncached key_summary_matches ◌>>=◌ lift
    with_retained claim attempt release with_reserved capture capture_text message_len args_len
    arg_len digits_of plan_block checked_usize max_decoded_len fetch_rows read_exact_at decode_block
    decode_payload decode_key_rows key_rows is_empty key_row read_field from_be check_order read_key
    split_terminated from_le ascii_lower equal_texts decode_uncompressed_block is_skip
    parse_comp_type get_range read_be read_bytes remaining decode_text decode_utf8 lead split_bytes
    get_from utf8_step zero_byte boundary first_row last_row same_summary summary_memory check_count
    checked_add checked_mul checked_sub checked_u64 ensure_usize_limit add_len len_utf8 normalize
    normalize_into normalize_loop normalized_len normalized_len_loop push_len push_text retains
    separated skips ensure_range read_file check_first last_start
read_first = refl

read_second :
    (decode_key_block ordered_file 1 (decode_key_block ordered_file 0 opened).1).0 ≡ ok (row_at 5)
unfolding decode_key_block load_block decode_key_block_uncached key_summary_matches ◌>>=◌ lift
    with_retained claim attempt release with_reserved capture capture_text message_len args_len
    arg_len digits_of plan_block checked_usize max_decoded_len fetch_rows read_exact_at decode_block
    decode_payload decode_key_rows key_rows is_empty key_row read_field from_be check_order read_key
    split_terminated from_le ascii_lower equal_texts decode_uncompressed_block is_skip
    parse_comp_type get_range read_be read_bytes remaining decode_text decode_utf8 lead split_bytes
    get_from utf8_step zero_byte boundary first_row last_row same_summary summary_memory check_count
    checked_add checked_mul checked_sub checked_u64 ensure_usize_limit add_len len_utf8 normalize
    normalize_into normalize_loop normalized_len normalized_len_loop push_len push_text retains
    separated skips ensure_range read_file check_first last_start
read_second = refl

ascending_example : Ascending 10 none (rows_of ordered_file (row_at 3 ∷ row_at 5 ∷ []))
ascending_example = decode_key_block-Ascending ordered_file 0 (row_at 3 ∷ row_at 5 ∷ []) (
  (0, opened, opened-IsConsistent, read_first),
  (
    (
      0,
      (decode_key_block ordered_file 0 opened).1,
      (decode_key_block-Returns ordered_file 0 0 opened opened-IsConsistent).1,
      read_second,
    ),
    tt,
  ),
)
