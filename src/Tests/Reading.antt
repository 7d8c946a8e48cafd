-- ===== src/Tests/Reading.antt =====
-- The reading of the sample.
use mdictlib.Prelude.{
  ℕ, zero, suc, List, [], ◌∷◌, some, get_elem?, ◌≡◌, refl, ap, ◌∙◌, arith, slice, length, ◌+◌, ◌*◌,
  max, true,
}
use mdictlib.Error.{ok}
use mdictlib.Limits.{checked_usize}
use mdictlib.Bytes.{from_be}
use mdictlib.Checksum.{adler32, verify_adler32}
use mdictlib.Checksum.Blocks.{bytewise_adler32, adler32-bytewise}
use mdictlib.Budget.{claim, release}
use mdictlib.Budget.Memory.{with_reserved, lift, ◌>>=◌}
use mdictlib.Budget.Laws.{IsSound}
use mdictlib.Source.{read_exact_at, ensure_range, read_file}
use mdictlib.RecordSection.{
  parse_record_index, record_rows, record_row, check_record_end, read_record_header,
  validate_record_header, v1_wire, v2_wire,
}
use mdictlib.RecordSection.Parse.{
  parse_record_section_at, reserve_record_index, read_record_index, RecordSection,
  parse_v1_record_section, parse_v2_record_section,
}
use mdictlib.RecordSection.Shape.{
  IsSection, parse_v1_record_section-IsSection, parse_v2_record_section-IsSection,
}
use mdictlib.Compression.{decode_block, decode_payload, is_skip, verify, zlib, Codecs}
use mdictlib.Compression.RoundTrip.{write_block, judged, decode_block-write_block}
use mdictlib.RecordSection.Peak.{parse_record_section_at-peak}
use mdictlib.Compression.Laws.{decode_block-verified}
use mdictlib.Records.File.{fetch_block, block_contents}
use mdictlib.Records.Cache.{decode_record_block, read_record_span}
use mdictlib.Records.Cache.Transparent.{IsConsistent, Matches, decode_record_block-Matches}
use mdictlib.Records.Cache.Read.{IsReadable, ReadOutcome, read_record_span-ReadOutcome}
use mdictlib.Tests.Sample.{
  limits, payload, block, v1_content, v2_content, source_of, block_at, codecs, budget, file, fresh,
}

abbrev v1_section : RecordSection
v1_section = record {
  num_entries = 1;
  total_decompressed_len = 3;
  blocks = block_at 24 ∷ [];
  retained_bytes = 32;
  sections = record {
    header = record { offset = 0; len = 16 };
    index = record { offset = 16; len = 8 };
    blocks = record { offset = 24; len = 11 };
  };
}

abbrev v2_section : RecordSection
v2_section = record {
  num_entries = 1;
  total_decompressed_len = 3;
  blocks = block_at 48 ∷ [];
  retained_bytes = 32;
  sections = record {
    header = record { offset = 0; len = 32 };
    index = record { offset = 32; len = 16 };
    blocks = record { offset = 48; len = 11 };
  };
}

budget-IsSound : IsSound budget 0
budget-IsSound = omega arith

v1_parsed : (parse_v1_record_section (source_of v1_content) 0 limits budget).0 ≡ ok v1_section
unfolding parse_v1_record_section parse_record_section_at reserve_record_index read_record_index
    parse_record_index record_rows record_row check_record_end read_record_header
    validate_record_header with_reserved lift ◌>>=◌ claim release read_exact_at ensure_range
    read_file from_be
v1_parsed = refl

v2_parsed : (parse_v2_record_section (source_of v2_content) 0 limits budget).0 ≡ ok v2_section
unfolding parse_v2_record_section parse_record_section_at reserve_record_index read_record_index
    parse_record_index record_rows record_row check_record_end read_record_header
    validate_record_header with_reserved lift ◌>>=◌ claim release read_exact_at ensure_range
    read_file from_be
v2_parsed = refl

parse_v1_example : IsSection v1_wire (source_of v1_content) limits 0 v1_section
parse_v1_example =
    parse_v1_record_section-IsSection (source_of v1_content) 0 limits budget v1_section v1_parsed

parse_v2_example : IsSection v2_wire (source_of v2_content) limits 0 v2_section
parse_v2_example =
    parse_v2_record_section-IsSection (source_of v2_content) 0 limits budget v2_section v2_parsed

parsed_at :
    (parse_record_section_at v1_wire (source_of v1_content) 0 limits budget).0 ≡ ok v1_section
unfolding parse_v1_record_section
parsed_at = v1_parsed

parse_peak_example :
    ((parse_record_section_at v1_wire (source_of v1_content) 0 limits budget).1.peak
      ≡ max budget.peak (0 + (16 + length v1_section.blocks * (8 + 32))))
    × IsSound (parse_record_section_at v1_wire (source_of v1_content) 0 limits budget).1 0
parse_peak_example =
    parse_record_section_at-peak v1_wire (source_of v1_content) 0 limits budget 0 v1_section
      budget-IsSound parsed_at

-- Codecs whose streams are their content.
abbrev storing : Codecs
storing = record {
  inflate = λ ignore bytes len. record {
    done = true;
    input_read = length bytes;
    actual = length bytes;
    output = bytes;
  };
  lzo_feature = true;
  lzo_decompress = λ bytes len. some (length bytes, bytes);
}

write_block_example :
    decode_block storing "record block" (write_block zlib 6750269 payload) 3 limits verify
    ≡ judged "record block" verify 6750269 payload
write_block_example =
    decode_block-write_block storing zlib "record block" 6750269 payload payload limits verify
      (λ _. refl) (omega arith) (omega arith) (omega arith)

decoded : decode_block codecs "record block" block 3 limits verify ≡ ok payload
unfolding decode_block decode_payload verify_adler32 adler32 is_skip from_be checked_usize
decoded = refl

decode_verified_example : adler32 payload ≡ from_be (slice 4 8 block)
decode_verified_example = decode_block-verified codecs "record block" block 3 limits payload decoded

bytewise_example : adler32 payload ≡ bytewise_adler32 payload
bytewise_example = adler32-bytewise payload (omega arith)

sample_block : block_contents file 0 ≡ ok payload
unfolding block_contents fetch_block read_exact_at ensure_range read_file decode_block
    decode_payload verify_adler32 adler32 is_skip from_be checked_usize
sample_block = refl

sample_decodes :
    (k : ℕ) (c : List ℕ) → get_elem? (payload ∷ []) k ≡ some c → block_contents file k ≡ ok c
sample_decodes zero c e = let same : payload ≡ c = cc in sample_block ∙ ap (λ t. ok t) same
sample_decodes (suc k) c e = cc

sample-IsReadable : IsReadable file (payload ∷ [])
sample-IsReadable = record { covers = omega arith; contents = (refl, tt); decodes = sample_decodes }

fresh_consistent : IsConsistent file 0 fresh
fresh_consistent = record { reflects = tt; sound = budget-IsSound }

read_record_span_example : ReadOutcome file (payload ∷ []) 1 3 0 (read_record_span file 1 3 fresh)
read_record_span_example =
    read_record_span-ReadOutcome file (payload ∷ []) sample-IsReadable 1 3 0 fresh (omega arith)
      (omega arith) (omega arith) (omega arith) (omega arith) fresh_consistent

decode_record_block_example :
    Matches (block_contents file 0) (decode_record_block file 0 fresh).0
    × IsConsistent file 0 (decode_record_block file 0 fresh).1
decode_record_block_example = decode_record_block-Matches file 0 0 fresh fresh_consistent
