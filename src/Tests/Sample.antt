-- ===== src/Tests/Sample.antt =====
-- A small record section of either version, with one uncompressed block of three bytes.
use mdictlib.Prelude.{ℕ, List, [], ◌∷◌, ◌++◌, false, none, length}
use mdictlib.Budget.{MemoryBudget}
use mdictlib.Source.{FileSource}
use mdictlib.Descriptors.{RecordBlockDescriptor}
use mdictlib.RecordSection.{Limits}
use mdictlib.Compression.{Codecs, verify}
use mdictlib.Records.File.{MdictFile}
use mdictlib.Records.Cache.{ReadState}

abbrev pub limits : Limits
limits = record {
  header_xml_bytes = 1000;
  header_attributes = 16;
  key_index_bytes = 1000;
  record_index_bytes = 1000;
  compressed_block_bytes = 1000;
  decompressed_block_bytes = 1000;
  block_metadata_bytes = 1000;
  key_block_entries = 1000;
  materialized_record_bytes = 1000;
  locator_entries = 1000;
  locator_bytes = 1000;
  working_memory_bytes = 1000;
}

abbrev pub payload : List ℕ
payload = 10 ∷ 20 ∷ 30 ∷ []

abbrev pub block : List ℕ
block = 0 ∷ 0 ∷ 0 ∷ 0 ∷ 0 ∷ 103 ∷ 0 ∷ 61 ∷ payload

abbrev pub v1_content : List ℕ
v1_content =
    (0 ∷ 0 ∷ 0 ∷ 1 ∷ 0 ∷ 0 ∷ 0 ∷ 1 ∷ 0 ∷ 0 ∷ 0 ∷ 8 ∷ 0 ∷ 0 ∷ 0 ∷ 11 ∷ [])
    ++ ((0 ∷ 0 ∷ 0 ∷ 11 ∷ 0 ∷ 0 ∷ 0 ∷ 3 ∷ []) ++ block)

abbrev pub v2_content : List ℕ
v2_content =
    (0 ∷ 0 ∷ 0 ∷ 0 ∷ 0 ∷ 0 ∷ 0 ∷ 1 ∷ 0 ∷ 0 ∷ 0 ∷ 0 ∷ 0 ∷ 0 ∷ 0 ∷ 1 ∷ [])
    ++ ((0 ∷ 0 ∷ 0 ∷ 0 ∷ 0 ∷ 0 ∷ 0 ∷ 16 ∷ 0 ∷ 0 ∷ 0 ∷ 0 ∷ 0 ∷ 0 ∷ 0 ∷ 11 ∷ [])
        ++ ((0 ∷ 0 ∷ 0 ∷ 0 ∷ 0 ∷ 0 ∷ 0 ∷ 11 ∷ 0 ∷ 0 ∷ 0 ∷ 0 ∷ 0 ∷ 0 ∷ 0 ∷ 3 ∷ []) ++ block))

abbrev pub source_of : List ℕ → FileSource
source_of content = record { content = content; len = length content }

abbrev pub block_at : ℕ → RecordBlockDescriptor
block_at offset = record {
  comp_offset = offset;
  comp_size = 11;
  decomp_offset = 0;
  decomp_size = 3;
}

-- No compressed block is decoded with these.
abbrev pub codecs : Codecs
codecs = record {
  inflate = λ ignore bytes len. record { done = false; input_read = 0; actual = 0; output = [] };
  lzo_feature = false;
  lzo_decompress = λ bytes len. none;
}

abbrev pub budget : MemoryBudget
budget = record { max_bytes = 1000; used = 0; peak = 0 }

abbrev pub file : MdictFile
file = record {
  source = source_of v2_content;
  record_blocks = block_at 48 ∷ [];
  total_decoded_record_len = 3;
  limits = limits;
  checksum_policy = verify;
  codecs = codecs;
}

abbrev pub fresh : ReadState
fresh = record { memory = budget; record_block_cache = none }
