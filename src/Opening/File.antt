-- ===== src/Opening/File.antt =====
-- core/mod.rs: `MdictFile::open`, and the key blocks that are read from the file behind it.
pub mod Reads
use mdictlib.Prelude.{ℕ, none, List, [], ◌∷◌}
use mdictlib.Error.{Result, ok, err}
use mdictlib.Budget.{MemoryBudget}
use mdictlib.Budget
use mdictlib.Source.{FileSource}
use mdictlib.Descriptors.{Text}
use mdictlib.Compression.{Codecs}
use mdictlib.Encoding.{LegacyCodecs}
use mdictlib.Normalize.Profile.{from_header}
use mdictlib.Header.Metadata.{ContainerKind}
use mdictlib.KeywordSection.{OpenOptions}
use mdictlib.KeyBlocks.{KeyFile}
use mdictlib.KeyBlocks.Cache.{KeyState, decode_key_block}
use mdictlib.Opening.{OpenedLayout, open_layout}

module _ (codecs : Codecs) (legacy : LegacyCodecs) (to_lowercase : ℕ → Text) (source : FileSource)
    (kind : ContainerKind) (options : OpenOptions) where
  -- What reading key blocks needs of the file.
  unfoldable pub key_file_of : OpenedLayout → KeyFile
  key_file_of layout = record {
    source = source;
    key_blocks = layout.geometry.key_blocks;
    key_encoding = layout.key_encoding;
    total_decoded_record_len = layout.geometry.total_decoded_record_len;
    wire = layout.wire;
    limits = options.limits;
    checksum_policy = options.checksum_policy;
    normalizer = from_header layout.header kind;
    codecs = codecs;
    legacy = legacy;
    to_lowercase = to_lowercase;
  }

  abbrev pub with_empty_cache :
      Result OpenedLayout × MemoryBudget → Result (OpenedLayout × KeyState)
  with_empty_cache (ok layout, b) = ok (layout, record { memory = b; key_block_cache = none })
  with_empty_cache (err e, b) = err e

  -- `MdictFile::open` of a source that is open.
  unfoldable pub open_file : Result (OpenedLayout × KeyState)
  open_file = with_empty_cache (
      open_layout codecs legacy source kind options
        (Budget.new options.limits.working_memory_bytes))

-- A sequence of calls of `decode_key_block`.
unfoldable pub read_key_blocks : KeyFile → List ℕ → KeyState → KeyState
read_key_blocks file [] s = s
read_key_blocks file (index ∷ rest) s = read_key_blocks file rest (decode_key_block file index s).1
