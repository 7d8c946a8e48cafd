-- ===== src/Lib.antt =====
-- mdictlib reads MDict dictionaries: MDX files of texts and MDD files of resources, of the wire
-- versions 1 and 2. A file is a header, a keyword section (an index of compressed key blocks) and a
-- record section (an index of compressed record blocks). Opening validates the geometry of both
-- sections; keys and records are read lazily, through one-block caches, within limits and a memory
-- budget.
--
-- The files and the code that they model, under src/ of the repository:
--   Error              error.rs, the enum KeyIndexRejection of index.rs, and the `?` operator
--   Limits             limits.rs (checks and conversions), format/common/checked.rs
--   Budget             limits.rs: MemoryBudget and MemoryReservation; Budget/Memory the computations that
--                      reserve and release in scopes; Budget/Implements what such a computation returns
--                      unless the budget is exhausted, Budget/Accounts what it keeps reserved,
--                      Budget/Peak how far it raises the peak;
--                      Budget/Threads all interleavings of threads
--   Bytes, Cursor      format/common/cursor.rs
--   Checksum           format/common/checksum.rs
--   Source             format/common/source.rs
--   Descriptors        format/common/descriptors.rs: the layout, its verification, find_record_block
--   RecordSection      format/v1/record.rs and format/v2/record.rs: the two parsers are one here, over the
--                      width of the fields (`Wire`)
--   Compression        format/common/compression.rs
--   Encoding           format/common/encoding.rs
--   KeyRows            decode_key_rows of format/v1/keyword.rs and format/v2/keyword.rs
--   KeywordIndex       the keyword index of the same files
--   CaseVariants       core/case_variants.rs
--   Normalize          core/normalize.rs: the normal forms of a key
--   Bits, Crypto       format/common/crypto.rs; Crypto/Keyword format/v2/crypto.rs, and Passcode of
--                      types.rs;
--                      Crypto/Salsa the specification of Salsa20 by rows and transpositions
--   Texts, Header      format/common/header.rs; Header/Metadata types.rs: Header
--   Versions           format/mod.rs: the declared versions and the grammar
--   KeywordSection     parse_keyword_section of format/v1/keyword.rs and format/v2/keyword.rs
--   Opening            format/mod.rs: open_layout, and parse_layout of format/v1/mod.rs and format/v2/mod.rs;
--                      Opening/File core/mod.rs: MdictFile::open
--   KeyBlocks          core/keys.rs: decode_key_block with its cache
--   KeySearch          core/keys.rs: find_key_block_by_ordinal
--   KeyEntries         core/keys.rs: key_entry_at_ordinal and key_at_ordinal, over any decode_key_block
--   Iteration          core/iter.rs: KeyIter, over any decode_key_block
--   Locator            core/locator.rs: the range search of the sorted index, and the digest of a key
--   FileUrl            format/common/file_url.rs
--   IndexFormat        core/persistent/format.rs: the layout of the sections and its validation
--   Failure            core/mod.rs: CachedFailure
--   RecordSpans        core/records.rs: the span at an ordinal, over any decode_key_block
--   Effect, Records    core/records.rs: spans, the traversal of blocks, and the block cache
--   Prelude            lists and tests over the native numbers
--   Tests              concrete runs
--
-- State: the budget is the value `MemoryBudget`, passed on explicitly; an open file with its caches is
-- `ReadState` of Records/Cache and `KeyState` of KeyBlocks/Cache. Errors are values of `Result`; a `?`
-- is a bind. The file on disk does not change while it is read.
--
-- Bounds and fuel: u64 and usize are numbers below 2 ^ 64, so the target is a 64-bit one; checked and
-- wrapping operations are written out. The traversal of a span has `end - start` rounds of fuel, since
-- a round moves the cursor; the rows of a key block have the length of the block, since a row takes a
-- byte; the binary search has the number of blocks and one; the chunks of the checksum have the length
-- of the input; the searches in key blocks and in the sorted index have the length of the list and
-- one; a call of `next` has a round for each block that is left and one.
--
-- Parameters: inflate and LZO (`Codecs`), the legacy encodings (`LegacyCodecs`) and the lower-case
-- table of the standard library (`to_lowercase`).
--
-- Not modelled: failures of the allocator (the try_reserve helpers), poisoned mutexes, the texts that
-- Display makes (a message is kept as its template and arguments), the batched keys, RecordIter, the
-- construction of the sorted index and its queries, the rest of the persistent key index (codec, chunk
-- cache, queries, external sort, writer), and the public wrappers in mdx.rs, mdd.rs, types.rs and
-- lookup.rs. In record sections and key rows, the memory of the machine that decodes them is accounted
-- for where the code reserves it.
pub mod Prelude
pub mod Error
pub mod Limits
pub mod Bytes
pub mod Cursor
pub mod Bits
pub mod Budget
pub mod Crypto
pub mod Checksum
pub mod Source
pub mod Descriptors
pub mod RecordSection
pub mod Compression
pub mod Effect
pub mod Records
pub mod Failure
pub mod CaseVariants
pub mod IndexFormat
pub mod Locator
pub mod FileUrl
pub mod KeySearch
pub mod Texts
pub mod Header
pub mod Versions
pub mod KeyBlocks
pub mod KeyEntries
pub mod RecordSpans
pub mod Iteration
pub mod Normalize
pub mod Encoding
pub mod KeyRows
pub mod KeywordIndex
pub mod KeywordSection
pub mod Opening
pub mod Tests
