-- ===== src/Compression/Laws.antt =====
-- What a decoded block is sure to be.
use mdictlib.Prelude.{ℕ, String, List, slice, ◌≡◌, arith}
use mdictlib.Error.{ok}
use mdictlib.Bytes.{from_be}
use mdictlib.Checksum.{adler32, verify_adler32}
use mdictlib.RecordSection.{Limits}
use mdictlib.Compression.{verify, Codecs, decode_block, is_skip}

-- Under `verify` a decoded block has the checksum that its envelope declares, whatever the codecs do.
pub decode_block-verified :
    (codecs : Codecs) (context : String) (block : List ℕ) (expected : ℕ) (limits : Limits)
    (bytes : List ℕ)
    → decode_block codecs context block expected limits verify ≡ ok bytes
    → adler32 bytes ≡ from_be (slice 4 8 block)
unfolding decode_block is_skip verify_adler32
decode_block-verified codecs context block expected limits bytes e = ground arith
