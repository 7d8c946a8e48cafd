-- ===== src/Compression.antt =====
-- format/common/compression.rs: the envelope of a compressed block. Inflate (miniz_oxide) and LZO (lzokay)
-- are third-party code and stand as the fields of `Codecs`.
pub mod Laws
pub mod RoundTrip
use mdictlib.Prelude.{
  ℕ, ◌-◌, String, Bool, true, false, ◌&&◌, not, Option, List, [], ◌∷◌, map, ltb, ◌==◌,
  if◌then◌else◌, length, take, drop, slice,
}
use mdictlib.Error.{Result, ok, err, ◌>>=◌, ◌>>◌, fail_if, ok_or, num, str, invalid_data, truncated}
use mdictlib.Limits.{ensure_usize_limit}
use mdictlib.Error.{unsupported}
use mdictlib.Bytes.{from_be}
use mdictlib.Checksum.{verify_adler32}
use mdictlib.RecordSection.{Limits}

pub data ChecksumPolicy : Type 0 where
  verify skip : ChecksumPolicy

pub data CompressionType : Type 0 where
  uncompressed lzo zlib : CompressionType

-- What `decompress` of miniz_oxide tells: whether its status is `Done`, how much it read and wrote,
-- and the output buffer.
pub record Inflated : Type 0 where
  pub done : Bool
  pub input_read : ℕ
  pub actual : ℕ
  pub output : List ℕ

-- `inflate ignore_adler32 payload len` and `decompress payload len` fill a buffer of `len` bytes;
-- `lzo_feature` is the cargo feature.
pub record Codecs : Type 0 where
  pub inflate : Bool → List ℕ → ℕ → Inflated
  pub lzo_feature : Bool
  pub lzo_decompress : List ℕ → ℕ → Option (ℕ × List ℕ)

unfoldable pub is_skip : ChecksumPolicy → Bool
is_skip verify = false
is_skip skip = true

-- The tag is little-endian 0, 1 or 2 in four bytes.
unfoldable pub parse_comp_type : List ℕ → Result CompressionType
parse_comp_type (a ∷ b ∷ c ∷ d ∷ []) =
    if b == 0 && (c == 0 && d == 0)
    then (if a == 0
        then ok uncompressed
        else if a == 1
        then ok lzo
        else if a == 2
        then ok zlib
        else err
            (invalid_data "unknown compression tag: {:02x?}" (num a ∷ num b ∷ num c ∷ num d ∷ [])))
    else err (invalid_data "unknown compression tag: {:02x?}" (num a ∷ num b ∷ num c ∷ num d ∷ []))
parse_comp_type bytes = err (invalid_data "unknown compression tag: {:02x?}" (map num bytes))

unfoldable pub decode_uncompressed_block : String → List ℕ → ℕ → Result (List ℕ)
decode_uncompressed_block context payload expected =
    if length payload == expected
    then ok payload
    else err (
        invalid_data "{} contains {} uncompressed bytes, expected {}"
          (str context ∷ num (length payload) ∷ num expected ∷ []))

module _ (codecs : Codecs) where
  unfoldable pub decode_zlib_block : String → List ℕ → ℕ → ChecksumPolicy → Result (List ℕ)
  unfolding is_skip
  decode_zlib_block context payload expected policy = do
    let run = codecs.inflate (is_skip policy) payload expected
    fail_if (not run.done) (invalid_data "invalid or oversized zlib block in {}" (str context ∷ []))
    fail_if (not (run.input_read == length payload)) (
        invalid_data "zlib block in {} has {} trailing compressed bytes"
          (str context ∷ num (length payload - run.input_read) ∷ []))
    fail_if (not (run.actual == expected)) (
        invalid_data "{} decompressed to {} bytes, expected {}"
          (str context ∷ num run.actual ∷ num expected ∷ []))
    ok run.output

  unfoldable pub decode_lzo_block : String → List ℕ → ℕ → Result (List ℕ)
  decode_lzo_block context payload expected =
      if codecs.lzo_feature
      then (do
        (actual, output) ←
            ok_or (codecs.lzo_decompress payload expected)
              (invalid_data "invalid lzo block in {}" (str context ∷ []))
        fail_if (not (actual == expected)) (
            invalid_data "{} decompressed to {} bytes, expected {}"
              (str context ∷ num actual ∷ num expected ∷ []))
        ok output)
      else err (unsupported "LZO compressed blocks (enable the `lzo` feature)")

  unfoldable pub decode_payload :
      CompressionType → String → List ℕ → ℕ → ChecksumPolicy → Result (List ℕ)
  unfolding decode_zlib_block decode_lzo_block decode_uncompressed_block
  decode_payload uncompressed context payload expected policy =
      decode_uncompressed_block context payload expected
  decode_payload zlib context payload expected policy =
      decode_zlib_block context payload expected policy
  decode_payload lzo context payload expected policy = decode_lzo_block context payload expected

  unfoldable pub decode_block : String → List ℕ → ℕ → Limits → ChecksumPolicy → Result (List ℕ)
  unfolding ensure_usize_limit parse_comp_type
  decode_block context block expected limits policy = do
    fail_if (ltb (length block) 8) (truncated context 8 (length block))
    ensure_usize_limit "compressed_block_bytes" (length block) limits.compressed_block_bytes
    ensure_usize_limit "decompressed_block_bytes" expected limits.decompressed_block_bytes
    comp_type ← parse_comp_type (take 4 block)
    let checksum = from_be (slice 4 8 block)
    decoded ← decode_payload comp_type context (drop 8 block) expected policy
    fail_if (not (length decoded == expected)) (
        invalid_data "{} decompressed to {} bytes, expected {}"
          (str context ∷ num (length decoded) ∷ num expected ∷ []))
    if is_skip policy then ok tt else verify_adler32 context decoded checksum
    ok decoded
