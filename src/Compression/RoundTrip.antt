-- ===== src/Compression/RoundTrip.antt =====
-- A block that was written in the envelope of the format is decoded, and its checksum decides whether the
-- verifying policy accepts it.
use mdictlib.Prelude.{
  ℕ, ◌+◌, ◌≤◌, ◌<◌, ◌^◌, Bool, true, false, some, String, List, [], ◌∷◌, ◌++◌, ◌==◌, if◌then◌else◌,
  length, take, drop, slice, ◌≡◌, refl, arith,
}
use mdictlib.Error.{◌>>=◌, Error, Result, ok, err, checksum_mismatch, Error}
use mdictlib.Bytes.{to_be, from_be, from_be-to_be, to_le}
use mdictlib.Checksum.{adler32, verify_adler32}
use mdictlib.RecordSection.{Limits}
use mdictlib.Compression.{
  ChecksumPolicy, verify, skip, CompressionType, uncompressed, lzo, zlib, Codecs, decode_block,
  decode_payload, decode_zlib_block, decode_lzo_block, decode_uncompressed_block, parse_comp_type,
  is_skip, ltb,
}

abbrev pub tag_of : CompressionType → ℕ
tag_of uncompressed = 0
tag_of lzo = 1
tag_of zlib = 2

-- The tag, little-endian, the checksum, big-endian, and the payload.
abbrev pub write_block : CompressionType → ℕ → List ℕ → List ℕ
write_block method checksum payload = tag_of method ∷ 0 ∷ 0 ∷ 0 ∷ (to_be 4 checksum ++ payload)

-- The payload is the content in the form of the method: a stream of which the decoder, given the length
-- of the content, reads all and writes the content.
abbrev pub Encodes : Codecs → CompressionType → List ℕ → List ℕ → Type 0
Encodes codecs uncompressed payload content = payload ≡ content
Encodes codecs lzo payload content =
    (codecs.lzo_feature ≡ true)
    × (codecs.lzo_decompress payload (length content) ≡ some (length content, content))
Encodes codecs zlib payload content =
    (ignore : Bool)
    → codecs.inflate ignore payload (length content) ≡ record {
      done = true;
      input_read = length payload;
      actual = length content;
      output = content;
    }

at_most : {n m : ℕ} → n ≤ m → ltb m n ≡ false
at_most p = ground arith

verdict :
    (test : Bool) (content : List ℕ) (e : Error)
    → (if◌then◌else◌ {A = Result (Unit {0})} test (ok tt) (err e) >>= (λ _. ok content))
      ≡ (if test then ok content else err e)
verdict true content e = refl
verdict false content e = refl

same : (n : ℕ) → (n == n) ≡ true
same n = ground arith

decode_payload-Encodes :
    (codecs : Codecs) (method : CompressionType) (context : String) (payload content : List ℕ)
    (policy : ChecksumPolicy)
    → Encodes codecs method payload content
    → decode_payload codecs method context payload (length content) policy ≡ ok content
unfolding decode_payload decode_zlib_block decode_lzo_block decode_uncompressed_block
decode_payload-Encodes codecs uncompressed context payload content policy e =
    rw (e, same (length content)) refl
decode_payload-Encodes codecs lzo context payload content policy e =
    rw (e.0, e.1, same (length content)) refl
decode_payload-Encodes codecs zlib context payload content policy e =
    rw (e (is_skip policy), same (length payload), same (length content)) refl

parse_comp_type-tag_of :
    (method : CompressionType) → parse_comp_type (tag_of method ∷ 0 ∷ 0 ∷ 0 ∷ []) ≡ ok method
unfolding parse_comp_type
parse_comp_type-tag_of uncompressed = refl
parse_comp_type-tag_of lzo = refl
parse_comp_type-tag_of zlib = refl

-- The verdict of the policy on a content for which `checksum` was written.
abbrev pub judged : String → ChecksumPolicy → ℕ → List ℕ → Result (List ℕ)
judged context skip checksum content = ok content
judged context verify checksum content =
    if adler32 content == checksum
    then ok content
    else err (checksum_mismatch context checksum (adler32 content))

checksum_field :
    (checksum : ℕ) (payload : List ℕ)
    → checksum < 256 ^ 4
    → (from_be (take 4 (to_be 4 checksum ++ payload)) ≡ checksum)
      × (drop 4 (to_be 4 checksum ++ payload) ≡ payload)
unfolding to_be to_le
checksum_field checksum payload small = (from_be-to_be 4 checksum small, refl)

-- The steps of the decoder, with what each of them finds.
decode_block_steps :
    (codecs : Codecs) (method : CompressionType) (context : String) (block : List ℕ) (checksum : ℕ)
    (content : List ℕ) (limits : Limits) (policy : ChecksumPolicy)
    → 8 ≤ length block
    → length block ≤ limits.compressed_block_bytes
    → length content ≤ limits.decompressed_block_bytes
    → parse_comp_type (take 4 block) ≡ ok method
    → from_be (slice 4 8 block) ≡ checksum
    → decode_payload codecs method context (drop 8 block) (length content) policy ≡ ok content
    → decode_block codecs context block (length content) limits policy
      ≡ judged context policy checksum content
unfolding decode_block is_skip verify_adler32
decode_block_steps codecs method context block checksum content limits skip header fits room tag
      field decoded =
    rw (at_most header, at_most fits, at_most room, tag, decoded, same (length content)) refl
decode_block_steps codecs method context block checksum content limits verify header fits room tag
      field decoded =
    rw (at_most header, at_most fits, at_most room, tag, decoded, same (length content), field)
      (verdict (adler32 content == checksum) _ _)

-- A content in the envelope of the format, in any of the three forms and within the limits, is decoded to
-- itself under the skipping policy; under the verifying one, exactly when the checksum that was written is
-- its Adler-32, and else it is refused with both checksums.
pub decode_block-write_block :
    (codecs : Codecs) (method : CompressionType) (context : String) (checksum : ℕ)
    (payload content : List ℕ) (limits : Limits) (policy : ChecksumPolicy)
    → Encodes codecs method payload content
    → checksum < 256 ^ 4
    → 8 + length payload ≤ limits.compressed_block_bytes
    → length content ≤ limits.decompressed_block_bytes
    → decode_block codecs context
        (write_block method checksum payload)
        (length content)
        limits
        policy
      ≡ judged context policy checksum content
unfolding to_be to_le
decode_block-write_block codecs method context checksum payload content limits policy e small fits
      room =
    decode_block_steps codecs method context (write_block method checksum payload) checksum content
      limits policy (omega arith) (omega arith) room (parse_comp_type-tag_of method)
      (checksum_field checksum payload small).0
      (decode_payload-Encodes codecs method context payload content policy e)
