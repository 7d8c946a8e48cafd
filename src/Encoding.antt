-- ===== src/Encoding.antt =====
-- format/common/encoding.rs: the encodings of key text. `encoding_rs`, which decodes GBK, GB18030 and
-- Big5, is third-party code and stands as the fields of `LegacyCodecs`.
pub mod Labels
pub mod Split
use mdictlib.Prelude.{
  ℕ, suc, ◌+◌, ◌-◌, ◌*◌, ◌/◌, ◌%◌, ◌&&◌, ◌||◌, not, Option, none, some, List, [], ◌∷◌, ◌++◌, String,
  ltb, leb, ◌==◌, if◌then◌else◌, length, drop, slice,
}
use mathlib.Core.Option.{map as map_option}
use mdictlib.Error.{
  Result, ok, err, ◌>>=◌, ◌>>◌, ok_or, fail_if, invalid_format, invalid_data, decode_failed, str,
}
use mdictlib.Limits.{checked_add, checked_mul}
use mdictlib.Descriptors.{Text}

pub data TextEncoding : Type 0 where
  utf8 utf16_le gbk gb18030 big5 : TextEncoding

-- How a decoder of `encoding_rs` ends.
pub data DecoderResult : Type 0 where
  input_empty malformed output_full : DecoderResult

pub record LegacyCodecs : Type 0 where
  pub max_output : TextEncoding → ℕ → Option ℕ
  pub decode_to_string : TextEncoding → List ℕ → DecoderResult × ℕ × Text

unfoldable pub unit_size : TextEncoding → ℕ
unit_size utf16_le = 2
unit_size utf8 = 1
unit_size gbk = 1
unit_size gb18030 = 1
unit_size big5 = 1

-- What `from_utf8` knows between two bytes: how many continuation bytes are missing, the bits so
-- far, and the range of the next byte.
pub record Utf8State : Type 0 where
  pub missing : ℕ
  pub bits : ℕ
  pub low : ℕ
  pub high : ℕ

abbrev pub between : Utf8State
between = record { missing = 0; bits = 0; low = 128; high = 191 }

-- The state behind a first byte above 127.
unfoldable pub lead : ℕ → Option Utf8State
lead b =
    if ltb b 194
    then none
    else if ltb b 224
    then some (record { missing = 1; bits = b - 192; low = 128; high = 191 })
    else if b == 224
    then some (record { missing = 2; bits = 0; low = 160; high = 191 })
    else if b == 237
    then some (record { missing = 2; bits = 13; low = 128; high = 159 })
    else if ltb b 240
    then some (record { missing = 2; bits = b - 224; low = 128; high = 191 })
    else if b == 240
    then some (record { missing = 3; bits = 0; low = 144; high = 191 })
    else if ltb b 244
    then some (record { missing = 3; bits = b - 240; low = 128; high = 191 })
    else if b == 244
    then some (record { missing = 3; bits = 4; low = 128; high = 143 })
    else none

-- One byte: the next state, and the character that it completes.
unfoldable pub utf8_step : Utf8State → ℕ → Option (Utf8State × Text)
unfolding lead
utf8_step s b =
    if s.missing == 0
    then (if ltb b 128 then some (between, b ∷ []) else map_option (λ t. (t, [])) (lead b))
    else if not (leb s.low b && leb b s.high)
    then none
    else if s.missing == 1
    then some (between, (s.bits * 64 + (b - 128)) ∷ [])
    else some (
      record { missing = s.missing - 1; bits = s.bits * 64 + (b - 128); low = 128; high = 191 },
      [],
    )

-- `from_utf8`
unfoldable pub decode_utf8 : Utf8State → List ℕ → Option Text
unfolding utf8_step
decode_utf8 s [] = if s.missing == 0 then some [] else none
decode_utf8 s (b ∷ bs) = elim (utf8_step s b) [
  | none ↦ none
  | some step ↦ map_option (λ rest. step.1 ++ rest) (decode_utf8 step.0 bs)
]

-- `chunks_exact(2)` with `from_le_bytes`
unfoldable pub le_units : List ℕ → List ℕ
le_units [] = []
le_units (a ∷ []) = []
le_units (a ∷ b ∷ bs) = (a + 256 * b) ∷ le_units bs

-- `char::decode_utf16`
unfoldable pub decode_utf16 : List ℕ → Option Text
decode_utf16 [] = some []
decode_utf16 (u ∷ []) = if ltb u 55296 || leb 57344 u then some (u ∷ []) else none
decode_utf16 (u ∷ v ∷ us) =
    let single = decode_utf16 (v ∷ us) in
    let pair = decode_utf16 us in
    if ltb u 55296 || leb 57344 u
    then map_option (λ rest. u ∷ rest) single
    else if ltb u 56320 && (leb 56320 v && ltb v 57344)
    then map_option (λ rest. (65536 + (u - 55296) * 1024 + (v - 56320)) ∷ rest) pair
    else none

module _ (codecs : LegacyCodecs) where
  unfoldable pub max_encoding_rs_output : TextEncoding → ℕ → Result ℕ
  max_encoding_rs_output encoding input_len =
      ok_or (codecs.max_output encoding input_len) (invalid_format "decoded text length overflow")

  unfoldable pub max_decoded_len : TextEncoding → ℕ → Result ℕ
  unfolding checked_add checked_mul max_encoding_rs_output
  max_decoded_len utf8 input_len = ok input_len
  max_decoded_len utf16_le input_len = do
    bytes ← ok_or (checked_add input_len 1) (invalid_format "UTF-16 decoded length overflow")
    ok_or (checked_mul (bytes / 2) 3) (invalid_format "UTF-16 decoded length overflow")
  max_decoded_len gbk input_len = max_encoding_rs_output gbk input_len
  max_decoded_len gb18030 input_len = max_encoding_rs_output gb18030 input_len
  max_decoded_len big5 input_len = max_encoding_rs_output big5 input_len

  abbrev pub legacy_result : List ℕ → String → String → DecoderResult × ℕ × Text → Result Text
  legacy_result bytes context name (input_empty, read, output) =
      if read == length bytes
      then ok output
      else err (invalid_format "text decoder did not consume bounded input")
  legacy_result bytes context name (malformed, read, output) = err (decode_failed context name)
  legacy_result bytes context name (output_full, read, output) =
      err (invalid_format "text decoder did not consume bounded input")

  unfoldable pub decode_encoding_rs : TextEncoding → List ℕ → String → String → Result Text
  decode_encoding_rs encoding bytes context name = do
    _ ← max_encoding_rs_output encoding (length bytes)
    legacy_result bytes context name (codecs.decode_to_string encoding bytes)

  unfoldable pub decode_text : TextEncoding → List ℕ → String → Result Text
  unfolding decode_encoding_rs
  decode_text utf8 bytes context = ok_or (decode_utf8 between bytes) (decode_failed context "utf-8")
  decode_text utf16_le bytes context = do
    fail_if (not (length bytes % 2 == 0)) (decode_failed context "utf-16le")
    _ ← ok_or (checked_mul (length bytes / 2) 3) (invalid_format "UTF-16 decoded length overflow")
    ok_or (decode_utf16 (le_units bytes)) (decode_failed context "utf-16le")
  decode_text gbk bytes context = decode_encoding_rs gbk bytes context "gbk"
  decode_text gb18030 bytes context = decode_encoding_rs gb18030 bytes context "gb18030"
  decode_text big5 bytes context = decode_encoding_rs big5 bytes context "big5"

-- `position(|byte| *byte == 0)`
unfoldable pub zero_byte : List ℕ → Option ℕ
zero_byte [] = none
zero_byte (b ∷ bs) = if b == 0 then some 0 else map_option (λ i. suc i) (zero_byte bs)

-- The search of `[0, 0]` in `chunks_exact(2)`.
unfoldable pub zero_unit : List ℕ → Option ℕ
zero_unit [] = none
zero_unit (a ∷ []) = none
zero_unit (a ∷ b ∷ bs) = if a == 0 && b == 0 then some 0 else map_option (λ i. suc i) (zero_unit bs)

-- `bytes.get(offset..)`
unfoldable pub get_from : ℕ → List ℕ → Option (List ℕ)
get_from offset bytes = if leb offset (length bytes) then some (drop offset bytes) else none

unfoldable pub split_utf16 : List ℕ → ℕ → String → Result (List ℕ × ℕ)
unfolding get_from checked_mul checked_add
split_utf16 bytes offset context = do
  tail ← ok_or (get_from offset bytes) (invalid_format "terminated string offset overflow")
  unit_index ←
      ok_or (zero_unit tail) (invalid_data "missing UTF-16 terminator for {}" (str context ∷ []))
  relative ← ok_or (checked_mul unit_index 2) (invalid_format "terminated string length overflow")
  end ← ok_or (checked_add offset relative) (invalid_format "terminated string end overflow")
  next ← ok_or (checked_add end 2) (invalid_format "terminated string end overflow")
  ok (slice offset end bytes, next)

unfoldable pub split_bytes : List ℕ → ℕ → String → Result (List ℕ × ℕ)
unfolding get_from checked_add
split_bytes bytes offset context = do
  tail ← ok_or (get_from offset bytes) (invalid_format "terminated string offset overflow")
  rel ← ok_or (zero_byte tail) (invalid_data "missing terminator for {}" (str context ∷ []))
  end ← ok_or (checked_add offset rel) (invalid_format "terminated string end overflow")
  next ← ok_or (checked_add end 1) (invalid_format "terminated string end overflow")
  ok (slice offset end bytes, next)

unfoldable pub split_terminated : TextEncoding → List ℕ → ℕ → String → Result (List ℕ × ℕ)
split_terminated utf16_le bytes offset context = split_utf16 bytes offset context
split_terminated utf8 bytes offset context = split_bytes bytes offset context
split_terminated gbk bytes offset context = split_bytes bytes offset context
split_terminated gb18030 bytes offset context = split_bytes bytes offset context
split_terminated big5 bytes offset context = split_bytes bytes offset context
