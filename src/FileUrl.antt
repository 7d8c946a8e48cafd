-- ===== src/FileUrl.antt =====
-- format/common/file_url.rs: paths and `file://` URLs. A path is the list of its bytes; one that is not
-- valid UTF-8 has no `to_str`.
pub mod Decoding
use mdictlib.Prelude.{
  ℕ, zero, suc, ◌+◌, ◌-◌, ◌*◌, Bool, true, false, ◌&&◌, ◌||◌, not, Option, none, some, List, [],
  ◌∷◌, leb, ◌==◌, if◌then◌else◌, length, take, drop, get_elem?,
}
use mdictlib.Error.{Result, ok, ◌>>=◌, ◌>>◌, ok_or, fail_if, invalid_data, num}
use mdictlib.Prelude.{map}
use mdictlib.CaseVariants.{equal_texts, eq_ignore_ascii_case}
use mdictlib.Encoding.{between, decode_utf8}

-- `file://` and `localhost`
abbrev pub scheme : List ℕ
scheme = 102 ∷ 105 ∷ 108 ∷ 101 ∷ 58 ∷ 47 ∷ 47 ∷ []

abbrev pub localhost : List ℕ
localhost = 108 ∷ 111 ∷ 99 ∷ 97 ∷ 108 ∷ 104 ∷ 111 ∷ 115 ∷ 116 ∷ []

unfoldable pub hex_value : ℕ → Option ℕ
hex_value byte =
    if leb 48 byte && leb byte 57
    then some (byte - 48)
    else if leb 97 byte && leb byte 102
    then some (byte - 97 + 10)
    else if leb 65 byte && leb byte 70
    then some (byte - 65 + 10)
    else none

-- `bytes.get(index).copied().and_then(hex_value)`
unfoldable pub hex_at : List ℕ → ℕ → Option ℕ
hex_at bytes index = elim (get_elem? bytes index) [ none ↦ none | some byte ↦ hex_value byte ]

unfoldable pub escape : List ℕ → Result ℕ
escape digits = do
  high ← ok_or (hex_at digits 0) (invalid_data "file URL contains a malformed percent-escape" [])
  low ← ok_or (hex_at digits 1) (invalid_data "file URL contains a malformed percent-escape" [])
  ok (high * 16 + low)

-- The loop of `percent_decode`, on the bytes from `index` on; each round takes one of them at least.
unfoldable pub decode_loop : ℕ → List ℕ → Result (List ℕ)
decode_loop zero bytes = ok []
decode_loop (suc fuel) [] = ok []
decode_loop (suc fuel) (byte ∷ bytes) =
    let plain = decode_loop fuel bytes in
    let behind = decode_loop fuel (drop 2 bytes) in
    if not (byte == 37)
    then plain >>= (λ decoded. ok (byte ∷ decoded))
    else escape bytes >>= (λ value. behind >>= (λ decoded. ok (value ∷ decoded)))

-- `percent_decode`, with `String::from_utf8` behind the loop.
unfoldable pub percent_decode : List ℕ → Result (List ℕ)
percent_decode encoded = do
  decoded ← decode_loop (length encoded) encoded
  _ ←
      ok_or (decode_utf8 between decoded)
        (invalid_data "file URL does not decode to valid UTF-8" [])
  ok decoded

unfoldable pub is_ascii_alphabetic : ℕ → Bool
is_ascii_alphabetic c = (leb 65 c && leb c 90) || (leb 97 c && leb c 122)

unfoldable pub is_at : (ℕ → Bool) → Option ℕ → Bool
is_at test none = false
is_at test (some byte) = test byte

unfoldable pub windows_drive_path : List ℕ → List ℕ
unfolding is_at is_ascii_alphabetic
windows_drive_path decoded =
    if is_at (λ b. b == 47) (get_elem? decoded 0)
      && (is_at is_ascii_alphabetic (get_elem? decoded 1)
          && is_at (λ b. b == 58) (get_elem? decoded 2))
    then drop 1 decoded
    else decoded

-- `rest.find('/')` with `split_at`: the authority, and the rest from the separator on.
unfoldable pub split_authority : List ℕ → List ℕ × List ℕ
split_authority [] = ([], 47 ∷ [])
split_authority (b ∷ bs) =
    let (authority, encoded) = split_authority bs in
    if b == 47 then ([], b ∷ bs) else (b ∷ authority, encoded)

unfoldable pub is_local : List ℕ → Bool
is_local [] = true
is_local (b ∷ bs) = eq_ignore_ascii_case (b ∷ bs) localhost

-- `resolve` of a URL, behind the scheme.
unfoldable pub resolve_url : List ℕ → Result (List ℕ)
resolve_url rest = do
  let (authority, encoded) = split_authority rest
  fail_if (not (is_local authority)) (
      invalid_data "file URL names the remote host {}, which is not a local dictionary"
        (map num authority))
  decoded ← percent_decode encoded
  ok (windows_drive_path decoded)

unfoldable pub resolve : List ℕ → Result (List ℕ)
resolve path = elim (decode_utf8 between path) [
  | none ↦ ok path
  | some text ↦ if equal_texts (take 7 path) scheme then resolve_url (drop 7 path) else ok path
]
