-- ===== src/FileUrl/Decoding.antt =====
-- A path that was percent-encoded into a URL of this machine is resolved to itself.
use mdictlib.Prelude.{
  ℕ, zero, suc, ◌+◌, ◌/◌, ◌%◌, ◌≤◌, ◌<◌, Bool, Bool-cases, true, some, List, [], ◌∷◌, ◌++◌, ltb,
  ◌==◌, if◌then◌else◌, length, length-append, ◌≡◌, ◌⊎◌, inl, inr, refl, ap, arith,
}
use mdictlib.Error.{ok}
use mdictlib.Bytes.{IsBytes}
use mdictlib.Descriptors.{Text}
use mdictlib.CaseVariants.{equal_texts, eq_ignore_ascii_case}
use mdictlib.Encoding.{between, decode_utf8}
use mdictlib.FileUrl.{
  scheme, localhost, hex_value, hex_at, escape, decode_loop, percent_decode, windows_drive_path,
  split_authority, is_local, resolve_url, resolve,
}

abbrev pub hex_digit : ℕ → ℕ
hex_digit d = if ltb d 10 then 48 + d else 55 + d

module _ (keep : ℕ → Bool) where
  -- A byte as it stands, or escaped: `%` is always escaped, and the rest as `keep` says.
  abbrev pub encode_byte : ℕ → List ℕ
  encode_byte b =
      if b == 37
      then 37 ∷ hex_digit (b / 16) ∷ hex_digit (b % 16) ∷ []
      else if keep b
      then b ∷ []
      else 37 ∷ hex_digit (b / 16) ∷ hex_digit (b % 16) ∷ []

  abbrev pub percent_encode : List ℕ → List ℕ
  percent_encode [] = []
  percent_encode (b ∷ bs) = encode_byte b ++ percent_encode bs

  hex_value-hex_digit : (d : ℕ) → d < 16 → hex_value (hex_digit d) ≡ some d
  unfolding hex_value
  hex_value-hex_digit d h = ground arith

  escape-ok :
      (b : ℕ) (rest : List ℕ)
      → b < 256
      → escape (hex_digit (b / 16) ∷ hex_digit (b % 16) ∷ rest) ≡ ok b
  unfolding escape hex_at
  escape-ok b rest h =
      rw (hex_value-hex_digit (b / 16) (omega arith), hex_value-hex_digit (b % 16) (omega arith))
        (ap ok (omega arith))

  length-encode_byte : (b : ℕ) → 1 ≤ length (encode_byte b)
  length-encode_byte b = elim (Bool-cases (b == 37)) [
    | inl e ↦ rw e (omega arith)
    | inr e ↦ elim (Bool-cases (keep b)) [
      | inl k ↦ rw (e, k) (omega arith)
      | inr k ↦ rw (e, k) (omega arith)
    ]
  ]

  escaped :
      (b : ℕ) (bs : List ℕ) (fuel : ℕ)
      → b < 256
      → decode_loop fuel (percent_encode bs) ≡ ok bs
      → decode_loop (suc fuel) (37 ∷ hex_digit (b / 16) ∷ hex_digit (b % 16) ∷ percent_encode bs)
        ≡ ok (b ∷ bs)
  unfolding decode_loop
  escaped b bs fuel h rest = rw (escape-ok b (percent_encode bs) h, rest) refl

  decode_loop-ok :
      (bs : List ℕ) (fuel : ℕ)
      → IsBytes bs
      → length (percent_encode bs) ≤ fuel
      → decode_loop fuel (percent_encode bs) ≡ ok bs
  unfolding decode_loop
  decode_loop-ok [] zero h f = refl
  decode_loop-ok [] (suc fuel) h f = refl
  decode_loop-ok (b ∷ bs) zero h f =
      absurd
        (omega (arith, length-append (encode_byte b) (percent_encode bs), length-encode_byte b))
  decode_loop-ok (b ∷ bs) (suc fuel) h f =
      let size = length-append (encode_byte b) (percent_encode bs) in
      let one = length-encode_byte b in
      let rest : decode_loop fuel (percent_encode bs) ≡ ok bs =
        decode_loop-ok bs fuel h.1 (omega arith) in
      elim (Bool-cases (b == 37)) [
        | inl e ↦ rw e (escaped b bs fuel h.0 rest)
        | inr e ↦ elim (Bool-cases (keep b)) [
          | inr k ↦ rw (e, k) (escaped b bs fuel h.0 rest)
          | inl k ↦ rw (e, k, e, rest) refl
        ]
      ]

split_host :
    (host encoded : List ℕ)
    → (host ≡ []) ⊎ (host ≡ localhost)
    → split_authority (host ++ (47 ∷ encoded)) ≡ (host, 47 ∷ encoded)
unfolding split_authority
split_host host encoded (inl e) = rw e refl
split_host host encoded (inr e) = rw e refl

host-is_local : (host : List ℕ) → (host ≡ []) ⊎ (host ≡ localhost) → is_local host ≡ true
unfolding is_local eq_ignore_ascii_case
host-is_local host (inl e) = rw e refl
host-is_local host (inr e) = rw e refl

percent_decode-ok :
    (keep : ℕ → Bool) (path : List ℕ) (decoded : Text)
    → IsBytes path
    → decode_utf8 between (47 ∷ path) ≡ some decoded
    → percent_decode (47 ∷ percent_encode keep path) ≡ ok (47 ∷ path)
unfolding percent_decode decode_loop
percent_decode-ok keep path decoded bytes valid =
    rw (decode_loop-ok keep path (length (percent_encode keep path)) bytes (omega arith), valid)
      refl

resolve_url-ok :
    (keep : ℕ → Bool) (host path : List ℕ) (decoded : Text)
    → (host ≡ []) ⊎ (host ≡ localhost)
    → IsBytes path
    → decode_utf8 between (47 ∷ path) ≡ some decoded
    → resolve_url (host ++ (47 ∷ percent_encode keep path)) ≡ ok (windows_drive_path (47 ∷ path))
unfolding resolve_url
resolve_url-ok keep host path decoded local bytes valid =
    rw
      (
        split_host host (percent_encode keep path) local,
        host-is_local host local,
        percent_decode-ok keep path decoded bytes valid,
      )
      refl

-- An absolute path that is valid UTF-8, percent-encoded in any way behind `file://` or
-- `file://localhost`, in a URL that is valid UTF-8 too, is resolved to that path, less the leading
-- slash before a drive letter.
pub resolve-percent_encode :
    (keep : ℕ → Bool) (host path : List ℕ) (decoded url : Text)
    → (host ≡ []) ⊎ (host ≡ localhost)
    → IsBytes path
    → decode_utf8 between (47 ∷ path) ≡ some decoded
    → decode_utf8 between (scheme ++ (host ++ (47 ∷ percent_encode keep path))) ≡ some url
    → resolve (scheme ++ (host ++ (47 ∷ percent_encode keep path)))
      ≡ ok (windows_drive_path (47 ∷ path))
unfolding resolve equal_texts
resolve-percent_encode keep host path decoded url local bytes valid valid_url =
    rw (resolve, valid_url) (resolve_url-ok keep host path decoded local bytes valid)
