-- ===== src/Crypto/Keyword/Codes.antt =====
-- types.rs: `Passcode::new`, which accepts only registration codes that can be decoded.
use mdictlib.Prelude.{
  ℕ, zero, suc, ◌+◌, ◌-◌, ◌*◌, Bool, true, ◌&&◌, ◌||◌, not, List, [], ◌∷◌, ◌==◌, ltb, leb, length,
  ◌≡◌, inl, inr, Bool-cases, refl, arith,
}
use mdictlib.Error.{Result, ok, ok_then, fail_if, invalid_passcode, ◌>>◌}
use mdictlib.Texts.{all_of}
use mdictlib.Crypto.{hex_nibble, hex_pairs, decode_hex_16, ripemd128, salsa20_8_xor}
use mdictlib.Crypto.Keyword.{Passcode, derive_keyword_header_key}

-- `u8::is_ascii_hexdigit`
unfoldable pub is_ascii_hexdigit : ℕ → Bool
is_ascii_hexdigit byte =
    (leb 48 byte && leb byte 57) || ((leb 97 byte && leb byte 102) || (leb 65 byte && leb byte 70))

unfoldable pub new_passcode : List ℕ → List ℕ → Result Passcode
unfolding all_of is_ascii_hexdigit
new_passcode reg_code_hex user_id = do
  fail_if (not (length reg_code_hex == 32) || not (all_of is_ascii_hexdigit reg_code_hex))
      (invalid_passcode "registration code must contain exactly 32 hex digits")
  fail_if (ltb 4096 (length user_id))
      (invalid_passcode "user identity must not exceed 4096 UTF-8 bytes")
  ok (record { reg_code_hex = reg_code_hex; user_id = user_id })

nibble : (byte : ℕ) → is_ascii_hexdigit byte ≡ true → (value : ℕ) × (hex_nibble byte ≡ ok value)
unfolding is_ascii_hexdigit hex_nibble
nibble byte e = elim (Bool-cases (leb 48 byte && leb byte 57)) [
  | inl d ↦ (byte - 48, rw d refl)
  | inr d ↦ elim (Bool-cases (leb 97 byte && leb byte 102)) [
    | inl l ↦ (byte - 97 + 10, rw (d, l) refl)
    | inr l ↦ elim (Bool-cases (leb 65 byte && leb byte 70)) [
      | inl u ↦ (byte - 65 + 10, rw (d, l, u) refl)
      | inr u ↦ absurd (ground arith)
    ]
  ]
]

pairs :
    (n : ℕ) (bytes : List ℕ)
    → length bytes ≡ n + n
    → all_of is_ascii_hexdigit bytes ≡ true
    → (values : List ℕ) × (hex_pairs bytes ≡ ok values)
unfolding all_of hex_pairs
pairs n [] c h = ([], refl)
pairs n (a ∷ []) c h = absurd (omega arith)
pairs zero (a ∷ b ∷ bytes) c h = absurd (omega arith)
pairs (suc n) (a ∷ b ∷ bytes) c h =
    let (high, p) = nibble a (ground arith) in
    let (low, q) = nibble b (ground arith) in
    let (values, r) = pairs n bytes (omega arith) (ground arith) in
    ((high * 16 + low) ∷ values, rw (p, q, r) refl)

decodable :
    (code : List ℕ)
    → length code ≡ 32
    → all_of is_ascii_hexdigit code ≡ true
    → (hash : List ℕ) × (decode_hex_16 code ≡ ok hash)
unfolding decode_hex_16
decodable code c h =
    let (values, p) = pairs 16 code c h in
    let counted : (length code == 32) ≡ true = ground arith in (values, rw counted p)

derived :
    (code user : List ℕ) (accepted : Passcode)
    → length code ≡ 32
    → all_of is_ascii_hexdigit code ≡ true
    → ok (record { reg_code_hex = code; user_id = user }) ≡ ok accepted
    → (key : List ℕ) × (derive_keyword_header_key accepted ≡ ok key)
unfolding derive_keyword_header_key
derived code user accepted c h =
    ok_then _ (λ a. (key : List ℕ) × (derive_keyword_header_key a ≡ ok key))
      (salsa20_8_xor (ripemd128 user) (decodable code c h).0, rw (decodable code c h).1 refl)
      accepted

-- A passcode that is accepted has a key for the header: its registration code never fails to decode.
pub new_passcode-derive_keyword_header_key :
    (code user : List ℕ) (accepted : Passcode)
    → new_passcode code user ≡ ok accepted
    → (key : List ℕ) × (derive_keyword_header_key accepted ≡ ok key)
unfolding new_passcode
new_passcode-derive_keyword_header_key code user accepted e =
    derived code user accepted (ground arith) (ground arith) (ground arith)
