-- ===== src/Crypto/Keyword.antt =====
-- format/v2/crypto.rs: the ciphers of the keyword section.
pub mod RoundTrip
pub mod Codes
use Prim.Native.Nat.{bit_xor}
use mdictlib.Prelude.{ℕ, ◌+◌, ◌%◌, List, [], ◌∷◌, ◌++◌, length, get_or}
use mdictlib.Error.{Result, ok, ◌>>=◌}
use mdictlib.Bytes.{to_be}
use mdictlib.Bits.{rotate_left}
use mdictlib.Crypto.{decode_hex_16, ripemd128, salsa20_8_xor}

-- The bytes of the two texts.
pub record Passcode : Type 0 where
  pub reg_code_hex : List ℕ
  pub user_id : List ℕ

-- The loop of `decrypt_keyword_index_block`.
unfoldable pub decrypt_loop : List ℕ → ℕ → ℕ → List ℕ → List ℕ
decrypt_loop key index previous [] = []
decrypt_loop key index previous (cipher ∷ rest) =
    bit_xor
      (bit_xor (bit_xor (rotate_left 8 cipher 4) (index % 256)) (get_or key (index % length key) 0))
      previous
    ∷ decrypt_loop key (index + 1) cipher rest

unfoldable pub index_key : ℕ → List ℕ
index_key checksum = ripemd128 (to_be 4 checksum ++ 0x95 ∷ 0x36 ∷ 0 ∷ 0 ∷ [])

unfoldable pub decrypt_keyword_index_block : ℕ → List ℕ → List ℕ
decrypt_keyword_index_block checksum bytes = decrypt_loop (index_key checksum) 0 0x36 bytes

-- The loop of `encrypt_keyword_index_block`.
unfoldable pub encrypt_loop : List ℕ → ℕ → ℕ → List ℕ → List ℕ
encrypt_loop key index previous [] = []
encrypt_loop key index previous (plain ∷ rest) =
    let cipher =
      rotate_left 8
        (bit_xor (bit_xor (bit_xor plain (index % 256)) (get_or key (index % length key) 0))
          previous)
        4 in
    cipher ∷ encrypt_loop key (index + 1) cipher rest

unfoldable pub encrypt_keyword_index_block : ℕ → List ℕ → List ℕ
encrypt_keyword_index_block checksum bytes = encrypt_loop (index_key checksum) 0 0x36 bytes

unfoldable pub derive_keyword_header_key : Passcode → Result (List ℕ)
derive_keyword_header_key passcode = do
  encrypted_hash ← decode_hex_16 passcode.reg_code_hex
  ok (salsa20_8_xor (ripemd128 passcode.user_id) encrypted_hash)

unfoldable pub decrypt_keyword_header_block : List ℕ → Passcode → Result (List ℕ)
decrypt_keyword_header_block bytes passcode = do
  key ← derive_keyword_header_key passcode
  ok (salsa20_8_xor key bytes)
