-- ===== src/Tests/Ciphers.antt =====
-- The ciphers of the keyword section at concrete values, and the known digests of RIPEMD-128.
use mdictlib.Texts.{all_of}
use mdictlib.Crypto.Keyword.{Passcode, derive_keyword_header_key}
use mdictlib.Crypto.Keyword.Codes.{
  is_ascii_hexdigit, new_passcode, new_passcode-derive_keyword_header_key,
}
use mdictlib.Prelude.{ℕ, List, [], ◌∷◌, ◌≡◌, refl, arith, replicate}
use mdictlib.Error.{ok}
use mdictlib.Bytes.{to_le}
use mdictlib.Bits.{add32, rotate_left}
use mdictlib.Crypto.{
  salsa20_8_chunks, xor_bytes, salsa20_8_block, bytes_of, add_words, double_round, row_round,
  column_round, quarter_round, mix_word, initial_state, words_of, ripemd128, salsa20_8_xor,
}
use mdictlib.Crypto.Salsa.{xor_stream}
use mdictlib.Crypto.Salsa.Stream.{salsa20_8_xor-xor_stream}
use mdictlib.Crypto.Keyword.{
  decrypt_keyword_index_block, encrypt_keyword_index_block, decrypt_keyword_header_block,
}
use mdictlib.Crypto.Keyword.RoundTrip.{
  issue, decrypt_keyword_index_block-encrypt_keyword_index_block,
  decrypt_keyword_header_block-issue,
}

ripemd128_empty :
    ripemd128 []
    ≡ 0xcd ∷ 0xf2 ∷ 0x62 ∷ 0x13 ∷ 0xa1 ∷ 0x50 ∷ 0xdc ∷ 0x3e ∷ 0xcb ∷ 0x61 ∷ 0xf ∷ 0x18 ∷ 0xf6 ∷ 0xb3
      ∷ 0x8b ∷ 0x46 ∷ []
unfolding ripemd128
ripemd128_empty = refl

ripemd128_a :
    ripemd128 (0x61 ∷ [])
    ≡ 0x86 ∷ 0xbe ∷ 0x7a ∷ 0xfa ∷ 0x33 ∷ 0x9d ∷ 0xf ∷ 0xc7 ∷ 0xcf ∷ 0xc7 ∷ 0x85 ∷ 0xe7 ∷ 0x2f ∷ 0x57
      ∷ 0x8d ∷ 0x33 ∷ []
unfolding ripemd128
ripemd128_a = refl

-- "header"
abbrev message : List ℕ
message = 0x68 ∷ 0x65 ∷ 0x61 ∷ 0x64 ∷ 0x65 ∷ 0x72 ∷ []

abbrev header_key : List ℕ
header_key =
    0x1 ∷ 0x2 ∷ 0x3 ∷ 0x4 ∷ 0x5 ∷ 0x6 ∷ 0x7 ∷ 0x8 ∷ 0x9 ∷ 0xa ∷ 0xb ∷ 0xc ∷ 0xd ∷ 0xe ∷ 0xf ∷ 0x10
    ∷ []

-- The first vector of the published ones for 8 rounds and a key of 128 bits: the first block of the keystream.
first_vector :
    salsa20_8_xor (0x80 ∷ replicate 15 0) (replicate 64 0)
    ≡ 0xa9 ∷ 0xc9 ∷ 0xf8 ∷ 0x88 ∷ 0xab ∷ 0x55 ∷ 0x2a ∷ 0x2d ∷ 0x1b ∷ 0xbf ∷ 0xf9 ∷ 0xf3 ∷ 0x6b
      ∷ 0xeb ∷ 0xeb ∷ 0x33 ∷ 0x7a ∷ 0x8b ∷ 0x4b ∷ 0x10 ∷ 0x7c ∷ 0x75 ∷ 0xb6 ∷ 0x3b ∷ 0xae ∷ 0x26
      ∷ 0xcb ∷ 0x9a ∷ 0x23 ∷ 0x5b ∷ 0xba ∷ 0x9d ∷ 0x78 ∷ 0x4f ∷ 0x38 ∷ 0xbe ∷ 0xfc ∷ 0x3a ∷ 0xdf
      ∷ 0x4c ∷ 0xd3 ∷ 0xe2 ∷ 0x66 ∷ 0x68 ∷ 0x7e ∷ 0xa7 ∷ 0xb9 ∷ 0xf0 ∷ 0x9b ∷ 0xa6 ∷ 0x50 ∷ 0xae
      ∷ 0x81 ∷ 0xea ∷ 0xc6 ∷ 0x6 ∷ 0x3a ∷ 0xe3 ∷ 0x1f ∷ 0xf1 ∷ 0x22 ∷ 0x18 ∷ 0xdd ∷ 0xc5 ∷ []
unfolding salsa20_8_xor salsa20_8_chunks xor_bytes salsa20_8_block bytes_of add_words double_round
    row_round column_round quarter_round mix_word initial_state words_of add32 rotate_left to_le
first_vector = refl

salsa20_8_xor_example : salsa20_8_xor header_key message ≡ xor_stream header_key 0 message
salsa20_8_xor_example = salsa20_8_xor-xor_stream header_key message refl

index_cipher_example :
    decrypt_keyword_index_block 305419896 (encrypt_keyword_index_block 305419896 message) ≡ message
index_cipher_example =
    decrypt_keyword_index_block-encrypt_keyword_index_block 305419896 message (omega arith)

issue_example :
    decrypt_keyword_header_block (salsa20_8_xor header_key message) (issue header_key message)
    ≡ ok message
issue_example = decrypt_keyword_header_block-issue header_key message message (omega arith) refl

-- "00112233445566778899aabbCCDDEEFF"
abbrev registration : List ℕ
registration =
    48 ∷ 48 ∷ 49 ∷ 49 ∷ 50 ∷ 50 ∷ 51 ∷ 51 ∷ 52 ∷ 52 ∷ 53 ∷ 53 ∷ 54 ∷ 54 ∷ 55 ∷ 55 ∷ 56 ∷ 56 ∷ 57
    ∷ 57 ∷ 97 ∷ 97 ∷ 98 ∷ 98 ∷ 67 ∷ 67 ∷ 68 ∷ 68 ∷ 69 ∷ 69 ∷ 70 ∷ 70 ∷ []

abbrev passcode : Passcode
passcode = record { reg_code_hex = registration; user_id = 97 ∷ [] }

registration_accepted : new_passcode registration (97 ∷ []) ≡ ok passcode
unfolding new_passcode all_of is_ascii_hexdigit
registration_accepted = refl

new_passcode_example : (key : List ℕ) × (derive_keyword_header_key passcode ≡ ok key)
new_passcode_example =
    new_passcode-derive_keyword_header_key registration (97 ∷ []) passcode registration_accepted
