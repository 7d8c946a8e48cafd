-- ===== src/Crypto/Keyword/RoundTrip.antt =====
-- The cipher of the keyword index is undone, and a registration code that was issued for a key opens a
-- header that was encrypted with it.
use Prim.Native.Nat.{bit_xor}
use mdictlib.Prelude.{
  ℕ, zero, suc, ◌+◌, ◌*◌, ◌/◌, ◌%◌, ◌<◌, List, [], ◌∷◌, ◌++◌, length, get_or, ◌≡◌, refl, ap, ◌∙◌,
  arith,
}
use mdictlib.Error.{ok}
use mdictlib.Bytes.{IsBytes, to_le, to_le-IsBytes, append-IsBytes}
use mdictlib.Bits.{rotate_left}
use mdictlib.Bits.Xor.{bit_xor_cancel, bit_xor_assoc, bit_xor-lt}
use mdictlib.FileUrl.Decoding.{hex_digit}
use mdictlib.Crypto.Cipher.{salsa20_8_xor_twice, salsa20_8_xor-IsBytes}
use mdictlib.Crypto.{Words, digest, hex_nibble, hex_pairs, decode_hex_16, ripemd128, salsa20_8_xor}
use mdictlib.Crypto.Keyword.{
  decrypt_loop, encrypt_loop, index_key, decrypt_keyword_index_block, encrypt_keyword_index_block,
  Passcode, derive_keyword_header_key, decrypt_keyword_header_block,
}

swap_twice :
    (x : ℕ) → x < 256 → (rotate_left 8 (rotate_left 8 x 4) 4 ≡ x) × (rotate_left 8 x 4 < 256)
unfolding rotate_left
swap_twice x p = omega arith

masks : (x i k v : ℕ) → bit_xor (bit_xor (bit_xor x i) k) v ≡ bit_xor x (bit_xor i (bit_xor k v))
masks x i k v = bit_xor_assoc (bit_xor x i) k v ∙ bit_xor_assoc x i (bit_xor k v)

-- Three masks in the same order twice.
masks_twice :
    (x i k v : ℕ) → bit_xor (bit_xor (bit_xor (bit_xor (bit_xor (bit_xor x i) k) v) i) k) v ≡ x
masks_twice x i k v =
    let mask = bit_xor i (bit_xor k v) in
    masks (bit_xor (bit_xor (bit_xor x i) k) v) i k v
    ∙ ap (λ t. bit_xor t mask) (masks x i k v)
    ∙ bit_xor_cancel x mask

get_or-IsBytes : (xs : List ℕ) (i : ℕ) → IsBytes xs → get_or xs i 0 < 256
get_or-IsBytes [] i h = omega arith
get_or-IsBytes (x ∷ xs) zero h = h.0
get_or-IsBytes (x ∷ xs) (suc i) h = get_or-IsBytes xs i h.1

masked_byte :
    (x i k v : ℕ)
    → x < 256
    → i < 256
    → k < 256
    → v < 256
    → bit_xor (bit_xor (bit_xor x i) k) v < 256
masked_byte x i k v p q r s = bit_xor-lt 8 _ v (bit_xor-lt 8 _ k (bit_xor-lt 8 x i p q) r) s

loop_undone :
    (key : List ℕ) (index previous : ℕ) (bytes : List ℕ)
    → IsBytes key
    → previous < 256
    → IsBytes bytes
    → decrypt_loop key index previous (encrypt_loop key index previous bytes) ≡ bytes
unfolding decrypt_loop encrypt_loop
loop_undone key index previous [] k p h = refl
loop_undone key index previous (plain ∷ rest) k p h =
    let mask = get_or key (index % length key) 0 in
    let masked = bit_xor (bit_xor (bit_xor plain (index % 256)) mask) previous in
    let swapped = swap_twice masked (
      masked_byte plain (index % 256) mask previous h.0 (omega arith) (get_or-IsBytes key _ k) p) in
    cc (
      ap (λ t. bit_xor (bit_xor (bit_xor t (index % 256)) mask) previous) swapped.0,
      masks_twice plain (index % 256) mask previous,
      loop_undone key (index + 1) (rotate_left 8 masked 4) rest k swapped.1 h.1,
    )

digest-IsBytes : (h : Words) → IsBytes (digest h)
unfolding digest
digest-IsBytes h =
    append-IsBytes (to_le 4 h.a) (to_le 4 h.b ++ (to_le 4 h.c ++ to_le 4 h.d)) (to_le-IsBytes 4 h.a)
      (append-IsBytes (to_le 4 h.b) (to_le 4 h.c ++ to_le 4 h.d) (to_le-IsBytes 4 h.b)
        (append-IsBytes (to_le 4 h.c) (to_le 4 h.d) (to_le-IsBytes 4 h.c) (to_le-IsBytes 4 h.d)))

-- The digest is made of bytes.
ripemd128-IsBytes : (bytes : List ℕ) → IsBytes (ripemd128 bytes)
unfolding ripemd128
ripemd128-IsBytes bytes = digest-IsBytes _

-- Decrypting a keyword index that was encrypted for its checksum gives the index back.
pub decrypt_keyword_index_block-encrypt_keyword_index_block :
    (checksum : ℕ) (bytes : List ℕ)
    → IsBytes bytes
    → decrypt_keyword_index_block checksum (encrypt_keyword_index_block checksum bytes) ≡ bytes
unfolding decrypt_keyword_index_block encrypt_keyword_index_block index_key
decrypt_keyword_index_block-encrypt_keyword_index_block checksum bytes h =
    loop_undone (index_key checksum) 0 0x36 bytes (ripemd128-IsBytes _) (omega arith) h

-- The digits of a registration code.
abbrev pub encode_hex : List ℕ → List ℕ
encode_hex [] = []
encode_hex (b ∷ bytes) = hex_digit (b / 16) ∷ hex_digit (b % 16) ∷ encode_hex bytes

hex_nibble-hex_digit : (d : ℕ) → d < 16 → hex_nibble (hex_digit d) ≡ ok d
unfolding hex_nibble
hex_nibble-hex_digit d h = ground arith

hex_pairs-encode_hex : (bytes : List ℕ) → IsBytes bytes → hex_pairs (encode_hex bytes) ≡ ok bytes
unfolding hex_pairs
hex_pairs-encode_hex [] h = refl
hex_pairs-encode_hex (b ∷ bytes) h =
    rw
      (
        hex_nibble-hex_digit (b / 16) (omega arith),
        hex_nibble-hex_digit (b % 16) (omega arith),
        hex_pairs-encode_hex bytes h.1,
      )
      (ap (λ (t : ℕ). ok (t ∷ bytes)) (omega arith))

length-encode_hex : (bytes : List ℕ) → length (encode_hex bytes) ≡ 2 * length bytes
length-encode_hex [] = omega arith
length-encode_hex (b ∷ bytes) = omega (arith, length-encode_hex bytes)

decode_hex_16-encode_hex :
    (bytes : List ℕ)
    → IsBytes bytes
    → length bytes ≡ 16
    → decode_hex_16 (encode_hex bytes) ≡ ok bytes
unfolding decode_hex_16
decode_hex_16-encode_hex bytes h e = rw (length-encode_hex bytes, e) (hex_pairs-encode_hex bytes h)

-- The code that is issued to a user for a key of 16 bytes.
abbrev pub issue : List ℕ → List ℕ → Passcode
issue key user = record {
  reg_code_hex = encode_hex (salsa20_8_xor (ripemd128 user) key);
  user_id = user;
}

-- A keyword header that was encrypted with a key of 16 bytes is decrypted by the passcode of every user
-- to whom that key was issued.
pub decrypt_keyword_header_block-issue :
    (key user bytes : List ℕ)
    → IsBytes key
    → length key ≡ 16
    → decrypt_keyword_header_block (salsa20_8_xor key bytes) (issue key user) ≡ ok bytes
unfolding decrypt_keyword_header_block derive_keyword_header_key
decrypt_keyword_header_block-issue key user bytes h e =
    let wrapped = salsa20_8_xor_twice (ripemd128 user) key in
    rw
      (
        decode_hex_16-encode_hex (salsa20_8_xor (ripemd128 user) key)
            (salsa20_8_xor-IsBytes (ripemd128 user) key h) (wrapped.1 ∙ e),
        wrapped.0,
        (salsa20_8_xor_twice key bytes).0,
      )
      refl
