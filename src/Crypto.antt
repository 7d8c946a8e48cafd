-- ===== src/Crypto.antt =====
-- format/common/crypto.rs: RIPEMD-128, Salsa20/8, and the hexadecimal registration code. A word is a
-- number below 2 ^ 32, an array is a list.
pub mod Cipher
pub mod Keyword
pub mod Salsa
use Prim.Native.Nat.{bit_xor, bit_and, bit_or}
use mdictlib.Prelude.{
  ℕ, zero, suc, ◌+◌, ◌-◌, ◌*◌, ◌/◌, ◌%◌, ◌^◌, ◌&&◌, List, [], ◌∷◌, ◌++◌, ltb, leb, ◌==◌,
  if◌then◌else◌, length, get_or, set, take, drop, replicate,
}
use mdictlib.Error.{Result, ok, err, ◌>>=◌, invalid_data}
use mdictlib.Bytes.{from_le, to_le}
use mdictlib.Bits.{rotate_left, not32, add32}

-- `RIPEMD128_R`, `RIPEMD128_RP`, `RIPEMD128_S` and `RIPEMD128_SP`
abbrev pub ripemd128_r : List ℕ
ripemd128_r =
    0 ∷ 1 ∷ 2 ∷ 3 ∷ 4 ∷ 5 ∷ 6 ∷ 7 ∷ 8 ∷ 9 ∷ 10 ∷ 11 ∷ 12 ∷ 13 ∷ 14 ∷ 15 ∷ 7 ∷ 4 ∷ 13 ∷ 1 ∷ 10 ∷ 6
    ∷ 15 ∷ 3 ∷ 12 ∷ 0 ∷ 9 ∷ 5 ∷ 2 ∷ 14 ∷ 11 ∷ 8 ∷ 3 ∷ 10 ∷ 14 ∷ 4 ∷ 9 ∷ 15 ∷ 8 ∷ 1 ∷ 2 ∷ 7 ∷ 0 ∷ 6
    ∷ 13 ∷ 11 ∷ 5 ∷ 12 ∷ 1 ∷ 9 ∷ 11 ∷ 10 ∷ 0 ∷ 8 ∷ 12 ∷ 4 ∷ 13 ∷ 3 ∷ 7 ∷ 15 ∷ 14 ∷ 5 ∷ 6 ∷ 2 ∷ []

abbrev pub ripemd128_rp : List ℕ
ripemd128_rp =
    5 ∷ 14 ∷ 7 ∷ 0 ∷ 9 ∷ 2 ∷ 11 ∷ 4 ∷ 13 ∷ 6 ∷ 15 ∷ 8 ∷ 1 ∷ 10 ∷ 3 ∷ 12 ∷ 6 ∷ 11 ∷ 3 ∷ 7 ∷ 0 ∷ 13
    ∷ 5 ∷ 10 ∷ 14 ∷ 15 ∷ 8 ∷ 12 ∷ 4 ∷ 9 ∷ 1 ∷ 2 ∷ 15 ∷ 5 ∷ 1 ∷ 3 ∷ 7 ∷ 14 ∷ 6 ∷ 9 ∷ 11 ∷ 8 ∷ 12 ∷ 2
    ∷ 10 ∷ 0 ∷ 4 ∷ 13 ∷ 8 ∷ 6 ∷ 4 ∷ 1 ∷ 3 ∷ 11 ∷ 15 ∷ 0 ∷ 5 ∷ 12 ∷ 2 ∷ 13 ∷ 9 ∷ 7 ∷ 10 ∷ 14 ∷ []

abbrev pub ripemd128_s : List ℕ
ripemd128_s =
    11 ∷ 14 ∷ 15 ∷ 12 ∷ 5 ∷ 8 ∷ 7 ∷ 9 ∷ 11 ∷ 13 ∷ 14 ∷ 15 ∷ 6 ∷ 7 ∷ 9 ∷ 8 ∷ 7 ∷ 6 ∷ 8 ∷ 13 ∷ 11 ∷ 9
    ∷ 7 ∷ 15 ∷ 7 ∷ 12 ∷ 15 ∷ 9 ∷ 11 ∷ 7 ∷ 13 ∷ 12 ∷ 11 ∷ 13 ∷ 6 ∷ 7 ∷ 14 ∷ 9 ∷ 13 ∷ 15 ∷ 14 ∷ 8 ∷ 13
    ∷ 6 ∷ 5 ∷ 12 ∷ 7 ∷ 5 ∷ 11 ∷ 12 ∷ 14 ∷ 15 ∷ 14 ∷ 15 ∷ 9 ∷ 8 ∷ 9 ∷ 14 ∷ 5 ∷ 6 ∷ 8 ∷ 6 ∷ 5 ∷ 12
    ∷ []

abbrev pub ripemd128_sp : List ℕ
ripemd128_sp =
    8 ∷ 9 ∷ 9 ∷ 11 ∷ 13 ∷ 15 ∷ 15 ∷ 5 ∷ 7 ∷ 7 ∷ 8 ∷ 11 ∷ 14 ∷ 14 ∷ 12 ∷ 6 ∷ 9 ∷ 13 ∷ 15 ∷ 7 ∷ 12 ∷ 8
    ∷ 9 ∷ 11 ∷ 7 ∷ 7 ∷ 12 ∷ 7 ∷ 6 ∷ 15 ∷ 13 ∷ 11 ∷ 9 ∷ 7 ∷ 15 ∷ 11 ∷ 8 ∷ 6 ∷ 6 ∷ 14 ∷ 12 ∷ 13 ∷ 5
    ∷ 14 ∷ 13 ∷ 13 ∷ 7 ∷ 5 ∷ 15 ∷ 5 ∷ 8 ∷ 11 ∷ 14 ∷ 14 ∷ 6 ∷ 14 ∷ 6 ∷ 9 ∷ 12 ∷ 9 ∷ 12 ∷ 5 ∷ 15 ∷ 8
    ∷ []

unfoldable pub hex_nibble : ℕ → Result ℕ
hex_nibble byte =
    if leb 48 byte && leb byte 57
    then ok (byte - 48)
    else if leb 97 byte && leb byte 102
    then ok (byte - 97 + 10)
    else if leb 65 byte && leb byte 70
    then ok (byte - 65 + 10)
    else err (invalid_data "registration code contains non-hex bytes" [])

-- The loop of `decode_hex_16`, over `chunks_exact(2)`.
unfoldable pub hex_pairs : List ℕ → Result (List ℕ)
hex_pairs [] = ok []
hex_pairs (h ∷ []) = ok []
hex_pairs (h ∷ l ∷ rest) = do
  high ← hex_nibble h
  low ← hex_nibble l
  out ← hex_pairs rest
  ok ((high * 16 + low) ∷ out)

unfoldable pub decode_hex_16 : List ℕ → Result (List ℕ)
decode_hex_16 text =
    if length text == 32
    then hex_pairs text
    else err (invalid_data "registration code must be 32 hex digits" [])

unfoldable pub f : ℕ → ℕ → ℕ → ℕ → ℕ
unfolding not32
f idx x y z =
    if ltb idx 16
    then bit_xor (bit_xor x y) z
    else if ltb idx 32
    then bit_or (bit_and x y) (bit_and (not32 x) z)
    else if ltb idx 48
    then bit_xor (bit_or x (not32 y)) z
    else bit_or (bit_and x z) (bit_and y (not32 z))

unfoldable pub fp : ℕ → ℕ → ℕ → ℕ → ℕ
unfolding not32
fp idx x y z =
    if ltb idx 16
    then bit_or (bit_and x z) (bit_and y (not32 z))
    else if ltb idx 32
    then bit_xor (bit_or x (not32 y)) z
    else if ltb idx 48
    then bit_or (bit_and x y) (bit_and (not32 x) z)
    else bit_xor (bit_xor x y) z

unfoldable pub k : ℕ → ℕ
k idx =
    if ltb idx 16
    then 0
    else if ltb idx 32
    then 0x5a827999
    else if ltb idx 48
    then 0x6ed9eba1
    else 0x8f1bbcdc

unfoldable pub kp : ℕ → ℕ
kp idx =
    if ltb idx 16
    then 0x50a28be6
    else if ltb idx 32
    then 0x5c4dd124
    else if ltb idx 48
    then 0x6d703ef3
    else 0

-- The four words of a line.
pub record Words : Type 0 where
  pub a : ℕ
  pub b : ℕ
  pub c : ℕ
  pub d : ℕ

-- `u32::from_le_bytes` of consecutive chunks of four bytes.
unfoldable pub words_of : List ℕ → List ℕ
unfolding from_le
words_of (a ∷ b ∷ c ∷ d ∷ rest) = from_le (a ∷ b ∷ c ∷ d ∷ []) ∷ words_of rest
words_of _ = []

-- One round of a line, with the step function, the word and the shift that the round takes.
unfoldable pub line_round : (ℕ → ℕ → ℕ → ℕ) → ℕ → ℕ → ℕ → Words → Words
unfolding rotate_left add32
line_round mix word constant shift w =
    let tmp = rotate_left 32 (add32 (add32 (add32 w.a (mix w.b w.c w.d)) word) constant) shift in
    record { a = w.d; b = tmp; c = w.b; d = w.c }

-- The 64 rounds: `rounds` are left, and the next is `idx`.
unfoldable pub compress_rounds : ℕ → ℕ → List ℕ → Words → Words → Words × Words
unfolding line_round f fp k kp
compress_rounds zero idx words left right = (left, right)
compress_rounds (suc rounds) idx words left right =
    compress_rounds rounds (idx + 1) words
      (line_round (f idx) (get_or words (get_or ripemd128_r idx 0) 0) (k idx)
        (get_or ripemd128_s idx 0) left)
      (line_round (fp idx) (get_or words (get_or ripemd128_rp idx 0) 0) (kp idx)
        (get_or ripemd128_sp idx 0) right)

unfoldable pub ripemd128_compress : Words → List ℕ → Words
unfolding compress_rounds words_of add32
ripemd128_compress h chunk =
    let (left, right) = compress_rounds 64 0 (words_of chunk) h h in
    record {
      a = add32 (add32 h.b left.c) right.d;
      b = add32 (add32 h.c left.d) right.a;
      c = add32 (add32 h.d left.a) right.b;
      d = add32 (add32 h.a left.b) right.c;
    }

-- `chunks_exact(64)`: the loop over whole blocks, and the remainder.
unfoldable pub compress_chunks : ℕ → Words → List ℕ → Words × List ℕ
unfolding ripemd128_compress
compress_chunks zero h bytes = (h, bytes)
compress_chunks (suc fuel) h bytes =
    let rest = compress_chunks fuel (ripemd128_compress h (take 64 bytes)) (drop 64 bytes) in
    if ltb (length bytes) 64 then (h, bytes) else rest

-- `tail[..padded_len]`
unfoldable pub padded_tail : List ℕ → ℕ → List ℕ
unfolding to_le
padded_tail remainder len =
    let padded_len = if ltb (length remainder) 56 then 64 else 128 in
    remainder
    ++ (128 ∷ replicate (padded_len - 9 - length remainder) 0)
    ++ to_le 8 (len * 8 % 2 ^ 64)

-- The words of the state in little-endian order.
unfoldable pub digest : Words → List ℕ
unfolding to_le
digest h = to_le 4 h.a ++ (to_le 4 h.b ++ (to_le 4 h.c ++ to_le 4 h.d))

unfoldable pub ripemd128 : List ℕ → List ℕ
unfolding compress_chunks padded_tail digest
ripemd128 bytes =
    let start : Words = record { a = 0x67452301; b = 0xefcdab89; c = 0x98badcfe; d = 0x10325476 } in
    let (state, remainder) = compress_chunks (length bytes) start bytes in
    let (h, _) = compress_chunks 2 state (padded_tail remainder (length bytes)) in digest h

-- `state[target] ^= state[x].wrapping_add(state[y]).rotate_left(by)`
unfoldable pub mix_word : ℕ → ℕ → ℕ → ℕ → List ℕ → List ℕ
mix_word target x y by state = set state target (
    bit_xor (get_or state target 0)
      (rotate_left 32 (add32 (get_or state x 0) (get_or state y 0)) by))

unfoldable pub quarter_round : ℕ → ℕ → ℕ → ℕ → List ℕ → List ℕ
quarter_round a b c d state =
    mix_word a d c 18 (mix_word d c b 13 (mix_word c b a 9 (mix_word b a d 7 state)))

unfoldable pub column_round : List ℕ → List ℕ
column_round state =
    quarter_round 15 3 7 11
      (quarter_round 10 14 2 6 (quarter_round 5 9 13 1 (quarter_round 0 4 8 12 state)))

unfoldable pub row_round : List ℕ → List ℕ
row_round state =
    quarter_round 15 12 13 14
      (quarter_round 10 11 8 9 (quarter_round 5 6 7 4 (quarter_round 0 1 2 3 state)))

unfoldable pub double_round : List ℕ → List ℕ
double_round state = row_round (column_round state)

-- "expa", "nd 1", "6-by" and "te k", and the key and the counter between them.
unfoldable pub initial_state : List ℕ → ℕ → List ℕ
initial_state key counter =
    let words = words_of key in
    0x61707865 ∷ words
    ++ 0x3120646e ∷ 0 ∷ 0 ∷ (counter % 2 ^ 32) ∷ (counter / 2 ^ 32 % 2 ^ 32) ∷ 0x79622d36 ∷ words
    ++ 0x6b206574 ∷ []

unfoldable pub add_words : List ℕ → List ℕ → List ℕ
add_words [] src = []
add_words (d ∷ dst) [] = d ∷ dst
add_words (d ∷ dst) (s ∷ src) = add32 d s ∷ add_words dst src

unfoldable pub bytes_of : List ℕ → List ℕ
bytes_of [] = []
bytes_of (w ∷ words) = to_le 4 w ++ bytes_of words

unfoldable pub salsa20_8_block : List ℕ → ℕ → List ℕ
salsa20_8_block key counter =
    let state = initial_state key counter in
    bytes_of (add_words (double_round (double_round (double_round (double_round state)))) state)

-- `for (dst, src) in chunk.iter_mut().zip(keystream.iter()) { *dst ^= *src; }`
unfoldable pub xor_bytes : List ℕ → List ℕ → List ℕ
xor_bytes [] keystream = []
xor_bytes (d ∷ chunk) [] = d ∷ chunk
xor_bytes (d ∷ chunk) (s ∷ keystream) = bit_xor d s ∷ xor_bytes chunk keystream

-- The loop over `chunks_mut(64)`; a round takes a byte at least.
unfoldable pub salsa20_8_chunks : ℕ → List ℕ → ℕ → List ℕ → List ℕ
salsa20_8_chunks zero key counter data' = data'
salsa20_8_chunks (suc fuel) key counter data' =
    let rest = salsa20_8_chunks fuel key (counter + 1) (drop 64 data') in
    if length data' == 0
    then []
    else xor_bytes (take 64 data') (salsa20_8_block key counter) ++ rest

unfoldable pub salsa20_8_xor : List ℕ → List ℕ → List ℕ
salsa20_8_xor key data' = salsa20_8_chunks (length data') key 0 data'
