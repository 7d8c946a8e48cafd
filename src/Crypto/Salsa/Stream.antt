-- ===== src/Crypto/Salsa/Stream.antt =====
-- Each byte of a message meets the byte of the keystream at its position.
use mdictlib.Prelude.{
  ℕ, zero, suc, ◌+◌, ◌*◌, ◌/◌, ◌%◌, ◌^◌, ◌≤◌, ◌<◌, List, [], ◌∷◌, ◌++◌, get_or, length, length-take,
  length-drop, take, drop, take-append-drop, ◌≡◌, refl, sym, ap, ◌∙◌, arith,
}
use native.Mathlib.Decide.{dec_le}
use Prim.Native.Nat.{bit_xor}
use mdictlib.Bytes.{to_le}
use mdictlib.Crypto.{bytes_of, salsa20_8_block, xor_bytes, salsa20_8_chunks, salsa20_8_xor}
use mdictlib.Crypto.Cipher.{chunks_step, chunks-nil, drop-past, nonempty}
use mdictlib.Crypto.Salsa.{core, expand, square_words, keystream_byte, xor_stream, word_byte}
use mdictlib.Crypto.Salsa.Rounds.{salsa20_8_block-core}

word_bytes :
    (w : ℕ) (rest : List ℕ)
    → to_le 4 w ++ rest
      ≡ w / 256 ^ 0 % 256 ∷ w / 256 ^ 1 % 256 ∷ w / 256 ^ 2 % 256 ∷ w / 256 ^ 3 % 256 ∷ rest
unfolding to_le
word_bytes w rest =
    let b0 : w % 256 ≡ w / 1 % 256 = omega arith in
    let b2 : w / 256 / 256 % 256 ≡ w / 65536 % 256 = omega arith in
    let b3 : w / 256 / 256 / 256 % 256 ≡ w / 16777216 % 256 = omega arith in cc

next_word :
    (w : ℕ) (words : List ℕ) (i : ℕ)
    → word_byte (w ∷ words) (suc (suc (suc (suc i)))) ≡ word_byte words i
next_word w words i =
    let word : suc (suc (suc (suc i))) / 4 ≡ suc (i / 4) = omega arith in
    let byte : suc (suc (suc (suc i))) % 4 ≡ i % 4 = omega arith in
    ap (λ q. get_or (w ∷ words) q 0 / 256 ^ (suc (suc (suc (suc i))) % 4) % 256) word
    ∙ ap (λ r. get_or words (i / 4) 0 / 256 ^ r % 256) byte

-- The bytes of the words, by position.
get_or-bytes_of :
    (words : List ℕ) (i : ℕ)
    → i < 4 * length words
    → get_or (bytes_of words) i 0 ≡ word_byte words i
unfolding bytes_of
get_or-bytes_of [] i p = absurd (omega arith)
get_or-bytes_of (w ∷ words) zero p = rw (word_bytes w (bytes_of words)) refl
get_or-bytes_of (w ∷ words) (suc zero) p = rw (word_bytes w (bytes_of words)) refl
get_or-bytes_of (w ∷ words) (suc (suc zero)) p = rw (word_bytes w (bytes_of words)) refl
get_or-bytes_of (w ∷ words) (suc (suc (suc zero))) p = rw (word_bytes w (bytes_of words)) refl
get_or-bytes_of (w ∷ words) (suc (suc (suc (suc i)))) p =
    ap (λ t. get_or t (suc (suc (suc (suc i)))) 0) (word_bytes w (bytes_of words))
    ∙ get_or-bytes_of words i (omega arith)
    ∙ sym (next_word w words i)

length-bytes_of : (words : List ℕ) → length (bytes_of words) ≡ 4 * length words
unfolding bytes_of
length-bytes_of [] = refl
length-bytes_of (w ∷ words) =
    rw (word_bytes w (bytes_of words)) (omega (arith, length-bytes_of words))

at_position :
    (blocks : ℕ → List ℕ) (block i : ℕ)
    → i < 64
    → word_byte (blocks ((64 * block + i) / 64)) ((64 * block + i) % 64)
      ≡ word_byte (blocks block) i
at_position blocks block i p =
    let at_block : (64 * block + i) / 64 ≡ block = omega arith in
    let in_block : (64 * block + i) % 64 ≡ i = omega arith in cc

module _ (key : List ℕ) (sized : length key ≡ 16) where
  length-salsa20_8_block : (block : ℕ) → length (salsa20_8_block key block) ≡ 64
  length-salsa20_8_block block =
      rw (salsa20_8_block-core key block sized)
        (length-bytes_of (square_words (core (expand key block))))

  -- The bytes of a block of the code are those of the keystream.
  salsa20_8_block-keystream_byte :
      (block i : ℕ)
      → i < 64
      → get_or (salsa20_8_block key block) i 0 ≡ keystream_byte key (64 * block + i)
  unfolding keystream_byte
  salsa20_8_block-keystream_byte block i p =
      ap (λ t. get_or t i 0) (salsa20_8_block-core key block sized)
      ∙ get_or-bytes_of (square_words (core (expand key block))) i (omega arith)
      ∙ sym (at_position (λ n. square_words (core (expand key n))) block i p)

  xor_bytes-xor_stream :
      (chunk mask : List ℕ) (position : ℕ)
      → length chunk ≤ length mask
      → ((i : ℕ) → i < length chunk → get_or mask i 0 ≡ keystream_byte key (position + i))
      → xor_bytes chunk mask ≡ xor_stream key position chunk
  unfolding xor_bytes xor_stream
  xor_bytes-xor_stream [] mask position p h = refl
  xor_bytes-xor_stream (b ∷ chunk) [] position p h = absurd (omega arith)
  xor_bytes-xor_stream (b ∷ chunk) (s ∷ mask) position p h =
      let at_zero : position + 0 ≡ position = omega arith in
      let here : s ≡ keystream_byte key position =
        h 0 (omega arith) ∙ ap (keystream_byte key) at_zero in
      let moved : (i : ℕ) → position + suc i ≡ position + 1 + i = λ i. omega arith in
      let tail : xor_bytes chunk mask ≡ xor_stream key (position + 1) chunk =
        xor_bytes-xor_stream chunk mask (position + 1) (omega arith)
          (λ i q. h (suc i) (omega arith) ∙ ap (keystream_byte key) (moved i)) in
      cc

  xor_stream-append :
      (xs ys : List ℕ) (position : ℕ)
      → xor_stream key position (xs ++ ys)
        ≡ xor_stream key position xs ++ xor_stream key (position + length xs) ys
  unfolding xor_stream
  xor_stream-append [] ys position = ap (λ p. xor_stream key p ys) (omega arith)
  xor_stream-append (b ∷ xs) ys position =
      ap (λ t. bit_xor b (keystream_byte key position) ∷ t)
        (xor_stream-append xs ys (position + 1)
          ∙ ap (λ p. xor_stream key (position + 1) xs ++ xor_stream key p ys) (omega arith))

  -- What is left behind a chunk begins at the next block, if there is anything.
  next_block :
      (bytes : List ℕ) (block : ℕ)
      → xor_stream key (64 * block + length (take 64 bytes)) (drop 64 bytes)
        ≡ xor_stream key (64 * (block + 1)) (drop 64 bytes)
  unfolding xor_stream
  next_block bytes block = elim (dec_le 64 (length bytes)) [
    | yes full ↦ ap (λ p. xor_stream key p (drop 64 bytes)) (omega (arith, length-take 64 bytes))
    | no last ↦ rw (drop-past 64 bytes (omega arith)) refl
  ]

  chunks-xor_stream :
      (fuel block : ℕ) (bytes : List ℕ)
      → length bytes ≤ fuel
      → salsa20_8_chunks fuel key block bytes ≡ xor_stream key (64 * block) bytes
  chunks-xor_stream fuel block [] p = unfold xor_stream in chunks-nil fuel key block
  chunks-xor_stream zero block (b ∷ bytes) p = absurd (omega arith)
  chunks-xor_stream (suc fuel) block (b ∷ bytes) p =
      let chunk = take 64 (b ∷ bytes) in
      let rest = drop 64 (b ∷ bytes) in
      chunks_step fuel key block (b ∷ bytes) (nonempty (length bytes))
      ∙ ap (λ t. t ++ salsa20_8_chunks fuel key (block + 1) rest)
          (xor_bytes-xor_stream chunk (salsa20_8_block key block) (64 * block)
            (omega (arith, length-take 64 (b ∷ bytes), length-salsa20_8_block block))
            (λ i q.
              salsa20_8_block-keystream_byte block i (omega (arith, length-take 64 (b ∷ bytes)))))
      ∙ ap (λ t. xor_stream key (64 * block) chunk ++ t)
          (chunks-xor_stream fuel (block + 1) rest (omega (arith, length-drop 63 bytes))
            ∙ sym (next_block (b ∷ bytes) block))
      ∙ sym (xor_stream-append chunk rest (64 * block))
      ∙ ap (xor_stream key (64 * block)) (take-append-drop 64 (b ∷ bytes))

-- With a key of 16 bytes, the code does to a message of any length what the specification of Salsa20
-- with 8 rounds and nonce 0 says: the byte at each position is combined by exclusive or with the byte of
-- the keystream at that position, which the description by rows and transpositions gives.
pub salsa20_8_xor-xor_stream :
    (key bytes : List ℕ) → length key ≡ 16 → salsa20_8_xor key bytes ≡ xor_stream key 0 bytes
unfolding salsa20_8_xor
salsa20_8_xor-xor_stream key bytes sized =
    chunks-xor_stream key sized (length bytes) 0 bytes (omega arith)
