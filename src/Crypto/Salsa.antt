-- ===== src/Crypto/Salsa.antt =====
-- The Salsa20 stream cipher with 8 rounds and a 16-byte key, as its specification describes it: on a square
-- of words, by rows and their transposition. It is the description that `salsa20_8_xor` is compared with.
pub mod Rounds
pub mod Stream
use Prim.Native.Nat.{bit_xor}
use mdictlib.Prelude.{ℕ, ◌+◌, ◌*◌, ◌/◌, ◌%◌, ◌^◌, List, [], ◌∷◌, get_or}
use mdictlib.Bits.{rotate_left, add32}

pub record Row : Type 0 where
  pub y0 : ℕ
  pub y1 : ℕ
  pub y2 : ℕ
  pub y3 : ℕ

pub record Square : Type 0 where
  pub r0 : Row
  pub r1 : Row
  pub r2 : Row
  pub r3 : Row

unfoldable pub quarterround : Row → Row
quarterround y =
    let z1 = bit_xor y.y1 (rotate_left 32 (add32 y.y0 y.y3) 7) in
    let z2 = bit_xor y.y2 (rotate_left 32 (add32 z1 y.y0) 9) in
    let z3 = bit_xor y.y3 (rotate_left 32 (add32 z2 z1) 13) in
    let z0 = bit_xor y.y0 (rotate_left 32 (add32 z3 z2) 18) in
    record { y0 = z0; y1 = z1; y2 = z2; y3 = z3 }

-- The row that begins one word later, in a circle.
abbrev pub turn : Row → Row
turn y = record { y0 = y.y1; y1 = y.y2; y2 = y.y3; y3 = y.y0 }

-- Each row is begun at the diagonal.
unfoldable pub rowround : Square → Square
unfolding quarterround
rowround s = record {
  r0 = quarterround s.r0;
  r1 = turn (turn (turn (quarterround (turn s.r1))));
  r2 = turn (turn (quarterround (turn (turn s.r2))));
  r3 = turn (quarterround (turn (turn (turn s.r3))));
}

abbrev pub transpose : Square → Square
transpose s = record {
  r0 = record { y0 = s.r0.y0; y1 = s.r1.y0; y2 = s.r2.y0; y3 = s.r3.y0 };
  r1 = record { y0 = s.r0.y1; y1 = s.r1.y1; y2 = s.r2.y1; y3 = s.r3.y1 };
  r2 = record { y0 = s.r0.y2; y1 = s.r1.y2; y2 = s.r2.y2; y3 = s.r3.y2 };
  r3 = record { y0 = s.r0.y3; y1 = s.r1.y3; y2 = s.r2.y3; y3 = s.r3.y3 };
}

unfoldable pub columnround : Square → Square
unfolding rowround
columnround s = transpose (rowround (transpose s))

unfoldable pub doubleround : Square → Square
unfolding rowround columnround
doubleround s = rowround (columnround s)

abbrev pub row_sum : Row → Row → Row
row_sum a b = record {
  y0 = add32 a.y0 b.y0;
  y1 = add32 a.y1 b.y1;
  y2 = add32 a.y2 b.y2;
  y3 = add32 a.y3 b.y3;
}

abbrev pub square_sum : Square → Square → Square
square_sum a b = record {
  r0 = row_sum a.r0 b.r0;
  r1 = row_sum a.r1 b.r1;
  r2 = row_sum a.r2 b.r2;
  r3 = row_sum a.r3 b.r3;
}

unfoldable pub core : Square → Square
unfolding doubleround
core s = square_sum (doubleround (doubleround (doubleround (doubleround s)))) s

-- Word `i` of the key, little-endian.
abbrev pub key_word : List ℕ → ℕ → ℕ
key_word key i =
    get_or key (4 * i) 0
    + 2 ^ 8 * get_or key (4 * i + 1) 0
    + 2 ^ 16 * get_or key (4 * i + 2) 0
    + 2 ^ 24 * get_or key (4 * i + 3) 0

-- The constants are on the diagonal; the nonce is 0, and the number of the block, of 64 bits, is two words.
unfoldable pub expand : List ℕ → ℕ → Square
expand key block = record {
  r0 = record { y0 = 0x61707865; y1 = key_word key 0; y2 = key_word key 1; y3 = key_word key 2 };
  r1 = record { y0 = key_word key 3; y1 = 0x3120646e; y2 = 0; y3 = 0 };
  r2 = record {
    y0 = block % 2 ^ 32;
    y1 = block / 2 ^ 32 % 2 ^ 32;
    y2 = 0x79622d36;
    y3 = key_word key 0;
  };
  r3 = record { y0 = key_word key 1; y1 = key_word key 2; y2 = key_word key 3; y3 = 0x6b206574 };
}

abbrev pub row_words : Row → List ℕ → List ℕ
row_words y rest = y.y0 ∷ y.y1 ∷ y.y2 ∷ y.y3 ∷ rest

abbrev pub square_words : Square → List ℕ
square_words s = row_words s.r0 (row_words s.r1 (row_words s.r2 (row_words s.r3 [])))

-- Byte `i` of consecutive little-endian words.
abbrev pub word_byte : List ℕ → ℕ → ℕ
word_byte words i = get_or words (i / 4) 0 / 256 ^ (i % 4) % 256

-- Byte `position` of the keystream, in blocks of 64 bytes.
unfoldable pub keystream_byte : List ℕ → ℕ → ℕ
unfolding core expand
keystream_byte key position =
    word_byte (square_words (core (expand key (position / 64)))) (position % 64)

-- A message of which the first byte has the position, byte by byte.
unfoldable pub xor_stream : List ℕ → ℕ → List ℕ → List ℕ
unfolding keystream_byte
xor_stream key position [] = []
xor_stream key position (b ∷ bytes) =
    bit_xor b (keystream_byte key position) ∷ xor_stream key (position + 1) bytes
