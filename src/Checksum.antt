-- ===== src/Checksum.antt =====
-- format/common/checksum.rs: Adler-32 with the sums reduced once in a block of 5552 bytes.
pub mod Blocks
use mdictlib.Prelude.{
  ℕ, zero, suc, ◌+◌, ◌*◌, ◌%◌, ◌^◌, String, List, [], ◌∷◌, ◌==◌, if◌then◌else◌, length, take, drop,
}
use mdictlib.Error.{Result, ok, err}
use Prim.Native.Nat.{bit_or}
use mdictlib.Error.{checksum_mismatch}

abbrev pub mod_adler : ℕ
mod_adler = 65521

abbrev pub reduction_block_bytes : ℕ
reduction_block_bytes = 5552

-- `u32` addition.
unfoldable pub add_u32 : ℕ → ℕ → ℕ
add_u32 a b = (a + b) % 2 ^ 32

-- `bytes.chunks(size)`; a chunk takes a byte at least, so the length is enough fuel.
unfoldable pub chunks : ℕ → ℕ → List ℕ → List (List ℕ)
chunks zero size bytes = []
chunks (suc fuel) size [] = []
chunks (suc fuel) size (b ∷ bytes) =
    take size (b ∷ bytes) ∷ chunks fuel size (drop size (b ∷ bytes))

-- The inner loop, over the bytes of a block.
unfoldable pub sum_block : List ℕ → ℕ → ℕ → ℕ × ℕ
unfolding add_u32
sum_block [] a b = (a, b)
sum_block (byte ∷ block) a b = let a' = add_u32 a byte in sum_block block a' (add_u32 b a')

unfoldable pub sum_blocks : List (List ℕ) → ℕ → ℕ → ℕ × ℕ
unfolding sum_block
sum_blocks [] a b = (a, b)
sum_blocks (block ∷ blocks) a b =
    let (a', b') = sum_block block a b in sum_blocks blocks (a' % mod_adler) (b' % mod_adler)

-- `(b << 16) | a` of a `u32`.
unfoldable pub pack : ℕ × ℕ → ℕ
pack (a, b) = bit_or (b * 2 ^ 16 % 2 ^ 32) a

unfoldable pub adler32 : List ℕ → ℕ
unfolding chunks sum_blocks pack
adler32 bytes = pack (sum_blocks (chunks (length bytes) reduction_block_bytes bytes) 1 0)

unfoldable pub verify_adler32 : String → List ℕ → ℕ → Result (Unit {0})
verify_adler32 context bytes expected =
    if adler32 bytes == expected
    then ok tt
    else err (checksum_mismatch context expected (adler32 bytes))
