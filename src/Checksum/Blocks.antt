-- ===== src/Checksum/Blocks.antt =====
-- The block-wise sums never overflow a `u32`, and give the sums that are reduced at every byte.
use mdictlib.Prelude.{
  ℕ, zero, suc, ◌+◌, ◌*◌, ◌%◌, ◌^◌, ◌≤◌, ◌<◌, List, [], ◌∷◌, ◌++◌, length, take, drop, length-take,
  length-drop, take-append-drop, ◌≡◌, refl, sym, ap, ◌∙◌, arith,
}
use mdictlib.Bytes.{IsBytes}
use mdictlib.Checksum.{
  mod_adler, reduction_block_bytes, add_u32, chunks, sum_block, sum_blocks, pack, adler32,
}

-- The definition of Adler-32: both sums are reduced at every byte.
unfoldable pub bytewise : List ℕ → ℕ → ℕ → ℕ × ℕ
bytewise [] a b = (a, b)
bytewise (byte ∷ bytes) a b =
    let a' = (a + byte) % mod_adler in bytewise bytes a' ((b + a') % mod_adler)

unfoldable pub bytewise_adler32 : List ℕ → ℕ
unfolding bytewise pack
bytewise_adler32 bytes = pack (bytewise bytes 1 0)

-- The sums of a block without any reduction.
exact : List ℕ → ℕ → ℕ → ℕ × ℕ
exact [] a b = (a, b)
exact (byte ∷ block) a b = exact block (a + byte) (b + (a + byte))

-- After `i` bytes of a block; the bound on `b` grows with the square of `i`.
record IsSmall (i a b : ℕ) : Type 0 where
  first : a ≤ 65520 + 255 * i
  second : 2 * b ≤ 131040 + 131040 * i + 255 * (i * (i + 1))

square-le : (i : ℕ) → i ≤ 5552 → i * i ≤ 5552 * 5552
square-le i h = grind arith

fits : (i a b : ℕ) → IsSmall i a b → i ≤ 5552 → (a < 2 ^ 32) × (b < 2 ^ 32)
fits i a b s h = (omega arith, omega (arith, square-le i h))

sum_block-exact :
    (block : List ℕ) (i a b : ℕ)
    → IsBytes block
    → IsSmall i a b
    → i + length block ≤ 5552
    → sum_block block a b ≡ exact block a b
unfolding sum_block exact
sum_block-exact [] i a b bs s h = refl
sum_block-exact (byte ∷ block) i a b bs s h =
    let s' : IsSmall (i + 1) (a + byte) (b + (a + byte)) = omega arith in
    let f = fits (i + 1) (a + byte) (b + (a + byte)) s' (omega arith) in
    let ea : add_u32 a byte ≡ a + byte = unfold add_u32 in omega arith in
    let eb : add_u32 b (a + byte) ≡ b + (a + byte) = unfold add_u32 in omega arith in
    rw (ea, eb) (sum_block-exact block (i + 1) (a + byte) (b + (a + byte)) bs.1 s' (omega arith))

bytewise-exact :
    (block : List ℕ) (a b : ℕ)
    → bytewise block (a % mod_adler) (b % mod_adler)
      ≡ ((exact block a b).0 % mod_adler, (exact block a b).1 % mod_adler)
unfolding bytewise exact
bytewise-exact [] a b = refl
bytewise-exact (byte ∷ block) a b =
    let ea : (a % mod_adler + byte) % mod_adler ≡ (a + byte) % mod_adler = omega arith in
    let eb : (b % mod_adler + (a + byte) % mod_adler) % mod_adler ≡ (b + (a + byte)) % mod_adler =
      omega arith in
    rw (ea, eb) (bytewise-exact block (a + byte) (b + (a + byte)))

bytewise-append :
    (xs ys : List ℕ) (a b : ℕ)
    → bytewise (xs ++ ys) a b ≡ bytewise ys (bytewise xs a b).0 (bytewise xs a b).1
unfolding bytewise
bytewise-append [] ys a b = refl
bytewise-append (x ∷ xs) ys a b =
    bytewise-append xs ys ((a + x) % mod_adler) ((b + (a + x) % mod_adler) % mod_adler)

IsBytes-take : (n : ℕ) (bs : List ℕ) → IsBytes bs → IsBytes (take n bs)
IsBytes-take zero bs h = tt
IsBytes-take (suc n) [] h = tt
IsBytes-take (suc n) (b ∷ bs) h = (h.0, IsBytes-take n bs h.1)

IsBytes-drop : (n : ℕ) (bs : List ℕ) → IsBytes bs → IsBytes (drop n bs)
IsBytes-drop zero bs h = h
IsBytes-drop (suc n) [] h = tt
IsBytes-drop (suc n) (b ∷ bs) h = IsBytes-drop n bs h.1

-- One block, reduced at its end.
sum_block-bytewise :
    (block : List ℕ) (a b : ℕ)
    → IsBytes block
    → length block ≤ 5552
    → a < mod_adler
    → b < mod_adler
    → ((sum_block block a b).0 % mod_adler, (sum_block block a b).1 % mod_adler)
      ≡ bytewise block a b
sum_block-bytewise block a b bs h ha hb =
    let small : IsSmall 0 a b = omega arith in
    let ea : a % mod_adler ≡ a = omega arith in
    let eb : b % mod_adler ≡ b = omega arith in
    rw (sum_block-exact block 0 a b bs small (omega arith))
      (sym (rw (ea, eb) at (bytewise-exact block a b)))

-- To go on after a prefix from its sums.
resume :
    (n : ℕ) (bytes : List ℕ) (a b : ℕ) (sums : ℕ × ℕ)
    → sums ≡ bytewise (take n bytes) a b
    → bytewise (drop n bytes) sums.0 sums.1 ≡ bytewise bytes a b
resume n bytes a b sums e = rw e (
    sym (bytewise-append (take n bytes) (drop n bytes) a b)
    ∙ ap (λ (l : List ℕ). bytewise l a b) (take-append-drop n bytes))

sum_blocks-bytewise :
    (fuel : ℕ) (bytes : List ℕ) (a b : ℕ)
    → IsBytes bytes
    → length bytes ≤ fuel
    → a < mod_adler
    → b < mod_adler
    → sum_blocks (chunks fuel reduction_block_bytes bytes) a b ≡ bytewise bytes a b
unfolding chunks sum_blocks
sum_blocks-bytewise zero [] a b bs h ha hb = unfold bytewise in refl
sum_blocks-bytewise zero (x ∷ xs) a b bs h ha hb = absurd (omega arith)
sum_blocks-bytewise (suc fuel) [] a b bs h ha hb = unfold bytewise in refl
sum_blocks-bytewise (suc fuel) (x ∷ xs) a b bs h ha hb =
    let block = take 5552 (x ∷ xs) in
    let rest = drop 5552 (x ∷ xs) in
    let sums = sum_block block a b in
    let one : (sums.0 % mod_adler, sums.1 % mod_adler) ≡ bytewise block a b =
      sum_block-bytewise block a b (IsBytes-take 5552 (x ∷ xs) bs)
        (omega (arith, length-take 5552 (x ∷ xs))) ha hb in
    sum_blocks-bytewise fuel rest (sums.0 % mod_adler) (sums.1 % mod_adler)
      (IsBytes-drop 5552 (x ∷ xs) bs) (omega (arith, length-drop 5552 (x ∷ xs))) (omega arith)
      (omega arith)
    ∙ resume 5552 (x ∷ xs) a b (sums.0 % mod_adler, sums.1 % mod_adler) one

-- On any bytes, the block-wise checksum is the one that is reduced at every byte.
pub adler32-bytewise : (bytes : List ℕ) → IsBytes bytes → adler32 bytes ≡ bytewise_adler32 bytes
unfolding adler32 bytewise_adler32
adler32-bytewise bytes bs =
    ap pack
      (sum_blocks-bytewise (length bytes) bytes 1 0 bs (omega arith) (omega arith) (omega arith))
