-- ===== src/Crypto/Cipher.antt =====
-- Salsa20/8 with the same key twice is the identity.
use mdictlib.Prelude.{
  ℕ, zero, suc, ◌+◌, ◌≤◌, ◌<◌, ◌==◌, List, [], ◌∷◌, ◌++◌, length, length-append, length-take,
  length-drop, take, drop, take-append-drop, ◌≡◌, refl, ap, inl, inr, arith, ◌⊎◌, false,
}
use native.Mathlib.Decide.{dec_le}
use mdictlib.Bytes.{to_le, IsBytes, to_le-IsBytes, append-IsBytes, take-IsBytes, drop-IsBytes}
use mdictlib.Bits.Xor.{bit_xor_cancel, bit_xor-lt}
use mdictlib.Crypto.{bytes_of, salsa20_8_block, xor_bytes, salsa20_8_chunks, salsa20_8_xor}

pub length-xor_bytes :
    (chunk keystream : List ℕ) → length (xor_bytes chunk keystream) ≡ length chunk
unfolding xor_bytes
length-xor_bytes [] ks = refl
length-xor_bytes (d ∷ chunk) [] = refl
length-xor_bytes (d ∷ chunk) (s ∷ ks) = ap suc (length-xor_bytes chunk ks)

pub xor_bytes_twice :
    (chunk keystream : List ℕ) → xor_bytes (xor_bytes chunk keystream) keystream ≡ chunk
unfolding xor_bytes
xor_bytes_twice [] ks = refl
xor_bytes_twice (d ∷ chunk) [] = refl
xor_bytes_twice (d ∷ chunk) (s ∷ ks) = cc (bit_xor_cancel d s, xor_bytes_twice chunk ks)

-- A round of the loop on bytes that are left.
pub chunks_step :
    (fuel : ℕ) (key : List ℕ) (counter : ℕ) (bytes : List ℕ)
    → (length bytes == 0) ≡ false
    → salsa20_8_chunks (suc fuel) key counter bytes
      ≡ xor_bytes (take 64 bytes) (salsa20_8_block key counter)
        ++ salsa20_8_chunks fuel key (counter + 1) (drop 64 bytes)
unfolding salsa20_8_chunks
chunks_step fuel key counter bytes e = rw e refl

pub chunks-nil : (fuel : ℕ) (key : List ℕ) (counter : ℕ) → salsa20_8_chunks fuel key counter [] ≡ []
unfolding salsa20_8_chunks
chunks-nil zero key counter = refl
chunks-nil (suc fuel) key counter = refl

positive : (n : ℕ) → 0 < n → (n == 0) ≡ false
positive n p = ground arith

pub nonempty : (n : ℕ) → (suc n == 0) ≡ false
nonempty n = ground arith

pub length-salsa20_8_chunks :
    (fuel : ℕ) (key : List ℕ) (counter : ℕ) (bytes : List ℕ)
    → length bytes ≤ fuel
    → length (salsa20_8_chunks fuel key counter bytes) ≡ length bytes
length-salsa20_8_chunks fuel key counter [] p = ap length (chunks-nil fuel key counter)
length-salsa20_8_chunks zero key counter (b ∷ bytes) p = absurd (omega arith)
length-salsa20_8_chunks (suc fuel) key counter (b ∷ bytes) p =
    let mask = salsa20_8_block key counter in
    omega (
      arith,
      ap length (chunks_step fuel key counter (b ∷ bytes) (nonempty (length bytes))),
      length-append (xor_bytes (take 64 (b ∷ bytes)) mask)
          (salsa20_8_chunks fuel key (counter + 1) (drop 63 bytes)),
      length-xor_bytes (take 64 (b ∷ bytes)) mask,
      length-salsa20_8_chunks fuel key (counter + 1) (drop 63 bytes)
          (omega (arith, length-drop 63 bytes)),
      length-take 64 (b ∷ bytes),
      length-drop 63 bytes,
    )

-- A first chunk that is full, or the last one.
first_chunk :
    (n : ℕ) (xs ys : List ℕ)
    → (length xs ≡ n) ⊎ ((length xs ≤ n) × (ys ≡ []))
    → (take n (xs ++ ys) ≡ xs) × (drop n (xs ++ ys) ≡ ys)
first_chunk zero [] ys h = (refl, refl)
first_chunk zero (x ∷ xs) ys (inl e) = absurd (omega arith)
first_chunk zero (x ∷ xs) ys (inr h) = absurd (omega arith)
first_chunk (suc n) [] ys (inl e) = absurd (omega arith)
first_chunk (suc n) [] ys (inr h) = rw h.1 (refl, refl)
first_chunk (suc n) (x ∷ xs) ys (inl e) =
    let tail = first_chunk n xs ys (inl (omega arith)) in (ap (λ t. x ∷ t) tail.0, tail.1)
first_chunk (suc n) (x ∷ xs) ys (inr h) =
    let tail = first_chunk n xs ys (inr (omega arith, h.1)) in (ap (λ t. x ∷ t) tail.0, tail.1)

pub drop-past : (n : ℕ) (xs : List ℕ) → length xs ≤ n → drop n xs ≡ []
drop-past zero [] p = refl
drop-past zero (x ∷ xs) p = absurd (omega arith)
drop-past (suc n) [] p = refl
drop-past (suc n) (x ∷ xs) p = drop-past n xs (omega arith)

is_chunk :
    (fuel : ℕ) (key : List ℕ) (counter : ℕ) (bytes mask : List ℕ)
    → (length (xor_bytes (take 64 bytes) mask) ≡ 64)
      ⊎ ((length (xor_bytes (take 64 bytes) mask) ≤ 64)
          × (salsa20_8_chunks fuel key counter (drop 64 bytes) ≡ []))
is_chunk fuel key counter bytes mask = elim (dec_le 64 (length bytes)) [
  | yes full ↦ inl (omega (arith, length-xor_bytes (take 64 bytes) mask, length-take 64 bytes))
  | no last ↦ inr (
    omega (arith, length-xor_bytes (take 64 bytes) mask, length-take 64 bytes),
    rw (drop-past 64 bytes (omega arith)) (chunks-nil fuel key counter),
  )
]

chunks_twice :
    (fuel : ℕ) (key : List ℕ) (counter : ℕ) (bytes : List ℕ)
    → length bytes ≤ fuel
    → salsa20_8_chunks fuel key counter (salsa20_8_chunks fuel key counter bytes) ≡ bytes
chunks_twice fuel key counter [] p = rw (chunks-nil fuel key counter) (chunks-nil fuel key counter)
chunks_twice zero key counter (b ∷ bytes) p = absurd (omega arith)
chunks_twice (suc fuel) key counter (b ∷ bytes) p =
    let mask = salsa20_8_block key counter in
    let rest = salsa20_8_chunks fuel key (counter + 1) (drop 63 bytes) in
    let parts =
      first_chunk 64 (xor_bytes (take 64 (b ∷ bytes)) mask) rest
        (is_chunk fuel key (counter + 1) (b ∷ bytes) mask) in
    rw
      (
        chunks_step fuel key counter (b ∷ bytes) (nonempty (length bytes)),
        chunks_step fuel key counter (xor_bytes (take 64 (b ∷ bytes)) mask ++ rest) (
            positive _ (
              omega (
                arith,
                length-append (xor_bytes (take 64 (b ∷ bytes)) mask) rest,
                length-xor_bytes (take 64 (b ∷ bytes)) mask,
                length-take 64 (b ∷ bytes),
              ))),
        parts.0,
        parts.1,
        xor_bytes_twice (take 64 (b ∷ bytes)) mask,
        chunks_twice fuel key (counter + 1) (drop 63 bytes) (omega (arith, length-drop 63 bytes)),
      )
      (take-append-drop 64 (b ∷ bytes))

-- For every key and message: encrypting twice is the identity, and keeps the length.
pub salsa20_8_xor_twice :
    (key bytes : List ℕ)
    → (salsa20_8_xor key (salsa20_8_xor key bytes) ≡ bytes)
      × (length (salsa20_8_xor key bytes) ≡ length bytes)
unfolding salsa20_8_xor
salsa20_8_xor_twice key bytes =
    let kept = length-salsa20_8_chunks (length bytes) key 0 bytes (omega arith) in
    (rw kept (chunks_twice (length bytes) key 0 bytes (omega arith)), kept)

bytes_of-IsBytes : (words : List ℕ) → IsBytes (bytes_of words)
unfolding bytes_of
bytes_of-IsBytes [] = tt
bytes_of-IsBytes (w ∷ words) =
    append-IsBytes (to_le 4 w) (bytes_of words) (to_le-IsBytes 4 w) (bytes_of-IsBytes words)

xor_bytes-IsBytes :
    (chunk keystream : List ℕ)
    → IsBytes chunk
    → IsBytes keystream
    → IsBytes (xor_bytes chunk keystream)
unfolding xor_bytes
xor_bytes-IsBytes [] ks h k = tt
xor_bytes-IsBytes (d ∷ chunk) [] h k = h
xor_bytes-IsBytes (d ∷ chunk) (s ∷ ks) h k =
    (bit_xor-lt 8 d s h.0 k.0, xor_bytes-IsBytes chunk ks h.1 k.1)

chunks-IsBytes :
    (fuel : ℕ) (key : List ℕ) (counter : ℕ) (bytes : List ℕ)
    → IsBytes bytes
    → IsBytes (salsa20_8_chunks fuel key counter bytes)
unfolding salsa20_8_block
chunks-IsBytes fuel key counter [] h = rw (chunks-nil fuel key counter) tt
chunks-IsBytes zero key counter (b ∷ bytes) h = unfold salsa20_8_chunks in h
chunks-IsBytes (suc fuel) key counter (b ∷ bytes) h =
    rw (chunks_step fuel key counter (b ∷ bytes) (nonempty (length bytes))) (
      append-IsBytes _ _
        (xor_bytes-IsBytes _ _ (take-IsBytes 64 (b ∷ bytes) h) (bytes_of-IsBytes _))
        (chunks-IsBytes fuel key (counter + 1) (drop 63 bytes) (drop-IsBytes 63 bytes h.1)))

pub salsa20_8_xor-IsBytes : (key bytes : List ℕ) → IsBytes bytes → IsBytes (salsa20_8_xor key bytes)
unfolding salsa20_8_xor
salsa20_8_xor-IsBytes key bytes h = chunks-IsBytes (length bytes) key 0 bytes h
