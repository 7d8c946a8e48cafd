-- ===== src/Records/Stream.antt =====
-- The decoded record stream: the contents of the blocks, one behind the other.
use mdictlib.Prelude.{
  ℕ, zero, suc, ◌+◌, ◌-◌, ◌≤◌, some, List, [], ◌∷◌, ◌++◌, length, get_elem?, length-append, take,
  drop, length-drop, slice, ◌≡◌, refl, sym, ap, ◌∙◌, arith,
}
use mathlib.Core.Path.{ap₂}
use mdictlib.Descriptors.{RecordBlockDescriptor}
use mdictlib.Descriptors.Search.{get_elem?-bounds}
use mdictlib.Descriptors.Verify.{CoversRecords}

-- The contents of the blocks, each of the size that its descriptor declares.
abbrev pub Contents : List RecordBlockDescriptor → List (List ℕ) → Type 0
Contents [] [] = Unit {0}
Contents [] (c ∷ cs) = ⊥
Contents (b ∷ bs) [] = ⊥
Contents (b ∷ bs) (c ∷ cs) = (length c ≡ b.decomp_size) × Contents bs cs

abbrev pub stream : List (List ℕ) → List ℕ
stream [] = []
stream (c ∷ cs) = c ++ stream cs

pub length-stream :
    (bs : List RecordBlockDescriptor) (cs : List (List ℕ)) (start total : ℕ)
    → CoversRecords bs start total
    → Contents bs cs
    → start + length (stream cs) ≡ total
length-stream [] [] start total h c = omega arith
length-stream [] (x ∷ cs) start total h c = absurd c
length-stream (b ∷ bs) [] start total h c = absurd c
length-stream (b ∷ bs) (x ∷ cs) start total h c =
    omega (
      arith,
      length-append x (stream cs),
      length-stream bs cs (start + b.decomp_size) total h.1 c.1,
    )

drop_past : (n : ℕ) (xs ys : List ℕ) → length xs ≤ n → drop n (xs ++ ys) ≡ drop (n - length xs) ys
drop_past n [] ys h = ap (λ k. drop k ys) (omega arith)
drop_past zero (x ∷ xs) ys h = absurd (omega arith)
drop_past (suc n) (x ∷ xs) ys h =
    drop_past n xs ys (omega arith) ∙ ap (λ k. drop k ys) (omega arith)

take_within : (n : ℕ) (xs ys : List ℕ) → n ≤ length xs → take n (xs ++ ys) ≡ take n xs
take_within zero xs ys h = refl
take_within (suc n) [] ys h = absurd (omega arith)
take_within (suc n) (x ∷ xs) ys h = ap (λ t. x ∷ t) (take_within n xs ys (omega arith))

drop_within : (n : ℕ) (xs ys : List ℕ) → n ≤ length xs → drop n (xs ++ ys) ≡ drop n xs ++ ys
drop_within zero xs ys h = refl
drop_within (suc n) [] ys h = absurd (omega arith)
drop_within (suc n) (x ∷ xs) ys h = drop_within n xs ys (omega arith)

slice_within :
    (i j : ℕ) (xs ys : List ℕ) → i ≤ j → j ≤ length xs → slice i j (xs ++ ys) ≡ slice i j xs
slice_within i j xs ys p q =
    rw (drop_within i xs ys (omega arith))
      (take_within (j - i) (drop i xs) ys (omega (arith, length-drop i xs)))

slice_past :
    (i j : ℕ) (xs ys : List ℕ)
    → length xs ≤ i
    → i ≤ j
    → slice i j (xs ++ ys) ≡ slice (i - length xs) (j - length xs) ys
slice_past i j xs ys p q =
    rw (drop_past i xs ys p) (ap (λ k. take k (drop (i - length xs) ys)) (omega arith))

-- The part of a block between two offsets is the part of the stream between them.
pub slice-stream :
    (bs : List RecordBlockDescriptor) (cs : List (List ℕ)) (start total k x y : ℕ)
    (b : RecordBlockDescriptor) (c : List ℕ)
    → CoversRecords bs start total
    → Contents bs cs
    → get_elem? bs k ≡ some b
    → get_elem? cs k ≡ some c
    → b.decomp_offset ≤ x
    → x ≤ y
    → y ≤ b.decomp_offset + b.decomp_size
    → slice (x - start) (y - start) (stream cs)
      ≡ slice (x - b.decomp_offset) (y - b.decomp_offset) c
slice-stream [] cs start total k x y b c h ct e f p q r = cc
slice-stream (b' ∷ bs) [] start total k x y b c h ct e f p q r = absurd ct
slice-stream (b' ∷ bs) (c' ∷ cs) start total zero x y b c h ct e f p q r =
    let eb : b' ≡ b = cc in
    let ec : c' ≡ c = cc in
    let st : start ≡ b.decomp_offset = ground arith in
    let size : length c ≡ b.decomp_size = rw (← ec, ← eb) ct.0 in
    rw (ec, st)
      (slice_within (x - b.decomp_offset) (y - b.decomp_offset) c (stream cs) (omega arith)
        (omega arith))
slice-stream (b' ∷ bs) (c' ∷ cs) start total (suc k) x y b c h ct e f p q r =
    let next = start + b'.decomp_size in
    let bound = get_elem?-bounds bs next total k b h.1 e in
    slice_past (x - start) (y - start) c' (stream cs) (omega arith) (omega arith)
    ∙ ap₂ (λ i j. slice i j (stream cs)) (omega arith) (omega arith)
    ∙ slice-stream bs cs next total k x y b c h.1 ct.1 e f p q r

take_nil : (n : ℕ) → take {A = ℕ} n [] ≡ []
take_nil zero = refl
take_nil (suc n) = refl

drop_nil : (n : ℕ) → drop {A = ℕ} n [] ≡ []
drop_nil zero = refl
drop_nil (suc n) = refl

take_add : (m n : ℕ) (xs : List ℕ) → take m xs ++ take n (drop m xs) ≡ take (m + n) xs
take_add zero n xs = ap (λ k. take k xs) (omega arith)
take_add (suc m) n [] = take_nil n ∙ sym (take_nil (suc m + n))
take_add (suc m) n (x ∷ xs) =
    let e : suc (m + n) ≡ suc m + n = omega arith in
    ap (λ t. x ∷ t) (take_add m n xs) ∙ ap (λ k. take k (x ∷ xs)) e

drop-drop : (m n : ℕ) (xs : List ℕ) → drop n (drop m xs) ≡ drop (m + n) xs
drop-drop zero n xs = ap (λ k. drop k xs) (omega arith)
drop-drop (suc m) n [] = drop_nil n ∙ sym (drop_nil (suc m + n))
drop-drop (suc m) n (x ∷ xs) =
    let e : suc (m + n) ≡ suc m + n = omega arith in drop-drop m n xs ∙ ap (λ k. drop k (x ∷ xs)) e

-- Two adjacent slices are one.
pub slice_join :
    (i j k : ℕ) (xs : List ℕ) → i ≤ j → j ≤ k → slice i j xs ++ slice j k xs ≡ slice i k xs
slice_join i j k xs p q =
    ap (λ t. take (j - i) (drop i xs) ++ take (k - j) t)
      (ap (λ t. drop t xs) (omega arith) ∙ sym (drop-drop i (j - i) xs))
    ∙ take_add (j - i) (k - j) (drop i xs)
    ∙ ap (λ t. take t (drop i xs)) (omega arith)
