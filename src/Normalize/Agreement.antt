-- ===== src/Normalize/Agreement.antt =====
-- The three forms agree: the bytes are the UTF-8 of the text, and the length is theirs.
use mdictlib.Prelude.{
  ℕ, ◌+◌, ◌≤◌, Bool, Bool-cases, true, false, ◌||◌, [], ◌∷◌, ◌++◌, append_assoc, append-nil, length,
  length-append, ltb, if◌then◌else◌, ◌≡◌, refl, sym, ap, ◌∙◌, inl, inr, arith,
}
use mdictlib.Error.{ok}
use mdictlib.Limits.{u64_max}
use mdictlib.Limits.Laws.{checked_add_fits}
use mdictlib.Descriptors.{Text}
use mdictlib.CaseVariants.{ascii_lower}
use mdictlib.Normalize.{
  KeyNormalizer, encode_utf8, len_utf8, retains, skips, separated, push_text, normalize_loop,
  normalize_into, encode_all, push_bytes, normalize_bytes_loop, normalize_bytes_into, add_len,
  add_lens, push_len, normalized_len_loop, normalized_len, normalize,
}

length-encode_utf8 : (c : ℕ) → length (encode_utf8 c) ≡ len_utf8 c
unfolding encode_utf8 len_utf8
length-encode_utf8 c = ground arith

module _ (to_lowercase : ℕ → Text) (n : KeyNormalizer) where
  encode_all-append :
      (xs ys : Text)
      → encode_all to_lowercase n (xs ++ ys)
        ≡ encode_all to_lowercase n xs ++ encode_all to_lowercase n ys
  encode_all-append [] ys = refl
  encode_all-append (c ∷ cs) ys =
      ap (λ t. encode_utf8 c ++ t) (encode_all-append cs ys)
      ∙ sym (
          append_assoc (encode_utf8 c) (encode_all to_lowercase n cs)
            (encode_all to_lowercase n ys))

  push_bytes-push_text :
      (c : ℕ) → push_bytes to_lowercase n c ≡ encode_all to_lowercase n (push_text to_lowercase n c)
  unfolding push_bytes push_text
  push_bytes-push_text c = elim (Bool-cases (n.case_sensitive || ltb c 128)) [
    | inl e ↦ rw e (sym (append-nil _))
    | inr e ↦ rw e refl
  ]

  bytes_loop :
      (start : Bool) (raw : Text)
      → normalize_bytes_loop to_lowercase n start raw
        ≡ encode_all to_lowercase n (normalize_loop to_lowercase n start raw)
  unfolding normalize_bytes_loop normalize_loop
  bytes_loop start [] = refl
  bytes_loop start (c ∷ cs) = elim (Bool-cases (skips n start c)) [
    | inl e ↦ rw e (bytes_loop start cs)
    | inr e ↦ elim (Bool-cases (retains n c)) [
      | inl r ↦
          rw (e, r, push_bytes-push_text (separated n c), bytes_loop false cs)
            (sym (
              encode_all-append (push_text to_lowercase n (separated n c))
                (normalize_loop to_lowercase n false cs)))
      | inr r ↦ rw (e, r) (bytes_loop false cs)
    ]
  ]

  -- The bytes that a text takes in UTF-8.
  abbrev pub text_len : Text → ℕ
  text_len text = length (encode_all to_lowercase n text)

  add_lens-ok :
      (cs : Text) (len : ℕ)
      → len + text_len cs ≤ u64_max
      → add_lens to_lowercase n len cs ≡ ok (len + text_len cs)
  unfolding add_lens add_len
  add_lens-ok [] len h = ap ok (omega arith)
  add_lens-ok (c ∷ cs) len h =
      let parts = length-append (encode_utf8 c) (encode_all to_lowercase n cs) in
      let one = length-encode_utf8 c in
      rw (checked_add_fits len (len_utf8 c) (omega arith))
        (add_lens-ok cs (len + len_utf8 c) (omega arith) ∙ ap ok (omega arith))

  -- Lower case keeps the length of an ASCII character.
  same_len :
      (c : ℕ)
      → (n.case_sensitive || ltb c 128) ≡ true
      → len_utf8 (if n.case_sensitive then c else ascii_lower c) ≡ len_utf8 c
  unfolding len_utf8 ascii_lower
  same_len c e = ground arith

  text_len-one : (c : ℕ) → text_len (c ∷ []) ≡ len_utf8 c
  text_len-one c = ap length (append-nil (encode_utf8 c)) ∙ length-encode_utf8 c

  push_len-ok :
      (c len : ℕ)
      → len + text_len (push_text to_lowercase n c) ≤ u64_max
      → push_len to_lowercase n len c ≡ ok (len + text_len (push_text to_lowercase n c))
  unfolding push_len push_text add_len
  push_len-ok c len h = elim (Bool-cases (n.case_sensitive || ltb c 128)) [
    | inr e ↦ rw e (add_lens-ok (to_lowercase c) len (rw e at h))
    | inl e ↦
        let one : text_len ((if n.case_sensitive then c else ascii_lower c) ∷ []) ≡ len_utf8 c =
          text_len-one (if n.case_sensitive then c else ascii_lower c) ∙ same_len c e in
        let small : len + text_len ((if n.case_sensitive then c else ascii_lower c) ∷ [])
            ≤ u64_max =
          rw e at h in
        rw (e, one, checked_add_fits len (len_utf8 c) (omega arith)) refl
  ]

  len_loop :
      (start : Bool) (raw : Text) (len : ℕ)
      → len + text_len (normalize_loop to_lowercase n start raw) ≤ u64_max
      → normalized_len_loop to_lowercase n start len raw
        ≡ ok (len + text_len (normalize_loop to_lowercase n start raw))
  unfolding normalized_len_loop normalize_loop
  len_loop start [] len h = ap ok (omega arith)
  len_loop start (c ∷ cs) len h = elim (Bool-cases (skips n start c)) [
    | inl e ↦ rw e (len_loop start cs len (rw e at h))
    | inr e ↦ elim (Bool-cases (retains n c)) [
      | inr r ↦ rw (e, r) (len_loop false cs len (rw (e, r) at h))
      | inl r ↦
          let pushed = push_text to_lowercase n (separated n c) in
          let rest = normalize_loop to_lowercase n false cs in
          let whole : text_len (pushed ++ rest) ≡ text_len pushed + text_len rest =
            ap length (encode_all-append pushed rest)
            ∙ length-append (encode_all to_lowercase n pushed) (encode_all to_lowercase n rest) in
          let small : len + text_len (pushed ++ rest) ≤ u64_max = rw (e, r) at h in
          rw (e, r, whole, push_len-ok (separated n c) len (omega arith))
            (len_loop false cs (len + text_len pushed) (omega arith) ∙ ap ok (omega arith))
    ]
  ]

-- For every key, whatever the profile of the dictionary: the bytes that `normalize_bytes_into` appends
-- are the UTF-8 of the text that `normalize_into` appends; and if they can be counted in a `usize`,
-- `normalized_len` is their number exactly, and `normalize` returns that text.
pub normalized_len-normalize :
    (to_lowercase : ℕ → Text) (n : KeyNormalizer) (raw : Text)
    → length (normalize_bytes_into to_lowercase n raw []) ≤ u64_max
    → (normalize_bytes_into to_lowercase n raw []
        ≡ encode_all to_lowercase n (normalize_into to_lowercase n raw []))
      × (normalized_len to_lowercase n raw
          ≡ ok (length (normalize_bytes_into to_lowercase n raw [])))
      × (normalize to_lowercase n raw ≡ ok (normalize_into to_lowercase n raw []))
unfolding normalize_bytes_into normalize_into normalized_len normalize
normalized_len-normalize to_lowercase n raw h =
    let bytes = bytes_loop to_lowercase n true raw in
    let small : text_len to_lowercase n (normalize_loop to_lowercase n true raw) ≤ u64_max =
      rw bytes at h in
    let size : 0 + text_len to_lowercase n (normalize_loop to_lowercase n true raw)
        ≡ length (normalize_bytes_loop to_lowercase n true raw) =
      omega (arith, ap length bytes) in
    let counted : normalized_len_loop to_lowercase n true 0 raw
        ≡ ok (length (normalize_bytes_loop to_lowercase n true raw)) =
      len_loop to_lowercase n true raw 0 (omega arith) ∙ ap ok size in
    (bytes, counted, rw counted refl)
