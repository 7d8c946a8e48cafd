-- ===== src/Normalize.antt =====
-- core/normalize.rs: the normal form of a key, as text, as bytes and as a length. The table of
-- `char::to_lowercase` is the section's parameter. A text is the list of its characters.
pub mod Agreement
pub mod Profile
use mdictlib.Prelude.{
  ℕ, ◌+◌, ◌/◌, ◌%◌, Bool, true, false, ◌&&◌, ◌||◌, not, List, [], ◌∷◌, ◌++◌, ltb, leb, ◌==◌,
  if◌then◌else◌,
}
use mdictlib.Error.{Result, ok, ◌>>=◌, ok_or, invalid_format}
use mdictlib.Limits.{checked_add}
use mdictlib.Descriptors.{Text}
use mdictlib.CaseVariants.{ascii_lower}

-- `strip_profile` is `Some(AsciiAlphanumeric)` or `None`.
pub record KeyNormalizer : Type 0 where
  pub case_sensitive : Bool
  pub strip_profile : Bool
  pub resource_path : Bool

-- `char::encode_utf8` and `char::len_utf8`
unfoldable pub encode_utf8 : ℕ → List ℕ
encode_utf8 c =
    if ltb c 128
    then c ∷ []
    else if ltb c 2048
    then (192 + c / 64) ∷ (128 + c % 64) ∷ []
    else if ltb c 65536
    then (224 + c / 4096) ∷ (128 + c / 64 % 64) ∷ (128 + c % 64) ∷ []
    else (240 + c / 262144) ∷ (128 + c / 4096 % 64) ∷ (128 + c / 64 % 64) ∷ (128 + c % 64) ∷ []

unfoldable pub len_utf8 : ℕ → ℕ
len_utf8 c = if ltb c 128 then 1 else if ltb c 2048 then 2 else if ltb c 65536 then 3 else 4

unfoldable pub is_ascii_alphanumeric : ℕ → Bool
is_ascii_alphanumeric c =
    (leb 48 c && leb c 57) || ((leb 65 c && leb c 90) || (leb 97 c && leb c 122))

unfoldable pub retains : KeyNormalizer → ℕ → Bool
retains n c = not n.strip_profile || (not (ltb c 128) || is_ascii_alphanumeric c)

-- A leading separator of a resource path, which is left out.
unfoldable pub skips : KeyNormalizer → Bool → ℕ → Bool
skips n at_path_start c = n.resource_path && (at_path_start && (c == 47 || c == 92))

-- `/` becomes `\` in a resource path.
unfoldable pub separated : KeyNormalizer → ℕ → ℕ
separated n c = if n.resource_path && c == 47 then 92 else c

module _ (to_lowercase : ℕ → Text) (n : KeyNormalizer) where
  -- What one character that is retained appends to a text.
  unfoldable pub push_text : ℕ → Text
  push_text c =
      if n.case_sensitive || ltb c 128
      then (if n.case_sensitive then c else ascii_lower c) ∷ []
      else to_lowercase c

  -- The loop of `normalize_into`.
  unfoldable pub normalize_loop : Bool → Text → Text
  normalize_loop at_path_start [] = []
  normalize_loop at_path_start (c ∷ cs) =
      let same_start = normalize_loop at_path_start cs in
      let rest = normalize_loop false cs in
      if skips n at_path_start c
      then same_start
      else if retains n c
      then push_text (separated n c) ++ rest
      else rest

  unfoldable pub normalize_into : Text → Text → Text
  normalize_into raw out = out ++ normalize_loop true raw

  abbrev pub encode_all : Text → List ℕ
  encode_all [] = []
  encode_all (c ∷ cs) = encode_utf8 c ++ encode_all cs

  unfoldable pub push_bytes : ℕ → List ℕ
  push_bytes c =
      if n.case_sensitive || ltb c 128
      then encode_utf8 (if n.case_sensitive then c else ascii_lower c)
      else encode_all (to_lowercase c)

  -- The loop of `normalize_bytes_into`.
  unfoldable pub normalize_bytes_loop : Bool → Text → List ℕ
  normalize_bytes_loop at_path_start [] = []
  normalize_bytes_loop at_path_start (c ∷ cs) =
      let same_start = normalize_bytes_loop at_path_start cs in
      let rest = normalize_bytes_loop false cs in
      if skips n at_path_start c
      then same_start
      else if retains n c
      then push_bytes (separated n c) ++ rest
      else rest

  unfoldable pub normalize_bytes_into : Text → List ℕ → List ℕ
  normalize_bytes_into raw out = out ++ normalize_bytes_loop true raw

  unfoldable pub add_len : ℕ → ℕ → Result ℕ
  add_len length c =
      ok_or (checked_add length (len_utf8 c)) (invalid_format "normalized key length overflow")

  unfoldable pub add_lens : ℕ → Text → Result ℕ
  add_lens length [] = ok length
  add_lens length (c ∷ cs) = do length' ← add_len length c; add_lens length' cs

  unfoldable pub push_len : ℕ → ℕ → Result ℕ
  push_len length c =
      if n.case_sensitive || ltb c 128 then add_len length c else add_lens length (to_lowercase c)

  -- The loop of `normalized_len`.
  unfoldable pub normalized_len_loop : Bool → ℕ → Text → Result ℕ
  normalized_len_loop at_path_start length [] = ok length
  normalized_len_loop at_path_start length (c ∷ cs) =
      let same_start = normalized_len_loop at_path_start length cs in
      let dropped = normalized_len_loop false length cs in
      let pushed =
        push_len length (separated n c) >>= (λ length'. normalized_len_loop false length' cs) in
      if skips n at_path_start c then same_start else if retains n c then pushed else dropped

  unfoldable pub normalized_len : Text → Result ℕ
  normalized_len raw = normalized_len_loop true 0 raw

  -- `normalize`, whose reservation cannot fail here.
  unfoldable pub normalize : Text → Result Text
  normalize raw = do _ ← normalized_len raw; ok (normalize_into raw [])
