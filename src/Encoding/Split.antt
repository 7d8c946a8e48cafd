-- ===== src/Encoding/Split.antt =====
-- split_terminated returns the text before the first terminator.
use mdictlib.Prelude.{
  ℕ, suc, ◌+◌, ◌*◌, ◌≤◌, ◌<◌, ◌==◌, leb, some, List, [], ◌∷◌, ◌++◌, String, length, replicate,
  drop-append, slice-append, length-append, ◌≡◌, refl, arith, true, false,
}
use mdictlib.Error.{ok}
use mdictlib.Limits.{u64_max}
use mdictlib.Limits.Laws.{checked_add_fits, checked_mul_fits}
use mdictlib.Encoding.{
  TextEncoding, utf8, utf16_le, gbk, gb18030, big5, unit_size, zero_byte, zero_unit, get_from,
  split_bytes, split_utf16, split_terminated,
}

abbrev pub terminator : TextEncoding → List ℕ
terminator encoding = replicate (unit_size encoding) 0

abbrev NoZero : List ℕ → Type 0
NoZero [] = Unit {0}
NoZero (b ∷ bs) = (0 < b) × NoZero bs

-- Whole units, none of which is zero.
abbrev NoZeroUnit : List ℕ → Type 0
NoZeroUnit [] = Unit {0}
NoZeroUnit (a ∷ []) = ⊥
NoZeroUnit (a ∷ b ∷ bs) = (0 < a + b) × NoZeroUnit bs

-- The bytes of a key hold no terminator.
abbrev pub Unterminated : TextEncoding → List ℕ → Type 0
Unterminated utf16_le bytes = NoZeroUnit bytes
Unterminated utf8 bytes = NoZero bytes
Unterminated gbk bytes = NoZero bytes
Unterminated gb18030 bytes = NoZero bytes
Unterminated big5 bytes = NoZero bytes

zero_byte-some :
    (bytes after : List ℕ) → NoZero bytes → zero_byte (bytes ++ (0 ∷ after)) ≡ some (length bytes)
unfolding zero_byte
zero_byte-some [] after h = refl
zero_byte-some (b ∷ bs) after h =
    let off : (b == 0) ≡ false = ground arith in rw (off, zero_byte-some bs after h.1) refl

zero_unit-some :
    (bytes after : List ℕ)
    → NoZeroUnit bytes
    → (n : ℕ) × (zero_unit (bytes ++ (0 ∷ 0 ∷ after)) ≡ some n) × (n * 2 ≡ length bytes)
unfolding zero_unit
zero_unit-some [] after h = (0, refl, refl)
zero_unit-some (a ∷ []) after h = absurd h
zero_unit-some (a ∷ b ∷ bs) after h =
    let rest = zero_unit-some bs after h.1 in (suc rest.0, ground (arith, rest.1), omega arith)

get_from-append : (before rest : List ℕ) → get_from (length before) (before ++ rest) ≡ some rest
unfolding get_from
get_from-append before rest =
    let on : leb (length before) (length (before ++ rest)) ≡ true =
      ground (arith, length-append before rest) in
    rw (on, drop-append) refl

split_bytes-ok :
    (before bytes after : List ℕ) (context : String)
    → NoZero bytes
    → length before + length bytes + 2 ≤ u64_max
    → split_bytes (before ++ (bytes ++ (0 ∷ after))) (length before) context
      ≡ ok (bytes, length before + length bytes + 1)
unfolding split_bytes
split_bytes-ok before bytes after context h m =
    rw
      (
        get_from-append before (bytes ++ (0 ∷ after)),
        zero_byte-some bytes after h,
        checked_add_fits (length before) (length bytes) (omega arith),
        checked_add_fits (length before + length bytes) 1 (omega arith),
        slice-append (length before) (length bytes) before bytes (0 ∷ after) refl refl,
      )
      refl

split_utf16-ok :
    (before bytes after : List ℕ) (context : String)
    → NoZeroUnit bytes
    → length before + length bytes + 2 ≤ u64_max
    → split_utf16 (before ++ (bytes ++ (0 ∷ 0 ∷ after))) (length before) context
      ≡ ok (bytes, length before + length bytes + 2)
unfolding split_utf16
split_utf16-ok before bytes after context h m =
    let found = zero_unit-some bytes after h in
    rw
      (
        get_from-append before (bytes ++ (0 ∷ 0 ∷ after)),
        found.1,
        checked_mul_fits found.0 2 (omega arith),
        found.2,
        checked_add_fits (length before) (length bytes) (omega arith),
        checked_add_fits (length before + length bytes) 2 (omega arith),
        slice-append (length before) (length bytes) before bytes (0 ∷ 0 ∷ after) refl refl,
      )
      refl

pub split_terminated-ok :
    (encoding : TextEncoding) (before bytes after : List ℕ) (context : String)
    → Unterminated encoding bytes
    → length before + length bytes + 2 ≤ u64_max
    → split_terminated encoding
        (before ++ (bytes ++ (terminator encoding ++ after)))
        (length before)
        context
      ≡ ok (bytes, length before + length bytes + unit_size encoding)
unfolding split_terminated unit_size
split_terminated-ok utf16_le before bytes after context h m =
    split_utf16-ok before bytes after context h m
split_terminated-ok utf8 before bytes after context h m =
    split_bytes-ok before bytes after context h m
split_terminated-ok gbk before bytes after context h m =
    split_bytes-ok before bytes after context h m
split_terminated-ok gb18030 before bytes after context h m =
    split_bytes-ok before bytes after context h m
split_terminated-ok big5 before bytes after context h m =
    split_bytes-ok before bytes after context h m
