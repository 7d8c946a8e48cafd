-- ===== src/Bits/Xor.antt =====
-- The laws of `^` at every width, from its recursion on binary digits.
use Prim.Native.Nat.{digits, differ, bit_xor, bit_xor-bitwise}
use mdictlib.Prelude.{
  ℕ, zero, suc, ◌+◌, ◌*◌, ◌/◌, ◌%◌, ◌^◌, ◌≤◌, ◌<◌, ◌≡◌, refl, ◌∙◌, sym, ◌-◌, ap, arith,
}

no_digit : (fuel y : ℕ) → digits (λ y. y) differ fuel zero y ≡ y
no_digit zero y = refl
no_digit (suc fuel) y = refl

-- A round more changes nothing, when there were as many as the first number.
one_more :
    (fuel x y : ℕ)
    → x ≤ fuel
    → digits (λ y. y) differ (suc fuel) x y ≡ digits (λ y. y) differ fuel x y
one_more fuel zero y small = no_digit (suc fuel) y ∙ sym (no_digit fuel y)
one_more zero (suc x) y small = absurd (omega arith)
one_more (suc fuel) (suc x) y small =
    ap (λ (t : ℕ). t * 2 + differ (suc x % 2) (y % 2))
      (one_more fuel (suc x / 2) (y / 2) (omega arith))

digits_exact :
    (extra fuel x y : ℕ)
    → fuel ≡ extra + x
    → digits (λ y. y) differ fuel x y ≡ digits (λ y. y) differ x x y
digits_exact zero fuel x y e = ap (λ (m : ℕ). digits (λ y. y) differ m x y) (e ∙ omega arith)
digits_exact (suc extra) zero x y e = absurd (omega arith)
digits_exact (suc extra) (suc fuel) x y e =
    one_more fuel x y (omega arith) ∙ digits_exact extra fuel x y (omega arith)

differ_bits : (x y : ℕ) → x < 2 → y < 2 → differ x y ≡ (x + y) % 2
differ_bits zero y p q = omega arith
differ_bits (suc zero) zero p q = omega arith
differ_bits (suc zero) (suc zero) p q = omega arith
differ_bits (suc zero) (suc (suc y)) p q = absurd (omega arith)
differ_bits (suc (suc x)) y p q = absurd (omega arith)

zero-bit_xor : (b : ℕ) → bit_xor 0 b ≡ b
zero-bit_xor b = bit_xor-bitwise 0 b

-- The lowest digit.
pub bit_xor_step : (a b : ℕ) → bit_xor a b ≡ bit_xor (a / 2) (b / 2) * 2 + (a + b) % 2
bit_xor_step zero b = omega (arith, zero-bit_xor b, zero-bit_xor (b / 2))
bit_xor_step (suc a) b = omega (
  arith,
  bit_xor-bitwise (suc a) b,
  bit_xor-bitwise (suc a / 2) (b / 2),
  differ_bits (suc a % 2) (b % 2) (omega arith) (omega arith),
  digits_exact (a - suc a / 2) a (suc a / 2) (b / 2) (omega arith),
)

comm_fuel : (n a b : ℕ) → a ≤ n → b ≤ n → bit_xor a b ≡ bit_xor b a
comm_fuel zero zero zero p q = refl
comm_fuel zero zero (suc b) p q = absurd (omega arith)
comm_fuel zero (suc a) b p q = absurd (omega arith)
comm_fuel (suc n) a b p q = omega (
  arith,
  bit_xor_step a b,
  bit_xor_step b a,
  comm_fuel n (a / 2) (b / 2) (omega arith) (omega arith),
)

pub bit_xor_comm : (a b : ℕ) → bit_xor a b ≡ bit_xor b a
bit_xor_comm a b = comm_fuel (a + b) a b (omega arith) (omega arith)

pub bit_xor-zero : (a : ℕ) → bit_xor a 0 ≡ a
bit_xor-zero a = bit_xor_comm a 0 ∙ zero-bit_xor a

self_fuel : (n a : ℕ) → a ≤ n → bit_xor a a ≡ 0
self_fuel zero zero p = refl
self_fuel zero (suc a) p = absurd (omega arith)
self_fuel (suc n) a p = omega (arith, bit_xor_step a a, self_fuel n (a / 2) (omega arith))

assoc_fuel :
    (n a b c : ℕ) → a ≤ n → b ≤ n → c ≤ n → bit_xor (bit_xor a b) c ≡ bit_xor a (bit_xor b c)
assoc_fuel zero zero zero zero p q r = refl
assoc_fuel zero zero zero (suc c) p q r = absurd (omega arith)
assoc_fuel zero zero (suc b) c p q r = absurd (omega arith)
assoc_fuel zero (suc a) b c p q r = absurd (omega arith)
assoc_fuel (suc n) a b c p q r =
    let half_ab : bit_xor a b / 2 ≡ bit_xor (a / 2) (b / 2) = omega (arith, bit_xor_step a b) in
    let half_bc : bit_xor b c / 2 ≡ bit_xor (b / 2) (c / 2) = omega (arith, bit_xor_step b c) in
    let left =
      bit_xor_step (bit_xor a b) c
      ∙ ap (λ (t : ℕ). bit_xor t (c / 2) * 2 + (bit_xor a b + c) % 2) half_ab in
    let right =
      bit_xor_step a (bit_xor b c)
      ∙ ap (λ (t : ℕ). bit_xor (a / 2) t * 2 + (a + bit_xor b c) % 2) half_bc in
    omega (
      arith,
      left,
      right,
      bit_xor_step a b,
      bit_xor_step b c,
      assoc_fuel n (a / 2) (b / 2) (c / 2) (omega arith) (omega arith) (omega arith),
    )

pub bit_xor_assoc : (a b c : ℕ) → bit_xor (bit_xor a b) c ≡ bit_xor a (bit_xor b c)
bit_xor_assoc a b c = assoc_fuel (a + b + c) a b c (omega arith) (omega arith) (omega arith)

-- The same mask twice changes nothing.
pub bit_xor_cancel : (a b : ℕ) → bit_xor (bit_xor a b) b ≡ a
bit_xor_cancel a b =
    bit_xor_assoc a b b ∙ ap (bit_xor a) (self_fuel b b (omega arith)) ∙ bit_xor-zero a

pub bit_xor-lt : (k a b : ℕ) → a < 2 ^ k → b < 2 ^ k → bit_xor a b < 2 ^ k
bit_xor-lt zero zero zero p q = omega arith
bit_xor-lt zero zero (suc b) p q = absurd (omega arith)
bit_xor-lt zero (suc a) b p q = absurd (omega arith)
bit_xor-lt (suc k) a b p q =
    omega (arith, bit_xor_step a b, bit_xor-lt k (a / 2) (b / 2) (omega arith) (omega arith))
