-- ===== src/Limits/Laws.antt =====
-- What the checked operations return.
use mdictlib.Prelude.{some, leb, true, refl, ℕ, ◌+◌, ◌*◌, ◌≤◌, ◌≡◌, arith}
use mdictlib.Error.{Error, ok, ok_or}
use mdictlib.Limits.{u64_max, checked_add, checked_mul}

pub checked_add-ok :
    (a b c : ℕ) (e : Error) → ok_or (checked_add a b) e ≡ ok c → (c ≡ a + b) × (c ≤ u64_max)
unfolding checked_add
checked_add-ok a b c e h = ground arith

pub checked_mul-ok :
    (a b c : ℕ) (e : Error) → ok_or (checked_mul a b) e ≡ ok c → (c ≡ a * b) × (c ≤ u64_max)
unfolding checked_mul
checked_mul-ok a b c e h = ground arith

pub checked_add_fits : (a b : ℕ) → a + b ≤ u64_max → checked_add a b ≡ some (a + b)
unfolding checked_add
checked_add_fits a b h = ground arith

pub checked_mul_fits : (a b : ℕ) → a * b ≤ u64_max → checked_mul a b ≡ some (a * b)
unfolding checked_mul
checked_mul_fits a b h = let on : leb (a * b) u64_max ≡ true = ground arith in rw on refl
