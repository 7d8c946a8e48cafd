-- ===== src/Budget/Accounts.antt =====
-- A computation over the budget that keeps reserved exactly what its result holds, and nothing when it fails.
use mdictlib.Prelude.{ℕ, ◌+◌, ◌≡◌, refl, arith}
use mdictlib.Error.{Result, ok, err}
use mdictlib.Budget.{MemoryBudget, claim}
use mdictlib.Budget.Laws.{IsSound, claim-IsSound, release-IsSound}
use mdictlib.Budget.Memory.{MemoryM, lift, continue, ◌>>=◌, Balanced, Ensures}
use mdictlib.Budget.Implements.{keep_scope, keep_claimed, with_retained}

unfoldable pub Kept {ℓ} : {A : Type ℓ} → (A → ℕ) → ℕ → Result A × MemoryBudget → Type 0
Kept held live (ok a, b) = IsSound b (live + held a)
Kept held live (err e, b) = IsSound b live

unfoldable pub Accounts {ℓ} : {A : Type ℓ} → MemoryM A → (A → ℕ) → Type 0
Accounts m held = (b : MemoryBudget) (live : ℕ) → IsSound b live → Kept held live (m b)

continue-Kept {ℓ κ} :
    {A : Type ℓ} {B : Type κ} (f : A → MemoryM B) (held : B → ℕ) (live : ℕ)
    (p : Result A × MemoryBudget)
    → IsSound p.1 live
    → ((a : A) → Accounts (f a) held)
    → Kept held live (continue f p)
unfolding Accounts Kept
continue-Kept f held live (ok a, b) s h = h a b live s
continue-Kept f held live (err e, b) s h = s

-- A computation that keeps nothing, and the rest.
pub bind-Accounts {ℓ κ} :
    {A : Type ℓ} {B : Type κ} (m : MemoryM A) (f : A → MemoryM B) (held : B → ℕ)
    → Balanced m
    → ((a : A) → Accounts (f a) held)
    → Accounts (m >>= f) held
unfolding Accounts ◌>>=◌
bind-Accounts m f held balanced h b live s = continue-Kept f held live (m b) (balanced b live s).0 h

keep_scope-Kept {ℓ} :
    {A : Type ℓ} (bytes : ℕ) (P : A → Type 0) (held rest : A → ℕ) (live : ℕ)
    (p : Result A × MemoryBudget)
    → ((a : A) → p.0 ≡ ok a → P a)
    → ((a : A) → P a → held a ≡ bytes + rest a)
    → Kept rest (live + bytes) p
    → Kept held live (keep_scope bytes p)
unfolding Kept
keep_scope-Kept bytes P held rest live (ok a, b) ensured same k =
    omega (arith, same a (ensured a refl))
keep_scope-Kept bytes P held rest live (err e, b) ensured same k =
    (release-IsSound bytes live b k).0

keep_claimed-Kept {ℓ} :
    {A : Type ℓ} (bytes : ℕ) (m : MemoryM A) (P : A → Type 0) (held rest : A → ℕ) (live : ℕ)
    (b : MemoryBudget) (r : Result MemoryBudget)
    → claim bytes b ≡ r
    → Ensures m P
    → ((a : A) → P a → held a ≡ bytes + rest a)
    → IsSound b live
    → Accounts m rest
    → Kept held live (keep_claimed bytes m b r)
unfolding Accounts Kept Ensures
keep_claimed-Kept bytes m P held rest live b (err e) q ensured same s h = s
keep_claimed-Kept bytes m P held rest live b (ok b') q ensured same s h =
    keep_scope-Kept bytes P held rest live (m b') (ensured b') same
      (h b' (live + bytes) (claim-IsSound bytes live b s q).0)

-- A reservation that moves into the result, beside what the rest keeps.
pub with_retained-Accounts {ℓ} :
    {A : Type ℓ} (bytes : ℕ) (m : MemoryM A) (P : A → Type 0) (held rest : A → ℕ)
    → Ensures m P
    → ((a : A) → P a → held a ≡ bytes + rest a)
    → Accounts m rest
    → Accounts (with_retained bytes m) held
unfolding with_retained Accounts
with_retained-Accounts bytes m P held rest ensured same h b live s =
    keep_claimed-Kept bytes m P held rest live b (claim bytes b) refl ensured same s h

pub lift-Accounts {ℓ} :
    {A : Type ℓ} (r : Result A) (held : A → ℕ) → ((a : A) → held a ≡ 0) → Accounts (lift r) held
unfolding Accounts Kept lift
lift-Accounts (ok a) held none_held b live s = omega (arith, none_held a)
lift-Accounts (err e) held none_held b live s = s

keep_scope_ensures {ℓ} :
    {A : Type ℓ} (bytes : ℕ) (P : A → Type 0) (p : Result A × MemoryBudget)
    → ((a : A) → p.0 ≡ ok a → P a)
    → (a : A) → (keep_scope bytes p).0 ≡ ok a
    → P a
keep_scope_ensures bytes P (ok c, b) h a e = h a e
keep_scope_ensures bytes P (err x, b) h a e = cc

retained_ensures {ℓ} :
    {A : Type ℓ} (bytes : ℕ) (m : MemoryM A) (P : A → Type 0) (b : MemoryBudget)
    (r : Result MemoryBudget)
    → Ensures m P
    → (a : A) → (keep_claimed bytes m b r).0 ≡ ok a
    → P a
unfolding Ensures
retained_ensures bytes m P b (err x) h a e = cc
retained_ensures bytes m P b (ok b') h a e = keep_scope_ensures bytes P (m b') (h b') a e

pub with_retained-Ensures {ℓ} :
    {A : Type ℓ} (bytes : ℕ) (m : MemoryM A) (P : A → Type 0)
    → Ensures m P
    → Ensures (with_retained bytes m) P
unfolding Ensures with_retained
with_retained-Ensures bytes m P h b a e = retained_ensures bytes m P b (claim bytes b) h a e
