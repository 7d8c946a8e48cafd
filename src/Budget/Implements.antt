-- ===== src/Budget/Implements.antt =====
-- A computation over the budget that returns what a computation without one returns, unless the budget
-- is exhausted, and that accounts for what its result keeps reserved.
use mdictlib.Prelude.{ℕ, ◌+◌, min, ◌≡◌, refl, ◌⊎◌, inl, inr, arith}
use mdictlib.Error.{Error, Result, ok, err, limit_exceeded}
use mdictlib.Error.{◌>>=◌ as and_then}
use mdictlib.Limits.{u64_max}
use mdictlib.Budget.{MemoryBudget, claim, release}
use mdictlib.Budget.Laws.{IsSound, claim-IsSound, release-IsSound}
use mdictlib.Budget.Memory.{MemoryM, lift, continue, ◌>>=◌, scope, with_reserved}

-- The error of an exhausted budget.
abbrev pub IsBudgetError : Error → Type 0
IsBudgetError e = (value max : ℕ) × (e ≡ limit_exceeded "working_memory_bytes" value max)

pub claim_err : (bytes : ℕ) (b : MemoryBudget) (e : Error) → claim bytes b ≡ err e → IsBudgetError e
unfolding claim
claim_err bytes b e h = (min u64_max (b.used + bytes), b.max_bytes, ground arith)

-- A reservation that moves into the result, and ends with the scope on an error.
abbrev pub keep_scope {ℓ} : {A : Type ℓ} → ℕ → Result A × MemoryBudget → Result A × MemoryBudget
keep_scope bytes (ok a, b) = (ok a, b)
keep_scope bytes (err e, b) = (err e, release bytes b)

abbrev pub keep_claimed {ℓ} :
    {A : Type ℓ} → ℕ → MemoryM A → MemoryBudget → Result MemoryBudget → Result A × MemoryBudget
keep_claimed bytes body b (ok b') = keep_scope bytes (body b')
keep_claimed bytes body b (err e) = (err e, b)

unfoldable pub with_retained {ℓ} : {A : Type ℓ} → ℕ → MemoryM A → MemoryM A
with_retained bytes body b = keep_claimed bytes body b (claim bytes b)

-- The outcome is the expected one, or the budget is exhausted; `held` is what a result has reserved.
unfoldable pub Follows {ℓ} :
    {A : Type ℓ} → Result A → (A → ℕ) → ℕ → Result A × MemoryBudget → Type ℓ
Follows expected held live (ok a, b) = (expected ≡ ok a) × IsSound b (live + held a)
Follows expected held live (err e, b) = ((expected ≡ err e) ⊎ IsBudgetError e) × IsSound b live

abbrev pub Implements {ℓ} : {A : Type ℓ} → MemoryM A → Result A → (A → ℕ) → Type ℓ
Implements m r held = (b : MemoryBudget) (live : ℕ) → IsSound b live → Follows r held live (m b)

abbrev pub nothing {ℓ} : {A : Type ℓ} → A → ℕ
nothing a = 0

IsSound-zero : (b : MemoryBudget) (live : ℕ) → IsSound b live → IsSound b (live + 0)
IsSound-zero b live s = omega arith

zero-IsSound : (b : MemoryBudget) (live : ℕ) → IsSound b (live + 0) → IsSound b live
zero-IsSound b live s = omega arith

pub lift-Implements {ℓ} : {A : Type ℓ} (r : Result A) → Implements (lift r) r nothing
unfolding lift Follows
lift-Implements (ok a) b live s = (refl, IsSound-zero b live s)
lift-Implements (err e) b live s = (inl refl, s)

continue-Follows {ℓ κ} :
    {A : Type ℓ} {B : Type κ} (f : A → MemoryM B) (r : Result A) (g : A → Result B) (held : B → ℕ)
    (live : ℕ) (p : Result A × MemoryBudget)
    → Follows r nothing live p
    → ((a : A) → Implements (f a) (g a) held)
    → Follows (and_then r g) held live (continue f p)
unfolding Follows
continue-Follows f r g held live (ok a, b) h k = rw (h.0) (k a b live (zero-IsSound b live h.1))
continue-Follows f r g held live (err e, b) (inl h, s) k = (inl (rw h refl), s)
continue-Follows f r g held live (err e, b) (inr h, s) k = (inr h, s)

pub bind-Implements {ℓ κ} :
    {A : Type ℓ} {B : Type κ} (m : MemoryM A) (f : A → MemoryM B) (r : Result A) (g : A → Result B)
    (held : B → ℕ)
    → Implements m r nothing
    → ((a : A) → Implements (f a) (g a) held)
    → Implements (m >>= f) (and_then r g) held
unfolding ◌>>=◌
bind-Implements m f r g held h k b live s = continue-Follows f r g held live (m b) (h b live s) k

end-Follows {ℓ} :
    {A : Type ℓ} (r : Result A) (held : A → ℕ) (live bytes : ℕ) (p : Result A × MemoryBudget)
    → Follows r held (live + bytes) p
    → Follows r held live (p.0, release bytes p.1)
unfolding Follows
end-Follows r held live bytes (ok a, b) h =
    (h.0, (release-IsSound bytes (live + held a) b (move_last live bytes (held a) b h.1)).0)
  where
    move_last :
        (live bytes more : ℕ) (b : MemoryBudget)
        → IsSound b (live + bytes + more)
        → IsSound b (live + more + bytes)
    move_last live bytes more b s = omega arith
end-Follows r held live bytes (err e, b) h = (h.0, (release-IsSound bytes live b h.1).0)

scope-Follows {ℓ} :
    {A : Type ℓ} (m : MemoryM A) (r : Result A) (held : A → ℕ) (bytes live : ℕ) (b : MemoryBudget)
    (claimed : Result MemoryBudget)
    → claim bytes b ≡ claimed
    → IsSound b live
    → Implements m r held
    → Follows r held live (scope bytes m b claimed)
unfolding Follows
scope-Follows m r held bytes live b (ok b') e s h =
    end-Follows r held live bytes (m b') (h b' (live + bytes) (claim-IsSound bytes live b s e).0)
scope-Follows m r held bytes live b (err x) e s h = (inr (claim_err bytes b x e), s)

pub with_reserved-Implements {ℓ} :
    {A : Type ℓ} (bytes : ℕ) (m : MemoryM A) (r : Result A) (held : A → ℕ)
    → Implements m r held
    → Implements (with_reserved bytes m) r held
unfolding with_reserved
with_reserved-Implements bytes m r held h b live s =
    scope-Follows m r held bytes live b (claim bytes b) refl s h

keep-Follows {ℓ} :
    {A : Type ℓ} (r : Result A) (held : A → ℕ) (live bytes : ℕ) (p : Result A × MemoryBudget)
    → Follows r nothing (live + bytes) p
    → ((a : A) → r ≡ ok a → held a ≡ bytes)
    → Follows r held live (keep_scope bytes p)
unfolding Follows
keep-Follows r held live bytes (ok a, b) h k =
    (h.0, rw (k a h.0) (zero-IsSound b (live + bytes) h.1))
keep-Follows r held live bytes (err e, b) h k = (h.0, (release-IsSound bytes live b h.1).0)

retained-Follows {ℓ} :
    {A : Type ℓ} (m : MemoryM A) (r : Result A) (held : A → ℕ) (bytes live : ℕ) (b : MemoryBudget)
    (claimed : Result MemoryBudget)
    → claim bytes b ≡ claimed
    → IsSound b live
    → Implements m r nothing
    → ((a : A) → r ≡ ok a → held a ≡ bytes)
    → Follows r held live (keep_claimed bytes m b claimed)
unfolding Follows
retained-Follows m r held bytes live b (ok b') e s h k =
    keep-Follows r held live bytes (m b') (h b' (live + bytes) (claim-IsSound bytes live b s e).0) k
retained-Follows m r held bytes live b (err x) e s h k = (inr (claim_err bytes b x e), s)

pub with_retained-Implements {ℓ} :
    {A : Type ℓ} (bytes : ℕ) (m : MemoryM A) (r : Result A) (held : A → ℕ)
    → Implements m r nothing
    → ((a : A) → r ≡ ok a → held a ≡ bytes)
    → Implements (with_retained bytes m) r held
unfolding with_retained
with_retained-Implements bytes m r held h k b live s =
    retained-Follows m r held bytes live b (claim bytes b) refl s h k
