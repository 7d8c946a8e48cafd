-- ===== src/Budget/Peak.antt =====
-- How far a computation that keeps nothing raises the high-water mark of the budget.
use mdictlib.Prelude.{ℕ, ◌+◌, max, ◌≡◌, refl, arith, ap, ◌∙◌}
use mdictlib.Error.{Result, ok, err}
use mdictlib.Budget.{MemoryBudget, claim, release}
use mdictlib.Budget.Laws.{IsSound, claim-IsSound, release-IsSound}
use mdictlib.Budget.Memory.{
  MemoryM, lift, continue, ◌>>=◌, end_scope, scope, with_reserved, Ensures, Result_value,
}

-- The outcome holds nothing, and one with a result `a` has had exactly `need a` bytes reserved at most
-- beside those that were live in `b`.
unfoldable pub Reached {ℓ} :
    {A : Type ℓ} → (A → ℕ) → MemoryBudget → ℕ → Result A × MemoryBudget → Type 0
Reached need b live (ok a, after) = IsSound after live × (after.peak ≡ max b.peak (live + need a))
Reached need b live (err e, after) = IsSound after live

unfoldable pub Reaches {ℓ} : {A : Type ℓ} → MemoryM A → (A → ℕ) → Type 0
Reaches m need = (b : MemoryBudget) (live : ℕ) → IsSound b live → Reached need b live (m b)

pub ok-Reaches {ℓ} : {A : Type ℓ} (a : A) (need : A → ℕ) → need a ≡ 0 → Reaches (lift (ok a)) need
unfolding Reaches Reached lift
ok-Reaches a need none_needed b live s = (s, omega (arith, none_needed))

continue-Reached {ℓ κ} :
    {A : Type ℓ} {B : Type κ} (r : Result A) (f : A → MemoryM B) (need : B → ℕ) (b : MemoryBudget)
    (live : ℕ)
    → ((a : A) → r ≡ ok a → Reaches (f a) need)
    → IsSound b live
    → Reached need b live (continue f (r, b))
unfolding Reaches Reached
continue-Reached (ok a) f need b live h s = h a refl b live s
continue-Reached (err e) f need b live h s = s

-- A pure step, and the rest.
pub lift_then-Reaches {ℓ κ} :
    {A : Type ℓ} {B : Type κ} (r : Result A) (f : A → MemoryM B) (need : B → ℕ)
    → ((a : A) → r ≡ ok a → Reaches (f a) need)
    → Reaches (lift r >>= f) need
unfolding Reaches lift ◌>>=◌
lift_then-Reaches r f need h b live s = continue-Reached r f need b live h s

release-peak : (bytes : ℕ) (b : MemoryBudget) → (release bytes b).peak ≡ b.peak
unfolding release
release-peak bytes b = refl

claim-peak :
    (bytes : ℕ) (b after : MemoryBudget)
    → claim bytes b ≡ ok after
    → after.peak ≡ max b.peak (b.used + bytes)
unfolding claim
claim-peak bytes b after e = ground arith

end_scope-Reached {ℓ} :
    {A : Type ℓ} (bytes : ℕ) (P : A → Type 0) (need rest : A → ℕ) (live : ℕ) (b : MemoryBudget)
    (b' : MemoryBudget) (p : Result A × MemoryBudget)
    → b'.peak ≡ max b.peak (live + bytes)
    → ((a : A) → p.0 ≡ ok a → P a)
    → ((a : A) → P a → need a ≡ bytes + rest a)
    → Reached rest b' (live + bytes) p
    → Reached need b live (end_scope bytes p)
unfolding Reached
end_scope-Reached bytes P need rest live b b' (ok a, after) claimed ensured same k = (
  (release-IsSound bytes live after k.0).0,
  omega (arith, same a (ensured a refl), release-peak bytes after),
)
end_scope-Reached bytes P need rest live b b' (err e, after) claimed ensured same k =
    (release-IsSound bytes live after k).0

scope-Reached {ℓ} :
    {A : Type ℓ} (bytes : ℕ) (m : MemoryM A) (P : A → Type 0) (need rest : A → ℕ) (live : ℕ)
    (b : MemoryBudget) (r : Result MemoryBudget)
    → claim bytes b ≡ r
    → Ensures m P
    → ((a : A) → P a → need a ≡ bytes + rest a)
    → IsSound b live
    → Reaches m rest
    → Reached need b live (scope bytes m b r)
unfolding Reaches Reached Ensures
scope-Reached bytes m P need rest live b (err e) q ensured same s h = s
scope-Reached bytes m P need rest live b (ok b') q ensured same s h =
    let claimed : b'.peak ≡ max b.peak (live + bytes) = omega (arith, claim-peak bytes b b' q) in
    end_scope-Reached bytes P need rest live b b' (m b') claimed (ensured b') same
      (h b' (live + bytes) (claim-IsSound bytes live b s q).0)

-- A reservation for the rest of the scope is needed beside what the rest needs.
pub with_reserved-Reaches {ℓ} :
    {A : Type ℓ} (bytes : ℕ) (m : MemoryM A) (P : A → Type 0) (need rest : A → ℕ)
    → Ensures m P
    → ((a : A) → P a → need a ≡ bytes + rest a)
    → Reaches m rest
    → Reaches (with_reserved bytes m) need
unfolding with_reserved Reaches
with_reserved-Reaches bytes m P need rest ensured same h b live s =
    scope-Reached bytes m P need rest live b (claim bytes b) refl ensured same s h

pub Reached-peak {ℓ} :
    {A : Type ℓ} (need : A → ℕ) (b : MemoryBudget) (live : ℕ) (p : Result A × MemoryBudget) (a : A)
    → p.0 ≡ ok a
    → Reached need b live p
    → (p.1.peak ≡ max b.peak (live + need a)) × IsSound p.1 live
unfolding Reached
Reached-peak need b live (ok c, after) a e k =
    (k.1 ∙ ap (λ r. max b.peak (live + need (Result_value a r))) e, k.0)
Reached-peak need b live (err x, after) a e k = cc
