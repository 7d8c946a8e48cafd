-- ===== src/Budget/Memory.antt =====
-- Computations over the shared budget. A parser holds its reservations in local variables, so
-- `with_reserved` is `let _memory = memory.reserve(bytes, ..)?;` with the rest of that scope.
use mdictlib.Prelude.{ℕ, ◌+◌, ◌≡◌, refl, ap, ◌∙◌}
use mdictlib.Error.{Result, ok, err}
use mathlib.Core.Path.{subst}
use mdictlib.Budget.{MemoryBudget, claim, release}
use mdictlib.Budget.Laws.{IsSound, claim-IsSound, release-IsSound}

-- The result, and the budget that is left.
abbrev pub MemoryM {ℓ} : Type ℓ → Type ℓ
MemoryM A = MemoryBudget → Result A × MemoryBudget

unfoldable pub lift {ℓ} : {A : Type ℓ} → Result A → MemoryM A
lift r b = (r, b)

abbrev pub continue {ℓ κ} :
    {A : Type ℓ} {B : Type κ} → (A → MemoryM B) → Result A × MemoryBudget → Result B × MemoryBudget
continue f (ok a, b) = f a b
continue f (err e, b) = (err e, b)

infixl 5 ◌>>=◌
unfoldable pub ◌>>=◌ {ℓ κ} : {A : Type ℓ} {B : Type κ} → MemoryM A → (A → MemoryM B) → MemoryM B
◌>>=◌ m f b = continue f (m b)

abbrev pub end_scope {ℓ} : {A : Type ℓ} → ℕ → Result A × MemoryBudget → Result A × MemoryBudget
end_scope bytes (r, b) = (r, release bytes b)

abbrev pub scope {ℓ} :
    {A : Type ℓ} → ℕ → MemoryM A → MemoryBudget → Result MemoryBudget → Result A × MemoryBudget
scope bytes body b (ok b') = end_scope bytes (body b')
scope bytes body b (err e) = (err e, b)

unfoldable pub with_reserved {ℓ} : {A : Type ℓ} → ℕ → MemoryM A → MemoryM A
with_reserved bytes body b = scope bytes body b (claim bytes b)

-- A computation that leaves the live bytes as they were, whatever it returns.
abbrev pub Balanced {ℓ} : {A : Type ℓ} → MemoryM A → Type 0
Balanced m =
    (b : MemoryBudget) (live : ℕ)
    → IsSound b live
    → IsSound (m b).1 live × ((m b).1.max_bytes ≡ b.max_bytes)

pub lift-Balanced {ℓ} : {A : Type ℓ} (r : Result A) → Balanced (lift r)
unfolding lift
lift-Balanced r b live s = (s, refl)

continue-IsSound {ℓ κ} :
    {A : Type ℓ} {B : Type κ} (f : A → MemoryM B) (live limit : ℕ) (p : Result A × MemoryBudget)
    → ((a : A) → Balanced (f a))
    → IsSound p.1 live
    → p.1.max_bytes ≡ limit
    → IsSound (continue f p).1 live × ((continue f p).1.max_bytes ≡ limit)
continue-IsSound f live limit (ok a, b) h s e =
    let next : IsSound (f a b).1 live × ((f a b).1.max_bytes ≡ b.max_bytes) = h a b live s in
    (next.0, next.1 ∙ e)
continue-IsSound f live limit (err x, b) h s e = (s, e)

pub bind-Balanced {ℓ κ} :
    {A : Type ℓ} {B : Type κ} (m : MemoryM A) (f : A → MemoryM B)
    → Balanced m
    → ((a : A) → Balanced (f a))
    → Balanced (m >>= f)
unfolding ◌>>=◌
bind-Balanced m f hm hf b live s =
    continue-IsSound f live b.max_bytes (m b) hf (hm b live s).0 (hm b live s).1

scope-IsSound {ℓ} :
    {A : Type ℓ} (bytes : ℕ) (body : MemoryM A) (b : MemoryBudget) (live : ℕ)
    (r : Result MemoryBudget)
    → claim bytes b ≡ r
    → Balanced body
    → IsSound b live
    → IsSound (scope bytes body b r).1 live × ((scope bytes body b r).1.max_bytes ≡ b.max_bytes)
scope-IsSound bytes body b live (err e) q h s = (s, refl)
scope-IsSound bytes body b live (ok b') q h s =
    let claimed : IsSound b' (live + bytes) × (b'.max_bytes ≡ b.max_bytes) =
      claim-IsSound bytes live b s q in
    let ran : IsSound (body b').1 (live + bytes) × ((body b').1.max_bytes ≡ b'.max_bytes) =
      h b' (live + bytes) claimed.0 in
    let freed = release-IsSound bytes live (body b').1 ran.0 in
    (freed.0, freed.2 ∙ ran.1 ∙ claimed.1)

pub with_reserved-Balanced {ℓ} :
    {A : Type ℓ} (bytes : ℕ) (m : MemoryM A) → Balanced m → Balanced (with_reserved bytes m)
unfolding with_reserved
with_reserved-Balanced bytes m h b live s = scope-IsSound bytes m b live (claim bytes b) refl h s

-- Every result of the computation satisfies `P`.
unfoldable pub Ensures {ℓ} : {A : Type ℓ} → MemoryM A → (A → Type 0) → Type ℓ
Ensures {A} m P = (b : MemoryBudget) (a : A) → (m b).0 ≡ ok a → P a

pub lift-Ensures {ℓ} :
    {A : Type ℓ} (r : Result A) (P : A → Type 0) → ((a : A) → r ≡ ok a → P a) → Ensures (lift r) P
unfolding Ensures lift
lift-Ensures r P h b a e = h a e

continue_ensures {ℓ κ} :
    {A : Type ℓ} {B : Type κ} (f : A → MemoryM B) (P : B → Type 0) (p : Result A × MemoryBudget)
    → ((a : A) → p.0 ≡ ok a → Ensures (f a) P)
    → (c : B) → (continue f p).0 ≡ ok c
    → P c
unfolding Ensures
continue_ensures f P (ok a, b) h c e = h a refl b c e
continue_ensures f P (err x, b) h c e = cc

pub bind-Ensures {ℓ κ} :
    {A : Type ℓ} {B : Type κ} (m : MemoryM A) (f : A → MemoryM B) (P : B → Type 0) (Q : A → Type 0)
    → Ensures m Q
    → ((a : A) → Q a → Ensures (f a) P)
    → Ensures (m >>= f) P
unfolding Ensures ◌>>=◌
bind-Ensures m f P Q hm hf b c e = continue_ensures f P (m b) (λ a q. hf a (hm b a q)) c e

-- A step of which nothing need be known.
pub any_then {ℓ κ} :
    {A : Type ℓ} {B : Type κ} (m : MemoryM A) (f : A → MemoryM B) (P : B → Type 0)
    → ((a : A) → Ensures (f a) P)
    → Ensures (m >>= f) P
unfolding Ensures
any_then m f P h = bind-Ensures m f P (λ _. Unit {0}) (λ b a e. tt) (λ a _. h a)

scope_ensures {ℓ} :
    {A : Type ℓ} (bytes : ℕ) (body : MemoryM A) (P : A → Type 0) (b : MemoryBudget)
    (r : Result MemoryBudget)
    → Ensures body P
    → (a : A) → (scope bytes body b r).0 ≡ ok a
    → P a
unfolding Ensures
scope_ensures bytes body P b (ok b') h a e = h b' a e
scope_ensures bytes body P b (err x) h a e = cc

pub with_reserved-Ensures {ℓ} :
    {A : Type ℓ} (bytes : ℕ) (m : MemoryM A) (P : A → Type 0)
    → Ensures m P
    → Ensures (with_reserved bytes m) P
unfolding Ensures with_reserved
with_reserved-Ensures bytes m P h b a e = scope_ensures bytes m P b (claim bytes b) h a e

-- A pure step followed by the rest.
pub lift_then {ℓ κ} :
    {A : Type ℓ} {B : Type κ} (r : Result A) (f : A → MemoryM B) (P : B → Type 0)
    → ((a : A) → r ≡ ok a → Ensures (f a) P)
    → Ensures (lift r >>= f) P
unfolding Ensures ◌>>=◌ lift
lift_then r f P h b c e = continue_ensures f P (r, b) h c e

abbrev pub Result_value {ℓ} : {A : Type ℓ} → A → Result A → A
Result_value d (ok a) = a
Result_value d (err e) = d

pub ok-Ensures {ℓ} : {A : Type ℓ} (a : A) (P : A → Type 0) → P a → Ensures (lift (ok a)) P
unfolding Ensures lift
ok-Ensures a P h b c e = subst P (ap (Result_value a) e) h
