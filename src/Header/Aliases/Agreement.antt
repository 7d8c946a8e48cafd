-- ===== src/Header/Aliases/Agreement.antt =====
-- An attribute is known exactly when its aliases agree.
use mdictlib.Prelude.{
  String, Bool, true, false, Option, none, some, [], ◌∷◌, Bool-cases, ◌≡◌, ◌≢◌, ◌⊎◌, inl, inr, refl,
  sym, ◌∙◌, arith,
}
use mathlib.Core.Path.{subst}
use mdictlib.Error.{Result, ok, err}
use mdictlib.Descriptors.{Text}
use mdictlib.CaseVariants.{equal_texts, eq_ignore_ascii_case}
use mdictlib.Texts.{codes}
use mdictlib.Header.{Attributes}
use mdictlib.Header.Aliases.{conflict, agree, find_alias, known_attribute}

pub equal_self : (t : Text) → equal_texts t t ≡ true
unfolding equal_texts
equal_self [] = refl
equal_self (c ∷ cs) = ground (arith, equal_self cs)

pub equal_texts-eq : (a b : Text) → equal_texts a b ≡ true → a ≡ b
unfolding equal_texts
equal_texts-eq [] [] e = refl
equal_texts-eq [] (d ∷ ds) e = cc
equal_texts-eq (c ∷ cs) [] e = cc
equal_texts-eq (c ∷ cs) (d ∷ ds) e = ground (arith, equal_texts-eq cs ds)

differ : (a b : Text) → equal_texts a b ≡ false → a ≢ b
differ a b e same = cc (equal_self a, subst (λ t. equal_texts a t ≡ false) (sym same) e)

module _ (canonical_name : String) where
  abbrev pub is_alias : Text → Bool
  is_alias name = eq_ignore_ascii_case name (codes canonical_name)

  -- Some alias has the value.
  abbrev pub Occurs : Text → Attributes → Type 0
  Occurs value [] = ⊥
  Occurs value ((name, w) ∷ rest) = ((is_alias name ≡ true) × (w ≡ value)) ⊎ Occurs value rest

  -- Every alias has the value.
  abbrev pub AllHave : Text → Attributes → Type 0
  AllHave value [] = Unit {0}
  AllHave value ((name, w) ∷ rest) = (is_alias name ≡ true → w ≡ value) × AllHave value rest

  abbrev pub NoAlias : Attributes → Type 0
  NoAlias [] = Unit {0}
  NoAlias ((name, w) ∷ rest) = (is_alias name ≡ false) × NoAlias rest

  abbrev pub Known : Attributes → Result (Option Text) → Type 0
  Known attributes (ok none) = NoAlias attributes
  Known attributes (ok (some value)) = Occurs value attributes × AllHave value attributes
  Known attributes (err e) =
      (e ≡ conflict canonical_name)
      × (u w : Text) × Occurs u attributes
      × Occurs w attributes
      × (u ≢ w)

  -- The same behind an alias with the value `previous`.
  Resumed : Text → Attributes → Result (Option Text) → Type 0
  Resumed previous rest (ok none) = ⊥
  Resumed previous rest (ok (some value)) = (value ≡ previous) × AllHave previous rest
  Resumed previous rest (err e) =
      (e ≡ conflict canonical_name) × (w : Text) × Occurs w rest × (previous ≢ w)

  skip-Resumed :
      (previous name w : Text) (rest : Attributes) (r : Result (Option Text))
      → is_alias name ≡ false
      → Resumed previous rest r
      → Resumed previous ((name, w) ∷ rest) r
  unfolding Resumed
  skip-Resumed previous name w rest (ok none) e h = h
  skip-Resumed previous name w rest (ok (some v)) e h = (h.0, (λ t. cc, h.1))
  skip-Resumed previous name w rest (err x) e h = (h.0, h.1, inr h.2, h.3)

  take-Resumed :
      (previous name w : Text) (rest : Attributes) (r : Result (Option Text))
      → is_alias name ≡ true
      → previous ≡ w
      → Resumed w rest r
      → Resumed previous ((name, w) ∷ rest) r
  unfolding Resumed
  take-Resumed previous name w rest (ok none) e q h = h
  take-Resumed previous name w rest (ok (some v)) e q h =
      (h.0 ∙ sym q, (λ t. sym q, subst (λ t. AllHave t rest) (sym q) h.1))
  take-Resumed previous name w rest (err x) e q h =
      (h.0, h.1, inr h.2, subst (λ t. t ≢ h.1) (sym q) h.3)

  find-Resumed :
      (previous : Text) (attributes : Attributes)
      → Resumed previous attributes
          (find_alias equal_texts ok canonical_name (some previous) attributes)
  unfolding Resumed find_alias agree
  find-Resumed previous [] = (refl, tt)
  find-Resumed previous ((name, w) ∷ rest) = elim (Bool-cases (is_alias name)) [
    | inl e ↦ elim (Bool-cases (equal_texts previous w)) [
      | inl same ↦
          rw (e, same)
            (take-Resumed previous name w rest _ e (equal_texts-eq previous w same)
              (find-Resumed w rest))
      | inr other ↦ rw (e, other) (refl, w, inl (e, refl), differ previous w other)
    ]
    | inr e ↦ rw e (skip-Resumed previous name w rest _ e (find-Resumed previous rest))
  ]

  skip-Known :
      (name w : Text) (rest : Attributes) (r : Result (Option Text))
      → is_alias name ≡ false
      → Known rest r
      → Known ((name, w) ∷ rest) r
  skip-Known name w rest (ok none) e h = (e, h)
  skip-Known name w rest (ok (some v)) e h = (inr h.0, (λ t. cc, h.1))
  skip-Known name w rest (err x) e h = (h.0, h.1, h.2, inr h.3, inr h.4, h.5)

  take-Known :
      (name w : Text) (rest : Attributes) (r : Result (Option Text))
      → is_alias name ≡ true
      → Resumed w rest r
      → Known ((name, w) ∷ rest) r
  unfolding Resumed
  take-Known name w rest (ok none) e h = absurd h
  take-Known name w rest (ok (some v)) e h =
      (inl (e, sym h.0), (λ t. sym h.0, subst (λ t. AllHave t rest) (sym h.0) h.1))
  take-Known name w rest (err x) e h = (h.0, w, h.1, inl (e, refl), inr h.2, h.3)

-- Whatever the attributes: `known_attribute` returns none when no name is an alias; a value when an
-- alias has it and every alias does; and the conflict exactly when two aliases have different values.
pub known_attribute-Known :
    (attributes : Attributes) (canonical_name : String)
    → Known canonical_name attributes (known_attribute attributes canonical_name)
unfolding known_attribute find_alias agree
known_attribute-Known [] canonical_name = tt
known_attribute-Known ((name, w) ∷ rest) canonical_name =
    elim (Bool-cases (is_alias canonical_name name)) [
      | inl e ↦
          rw e (take-Known canonical_name name w rest _ e (find-Resumed canonical_name w rest))
      | inr e ↦
          rw e
            (skip-Known canonical_name name w rest _ e (known_attribute-Known rest canonical_name))
    ]
