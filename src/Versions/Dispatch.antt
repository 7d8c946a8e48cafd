-- ===== src/Versions/Dispatch.antt =====
-- Which pairs of declared versions are accepted, and what a dotted version declares.
use mdictlib.Prelude.{ℕ, ◌≤◌, ◌≡◌, ◌↔◌, refl, arith}
use mdictlib.Error.{Result, ok, err, ◌>>=◌, ◌>>◌}
use mdictlib.Descriptors.{Text}
use mdictlib.Versions.{
  WireVersion, v1, v2, declared_major_version, validate_version_relationship, resolve_wire_version,
  select_grammar,
}

-- The pairs of major versions that are accepted, and the grammar of each.
abbrev pub Accepted : ℕ → ℕ → WireVersion → Type 0
Accepted generated required v1 = (generated ≡ 1) × (required ≡ 1)
Accepted generated required v2 = (generated ≡ 2) × (1 ≤ required) × (required ≤ 2)

relationship :
    (generated required : ℕ) (version : WireVersion)
    → resolve_wire_version generated ≡ ok version
    → validate_version_relationship generated required ≡ ok tt
    → Accepted generated required version
unfolding resolve_wire_version validate_version_relationship
relationship generated required v1 r v = ground arith
relationship generated required v2 r v = ground arith

accepted :
    (generated required : ℕ) (version : WireVersion)
    → Accepted generated required version
    → (resolve_wire_version generated ≡ ok version)
      × (validate_version_relationship generated required ≡ ok tt)
unfolding resolve_wire_version validate_version_relationship
accepted generated required v1 a = ground arith
accepted generated required v2 a = ground arith

Majors : Result ℕ → Result ℕ → WireVersion → Type 0
Majors p q version = (g r : ℕ) × (p ≡ ok g) × (q ≡ ok r) × Accepted g r version

majors :
    (p q : Result ℕ) (version : WireVersion)
    → (p >>= λ g.
        resolve_wire_version g >>= λ w. q >>= λ r. validate_version_relationship g r >> ok w)
      ≡ ok version
    → Majors p q version
unfolding Majors
majors (err x) q version e = ground arith
majors (ok g) (err x) version e = ground arith
majors (ok g) (ok r) version e =
    (g, r, refl, refl, relationship g r version (ground arith) (ground arith))

module _ (generated required : Text) (version : WireVersion) where
  abbrev pub Declared : Type 0
  Declared =
      (g r : ℕ) × (declared_major_version generated "malformed GeneratedByEngineVersion" ≡ ok g)
      × (declared_major_version required "malformed RequiredEngineVersion" ≡ ok r)
      × Accepted g r version

  selected : select_grammar generated required ≡ ok version → Declared
  unfolding select_grammar Majors
  selected e =
      majors (declared_major_version generated "malformed GeneratedByEngineVersion")
        (declared_major_version required "malformed RequiredEngineVersion") version e

  selects : Declared → select_grammar generated required ≡ ok version
  unfolding select_grammar
  selects (g, r, p, u, a) = rw (p, (accepted g r version a).0, u, (accepted g r version a).1) refl

-- A grammar is selected exactly when both texts declare a major version, and it is 1 for both, or 2 for
-- the generating engine and 1 or 2 for the required one.
pub select_grammar-Accepted :
    (generated required : Text) (version : WireVersion)
    → (select_grammar generated required ≡ ok version) ↔ Declared generated required version
select_grammar-Accepted generated required version =
    (selected generated required version, selects generated required version)
