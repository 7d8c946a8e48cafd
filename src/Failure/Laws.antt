-- ===== src/Failure/Laws.antt =====
-- A cached failure replays the error that was captured, and no transient error is ever captured.
use text.Mathlib.Text.{◌==◌ as str_eq}
use text.Mathlib.TextEquality.{eq_iff}
use mdictlib.Prelude.{
  ℕ, ◌+◌, String, Option, none, some, ◌≡◌, refl, arith, List, Bool-cases, inl, inr,
}
use mdictlib.Error.{Error, Arg, Result-cases}
use mdictlib.Budget.{MemoryBudget, claim}
use mdictlib.Budget.Laws.{IsSound, claim-IsSound}
use mdictlib.Failure.{CachedFailure, capture, replay, capture_text, message_len}

-- Errors that may not come again: they depend on the machine or on the moment.
abbrev pub IsTransient : Error → Type 0
IsTransient (Error.limit_exceeded limit value maximum) = limit ≡ "working_memory_bytes"
IsTransient Error.io = Unit {0}
IsTransient (Error.allocation_failed context requested) = Unit {0}
IsTransient (Error.key_index_rejected reason) = Unit {0}
IsTransient (Error.cancelled operation) = Unit {0}
IsTransient (Error.source_changed operation) = Unit {0}
IsTransient e = ⊥

Kept : Error → MemoryBudget → ℕ → Option CachedFailure × MemoryBudget → Type 0
Kept e b live (none, b') = Unit {0}
Kept e b live (some f, b') = (replay f ≡ e) × (¬ IsTransient e) × IsSound b' (live + f.reserved)

capture_text-Kept :
    (template : String) (args : List Arg) (b : MemoryBudget) (live : ℕ)
    → IsSound b live
    → Kept (Error.invalid_data template args) b live (capture_text template args b)
unfolding Kept capture_text replay
capture_text-Kept template args b live s =
    elim (Result-cases (claim (message_len template args) b)) [
      | inl (b', e) ↦ rw (e, capture_text) (refl, λ h. h, (claim-IsSound _ live b s e).0)
      | inr (x, e) ↦ rw (e, capture_text) tt
    ]

plain_kept : (b : MemoryBudget) (live : ℕ) → IsSound b live → IsSound b (live + 0)
plain_kept b live s = omega arith

capture-Kept :
    (e : Error) (b : MemoryBudget) (live : ℕ) → IsSound b live → Kept e b live (capture e b)
unfolding Kept capture replay
capture-Kept (Error.limit_exceeded limit value maximum) b live s =
    elim (Bool-cases (str_eq limit "working_memory_bytes")) [
      | inl e ↦ rw e tt
      | inr e ↦
          rw e (
            refl,
            λ same. cc (e, (eq_iff limit "working_memory_bytes").1 same),
            plain_kept b live s,
          )
    ]
capture-Kept (Error.invalid_data template args) b live s = capture_text-Kept template args b live s
capture-Kept (Error.invalid_format context) b live s = (refl, λ h. h, plain_kept b live s)
capture-Kept (Error.truncated context needed rest) b live s = (refl, λ h. h, plain_kept b live s)
capture-Kept (Error.checksum_mismatch context expected actual) b live s =
    (refl, λ h. h, plain_kept b live s)
capture-Kept (Error.decode_failed context encoding) b live s = (refl, λ h. h, plain_kept b live s)
capture-Kept Error.missing_passcode b live s = (refl, λ h. h, plain_kept b live s)
capture-Kept (Error.invalid_passcode context) b live s = (refl, λ h. h, plain_kept b live s)
capture-Kept (Error.unsupported feature) b live s = (refl, λ h. h, plain_kept b live s)
capture-Kept _ b live s = tt

-- A failure that is kept replays the captured error exactly, which is not a transient one, and the
-- budget stays sound with the bytes that the failure holds.
pub capture-replay :
    (e : Error) (b : MemoryBudget) (live : ℕ) (f : CachedFailure) (b' : MemoryBudget)
    → IsSound b live
    → capture e b ≡ (some f, b')
    → (replay f ≡ e) × (¬ IsTransient e) × IsSound b' (live + f.reserved)
unfolding Kept
capture-replay e b live f b' s h = rw h at (capture-Kept e b live s)

-- What capturing does to the budget when nothing is kept.
Dropped : MemoryBudget → Option CachedFailure × MemoryBudget → Type 0
Dropped b (none, b') = b' ≡ b
Dropped b (some f, b') = Unit {0}

capture-Dropped : (e : Error) (b : MemoryBudget) → Dropped b (capture e b)
unfolding Dropped capture capture_text
capture-Dropped (Error.invalid_data template args) b = ground arith
capture-Dropped (Error.limit_exceeded limit value maximum) b = ground arith
capture-Dropped (Error.invalid_format context) b = tt
capture-Dropped (Error.truncated context needed rest) b = tt
capture-Dropped (Error.checksum_mismatch context expected actual) b = tt
capture-Dropped (Error.decode_failed context encoding) b = tt
capture-Dropped Error.missing_passcode b = tt
capture-Dropped (Error.invalid_passcode context) b = tt
capture-Dropped (Error.unsupported feature) b = tt
capture-Dropped _ b = refl

pub capture-none : (e : Error) (b b' : MemoryBudget) → capture e b ≡ (none, b') → b' ≡ b
unfolding Dropped
capture-none e b b' h = rw h at (capture-Dropped e b)
