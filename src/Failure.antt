-- ===== src/Failure.antt =====
-- core/mod.rs: `CachedFailure`, which keeps an error that would come again, and `CachedValue`.
-- The length of a formatted message is computed from its template, whose places are two bytes each.
pub mod Laws
use mdictlib.Prelude.{
  ℕ, zero, suc, ◌+◌, ◌-◌, ◌*◌, ◌/◌, String, Option, none, some, List, [], ◌∷◌, ltb, if◌then◌else◌,
  length,
}
use mdictlib.Error.{Error, ok, err, num, str}
use Prim.Native.String.{len}
use text.Mathlib.Text.{◌==◌ as str_eq}
use mdictlib.Error.{Arg}
use mdictlib.Budget.{MemoryBudget, claim}

pub data CachedFailureKind : Type 0 where
  invalid_format : String → CachedFailureKind
  invalid_data : String → List Arg → CachedFailureKind
  truncated : String → ℕ → ℕ → CachedFailureKind
  limit_exceeded : String → ℕ → ℕ → CachedFailureKind
  checksum_mismatch : String → ℕ → ℕ → CachedFailureKind
  decode_failed : String → String → CachedFailureKind
  missing_passcode : CachedFailureKind
  invalid_passcode : String → CachedFailureKind
  unsupported : String → CachedFailureKind

-- `reserved` is the size of the reservation in `_memory`.
pub record CachedFailure : Type 0 where
  pub kind : CachedFailureKind
  pub reserved : ℕ

pub data CachedValue {ℓ} (A : Type ℓ) : Type ℓ where
  ready : A → CachedValue A
  failed : CachedFailure → CachedValue A

-- The decimal digits of a `u64`.
unfoldable pub digits_of : ℕ → ℕ → ℕ
digits_of zero n = 1
digits_of (suc fuel) n = let rest = digits_of fuel (n / 10) in if ltb n 10 then 1 else 1 + rest

unfoldable pub arg_len : Arg → ℕ
unfolding digits_of
arg_len (num n) = digits_of 20 n
arg_len (str s) = len s

unfoldable pub args_len : List Arg → ℕ
unfolding arg_len
args_len [] = 0
args_len (a ∷ as') = arg_len a + args_len as'

unfoldable pub message_len : String → List Arg → ℕ
unfolding args_len
message_len template args = len template - 2 * length args + args_len args

unfoldable pub capture_text : String → List Arg → MemoryBudget → Option CachedFailure × MemoryBudget
capture_text template args b = elim (claim (message_len template args) b) [
  | err e ↦ (none, b)
  | ok b' ↦ (
    some (record {
      kind = CachedFailureKind.invalid_data template args;
      reserved = message_len template args;
    }),
    b',
  )
]

abbrev pub plain : CachedFailureKind → Option CachedFailure
plain kind = some (record { kind = kind; reserved = 0 })

unfoldable pub capture : Error → MemoryBudget → Option CachedFailure × MemoryBudget
capture (Error.limit_exceeded limit value maximum) b = (
  if str_eq limit "working_memory_bytes"
      then none
      else plain (CachedFailureKind.limit_exceeded limit value maximum),
  b,
)
capture (Error.invalid_format context) b = (plain (CachedFailureKind.invalid_format context), b)
capture (Error.invalid_data template args) b = capture_text template args b
capture (Error.truncated context needed rest) b =
    (plain (CachedFailureKind.truncated context needed rest), b)
capture (Error.checksum_mismatch context expected actual) b =
    (plain (CachedFailureKind.checksum_mismatch context expected actual), b)
capture (Error.decode_failed context encoding) b =
    (plain (CachedFailureKind.decode_failed context encoding), b)
capture Error.missing_passcode b = (plain CachedFailureKind.missing_passcode, b)
capture (Error.invalid_passcode context) b = (plain (CachedFailureKind.invalid_passcode context), b)
capture (Error.unsupported feature) b = (plain (CachedFailureKind.unsupported feature), b)
capture Error.io b = (none, b)
capture (Error.allocation_failed context requested) b = (none, b)
capture (Error.key_index_rejected reason) b = (none, b)
capture (Error.cancelled operation) b = (none, b)
capture (Error.source_changed operation) b = (none, b)

unfoldable pub replay_kind : CachedFailureKind → Error
replay_kind (CachedFailureKind.invalid_format context) = Error.invalid_format context
replay_kind (CachedFailureKind.invalid_data template args) = Error.invalid_data template args
replay_kind (CachedFailureKind.truncated context needed rest) = Error.truncated context needed rest
replay_kind (CachedFailureKind.limit_exceeded limit value maximum) =
    Error.limit_exceeded limit value maximum
replay_kind (CachedFailureKind.checksum_mismatch context expected actual) =
    Error.checksum_mismatch context expected actual
replay_kind (CachedFailureKind.decode_failed context encoding) =
    Error.decode_failed context encoding
replay_kind CachedFailureKind.missing_passcode = Error.missing_passcode
replay_kind (CachedFailureKind.invalid_passcode context) = Error.invalid_passcode context
replay_kind (CachedFailureKind.unsupported feature) = Error.unsupported feature

unfoldable pub replay : CachedFailure → Error
unfolding replay_kind
replay f = replay_kind f.kind
