-- ===== src/Budget.antt =====
-- limits.rs: `MemoryBudget`, the aggregate memory accounting of one open dictionary, and its RAII
-- token `MemoryReservation`, for one thread. Budget/Threads has the interleavings.
-- Budget/Memory has the computations that reserve and release.
pub mod Laws
pub mod Memory
pub mod Implements
pub mod Accounts
pub mod Peak
pub mod Threads
use mdictlib.Prelude.{ℕ, ◌+◌, ◌-◌, ◌%◌, ◌^◌, max, ltb}
use mdictlib.Error.{Result, ok, ◌>>=◌, ◌>>◌, fail_if, ok_or, invalid_format, limit_exceeded}
use mdictlib.Limits.{u64_max, checked_add}

-- `max`, and the two atomic counters.
pub record MemoryBudget : Type 0 where
  pub max_bytes : ℕ
  pub used : ℕ
  pub peak : ℕ

unfoldable pub new : ℕ → MemoryBudget
new limit = record { max_bytes = limit; used = 0; peak = 0 }

-- The two guards of the loop in `claim`, on the value of `used` that the thread has seen.
unfoldable pub attempt : ℕ → ℕ → ℕ → Result ℕ
unfolding checked_add
attempt limit current bytes = do
  next ← ok_or (checked_add current bytes) (limit_exceeded "working_memory_bytes" u64_max limit)
  fail_if (ltb limit next) (limit_exceeded "working_memory_bytes" next limit)
  ok next

-- `claim` with no other thread: the exchange succeeds, then `peak.fetch_max(next)`.
unfoldable pub claim : ℕ → MemoryBudget → Result MemoryBudget
unfolding attempt
claim bytes b = do
  next ← attempt b.max_bytes b.used bytes
  ok (record b { used = next; peak = max b.peak next })

pub record MemoryReservation : Type 0 where
  pub bytes : ℕ

-- `used.fetch_sub(bytes)`, which wraps.
unfoldable pub release : ℕ → MemoryBudget → MemoryBudget
release bytes b = record b { used = (b.used + 2 ^ 64 - bytes) % 2 ^ 64 }

unfoldable pub reserve : ℕ → MemoryBudget → Result (MemoryReservation × MemoryBudget)
unfolding claim
reserve bytes b = do b' ← claim bytes b; ok (record { bytes = bytes }, b')

unfoldable pub grow :
    MemoryReservation → ℕ → MemoryBudget → Result (MemoryReservation × MemoryBudget)
unfolding claim checked_add
grow r additional b = do
  next ← ok_or (checked_add r.bytes additional) (invalid_format "memory reservation size overflow")
  b' ← claim additional b
  ok (record { bytes = next }, b')

-- The `Drop` of a reservation.
unfoldable pub drop_reservation : MemoryReservation → MemoryBudget → MemoryBudget
unfolding release
drop_reservation r b = release r.bytes b
