-- ===== src/Budget/Laws.antt =====
-- What `claim`, `grow` and the release of a reservation do to the counters.
use mdictlib.Prelude.{ℕ, ◌+◌, ◌≤◌, ◌<◌, min, max, ◌≡◌, arith}
use mdictlib.Error.{ok, err, limit_exceeded}
use mdictlib.Limits.{u64_max}
use mdictlib.Budget.{MemoryBudget, MemoryReservation, claim, release, grow}

-- The counters of a budget whose live reservations hold `live` bytes together.
pub record IsSound (b : MemoryBudget) (live : ℕ) : Type 0 where
  pub machine : b.max_bytes ≤ u64_max
  pub accounted : b.used ≡ live
  pub within : b.used ≤ b.peak
  pub peaked : b.peak ≤ b.max_bytes

-- A claim succeeds exactly when the total stays within the limit; then it adds the bytes.
pub claim-ok :
    (bytes : ℕ) (b : MemoryBudget)
    → b.max_bytes ≤ u64_max
    → b.used + bytes ≤ b.max_bytes
    → claim bytes b ≡ ok (record b { used = b.used + bytes; peak = max b.peak (b.used + bytes) })
unfolding claim
claim-ok bytes b m h = ground arith

pub claim-limit_exceeded :
    (bytes : ℕ) (b : MemoryBudget)
    → b.max_bytes < b.used + bytes
    → (value : ℕ) × (claim bytes b ≡ err (limit_exceeded "working_memory_bytes" value b.max_bytes))
unfolding claim
claim-limit_exceeded bytes b h = (min u64_max (b.used + bytes), ground arith)

pub claim-IsSound :
    (bytes live : ℕ) (b : MemoryBudget) {b' : MemoryBudget}
    → IsSound b live
    → claim bytes b ≡ ok b'
    → IsSound b' (live + bytes) × (b'.max_bytes ≡ b.max_bytes)
unfolding claim
claim-IsSound bytes live b s e = ground arith

pub grow-IsSound :
    (r : MemoryReservation) (more rest : ℕ) (b : MemoryBudget) {r' : MemoryReservation}
    {b' : MemoryBudget}
    → IsSound b (rest + r.bytes)
    → grow r more b ≡ ok (r', b')
    → IsSound b' (rest + r'.bytes) × (r'.bytes ≡ r.bytes + more)
unfolding grow
grow-IsSound r more rest b s e = ground arith

pub release-IsSound :
    (bytes rest : ℕ) (b : MemoryBudget)
    → IsSound b (rest + bytes)
    → IsSound (release bytes b) rest
      × ((release bytes b).used + bytes ≡ b.used)
      × ((release bytes b).max_bytes ≡ b.max_bytes)
unfolding release
release-IsSound bytes rest b s = ground arith
