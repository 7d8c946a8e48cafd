-- ===== src/Budget/Threads.antt =====
-- `MemoryBudget` shared by any number of threads: the atomic steps of `claim` (load, compare-exchange,
-- fetch_max), of `grow` and of the drop of a reservation, in any order.
use mdictlib.Prelude.{
  ℕ, zero, suc, ◌+◌, ◌-◌, ◌%◌, ◌^◌, ◌≤◌, max, some, List, [], ◌∷◌, get_elem?, set, ◌≡◌, arith,
}
use mdictlib.Error.{Error, ok, err}
use mdictlib.Limits.{u64_max}
use mdictlib.Budget.{attempt}

-- Where a thread stands in `claim(bytes)`.
pub data Phase : Type 0 where
  idle : Phase
  trying : ℕ → ℕ → Phase
  published : ℕ → ℕ → Phase

-- `held` is what the thread's live reservations add up to.
pub record Thread : Type 0 where
  pub phase : Phase
  pub held : ℕ

pub record Shared : Type 0 where
  pub max_bytes : ℕ
  pub used : ℕ
  pub peak : ℕ
  pub threads : List Thread

abbrev pub claimed : Phase → ℕ
claimed idle = 0
claimed (trying bytes current) = 0
claimed (published bytes next) = bytes

abbrev pub pending : Phase → ℕ
pending idle = 0
pending (trying bytes current) = 0
pending (published bytes next) = next

-- The bytes that the threads have taken together.
abbrev pub total : List Thread → ℕ
total [] = 0
total (t ∷ ts) = claimed t.phase + t.held + total ts

-- The greatest sum that is still to be shown to `peak`.
abbrev pub highest : List Thread → ℕ
highest [] = 0
highest (t ∷ ts) = max (pending t.phase) (highest ts)

abbrev pub put : Shared → ℕ → Thread → Shared
put s i t = record s { threads = set s.threads i t }

pub data Step (s : Shared) : Shared → Type 0 where
  -- `used.load()` at the start of `claim`
  load :
      (i bytes : ℕ) (t : Thread)
      → get_elem? s.threads i ≡ some t
      → t.phase ≡ idle
      → Step s (put s i (record t { phase = trying bytes s.used }))
  -- the guards return an error
  refuse :
      (i bytes current : ℕ) (t : Thread) (e : Error)
      → get_elem? s.threads i ≡ some t
      → t.phase ≡ trying bytes current
      → attempt s.max_bytes current bytes ≡ err e
      → Step s (put s i (record t { phase = idle }))
  -- the weak exchange fails, perhaps for no reason, and tells the value
  retry :
      (i bytes current next : ℕ) (t : Thread)
      → get_elem? s.threads i ≡ some t
      → t.phase ≡ trying bytes current
      → attempt s.max_bytes current bytes ≡ ok next
      → Step s (put s i (record t { phase = trying bytes s.used }))
  -- the exchange succeeds
  exchange :
      (i bytes current next : ℕ) (t : Thread)
      → get_elem? s.threads i ≡ some t
      → t.phase ≡ trying bytes current
      → attempt s.max_bytes current bytes ≡ ok next
      → s.used ≡ current
      → Step s (record (put s i (record t { phase = published bytes next })) { used = next })
  -- `peak.fetch_max(next)`, and the token is made or has grown
  publish :
      (i bytes next : ℕ) (t : Thread)
      → get_elem? s.threads i ≡ some t
      → t.phase ≡ published bytes next
      → Step s (record (put s i (record { phase = idle; held = t.held + bytes })) {
        peak = max s.peak next;
      })
  -- a token of `bytes` is dropped
  release :
      (i bytes rest : ℕ) (t : Thread)
      → get_elem? s.threads i ≡ some t
      → t.phase ≡ idle
      → t.held ≡ rest + bytes
      → Step s (record (put s i (record t { held = rest })) {
        used = (s.used + 2 ^ 64 - bytes) % 2 ^ 64;
      })

pub data Reach (s : Shared) : Shared → Type 0 where
  here : Reach s s
  more : {t u : Shared} → Reach s t → Step t u → Reach s u

pub record IsSound (s : Shared) : Type 0 where
  pub machine : s.max_bytes ≤ u64_max
  pub accounted : s.used ≡ total s.threads
  pub within : s.used ≤ s.max_bytes
  pub covered : s.used ≤ max s.peak (highest s.threads)
  pub peaked : s.peak ≤ s.max_bytes
  pub pending_peaked : highest s.threads ≤ s.max_bytes

total-set :
    (ts : List Thread) (i : ℕ) (t u : Thread)
    → get_elem? ts i ≡ some t
    → total (set ts i u) + claimed t.phase + t.held ≡ total ts + claimed u.phase + u.held
total-set [] i t u e = cc
total-set (x ∷ ts) zero t u e = ground arith
total-set (x ∷ ts) (suc i) t u e = omega (arith, total-set ts i t u e)

highest-set :
    (ts : List Thread) (i : ℕ) (t u : Thread)
    → get_elem? ts i ≡ some t
    → (highest (set ts i u) ≤ max (highest ts) (pending u.phase))
      × (highest ts ≤ max (highest (set ts i u)) (pending t.phase))
      × (pending u.phase ≤ highest (set ts i u))
      × (pending t.phase ≤ highest ts)
highest-set [] i t u e = cc
highest-set (x ∷ ts) zero t u e = ground arith
highest-set (x ∷ ts) (suc i) t u e = omega (arith, highest-set ts i t u e)

Step-IsSound : {s u : Shared} → Step s u → IsSound s → IsSound u
unfolding attempt
Step-IsSound {s = s} (load i bytes t e p) v = ground (
  arith,
  total-set s.threads i t (record t { phase = trying bytes s.used }) e,
  highest-set s.threads i t (record t { phase = trying bytes s.used }) e,
)
Step-IsSound {s = s} (refuse i bytes current t x e p a) v = ground (
  arith,
  total-set s.threads i t (record t { phase = idle }) e,
  highest-set s.threads i t (record t { phase = idle }) e,
)
Step-IsSound {s = s} (retry i bytes current next t e p a) v = ground (
  arith,
  total-set s.threads i t (record t { phase = trying bytes s.used }) e,
  highest-set s.threads i t (record t { phase = trying bytes s.used }) e,
)
Step-IsSound {s = s} (exchange i bytes current next t e p a q) v = ground (
  arith,
  total-set s.threads i t (record t { phase = published bytes next }) e,
  highest-set s.threads i t (record t { phase = published bytes next }) e,
)
Step-IsSound {s = s} (publish i bytes next t e p) v = ground (
  arith,
  total-set s.threads i t (record { phase = idle; held = t.held + bytes }) e,
  highest-set s.threads i t (record { phase = idle; held = t.held + bytes }) e,
)
Step-IsSound {s = s} (release i bytes rest t e p h) v = ground (
  arith,
  total-set s.threads i t (record t { held = rest }) e,
  highest-set s.threads i t (record t { held = rest }) e,
)

pub Reach-IsSound : {s u : Shared} → IsSound s → Reach s u → IsSound u
Reach-IsSound v here = v
Reach-IsSound v (more r st) = Step-IsSound st (Reach-IsSound v r)
