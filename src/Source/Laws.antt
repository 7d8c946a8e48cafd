-- ===== src/Source/Laws.antt =====
-- When a range is accepted.
use mdictlib.Prelude.{ℕ, ◌+◌, ◌≤◌, String, ◌≡◌, arith}
use mdictlib.Error.{ok}
use mdictlib.Limits.{u64_max}
use mdictlib.Source.{FileSource, ensure_range}

pub ensure_range-ok :
    (s : FileSource) (offset len : ℕ) (context : String)
    → ensure_range s offset len context ≡ ok tt
    → (offset + len ≤ s.len) × (offset + len ≤ u64_max)
unfolding ensure_range
ensure_range-ok s offset len context e = ground arith

pub ensure_range_fits :
    (s : FileSource) (offset len : ℕ) (context : String)
    → offset + len ≤ s.len
    → s.len ≤ u64_max
    → ensure_range s offset len context ≡ ok tt
unfolding ensure_range
ensure_range_fits s offset len context h m = ground arith
