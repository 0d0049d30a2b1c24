-- ===== src/Rust/Duration.antt =====
-- std::time::Duration.
use pcopy.Prelude.{ℕ, ◌*◌, ◌/◌}

-- A duration in nanoseconds. The seconds are a u64, so it is below `2 ^ 64 * 10 ^ 9`.
pub record Duration : Type 0 where
  pub nanos : ℕ

unfoldable pub as_millis : Duration → ℕ
as_millis d = d.nanos / 1_000_000

unfoldable pub from_millis : ℕ → Duration
from_millis ms = record { nanos = ms * 1_000_000 }
