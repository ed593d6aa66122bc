-- ===== src/Universe.antt =====
-- src/server/Universe.h: the counter that clients increment, a uint64_t.
use communo.Prelude.{ℕ, ◌+◌, ◌%◌, ◌^◌}

pub record Universe : Type 0 where
  pub counter : ℕ

unfoldable pub get_counter : Universe → ℕ
get_counter universe = universe.counter

unfoldable pub increment_counter : Universe → Universe
increment_counter universe = record universe { counter = (universe.counter + 1) % 2 ^ 64 }
