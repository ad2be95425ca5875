-- ===== src/Remote/Reconnect.antt =====
-- crates/treesync/src/remote/ssh.rs: how long to wait between the attempts to reconnect. A
-- `Duration` is its nanoseconds, below 2^64 seconds.
pub mod Backoff
use treesync.Prelude.{ℕ, ◌-◌, ◌*◌, ◌^◌, ltb, Option, none, some, if◌then◌else◌}
use Prim.Native.Nat.{min}

abbrev pub duration_limit : ℕ
duration_limit = 2 ^ 64 * 1_000_000_000

pub record Reconnect : Type 0 where
  pub interval : ℕ
  pub max_interval : ℕ
  pub attempts : Option ℕ

abbrev pub reconnect_interval : ℕ
reconnect_interval = 1_000_000_000

abbrev pub reconnect_max_interval : ℕ
reconnect_max_interval = 10_000_000_000

unfoldable pub never : Reconnect
never = record {
  interval = reconnect_interval;
  max_interval = reconnect_max_interval;
  attempts = some 0;
}

unfoldable pub forever : Reconnect
forever = record {
  interval = reconnect_interval;
  max_interval = reconnect_max_interval;
  attempts = none;
}

unfoldable pub bounded : ℕ → Reconnect
bounded attempts = record {
  interval = reconnect_interval;
  max_interval = reconnect_max_interval;
  attempts = some attempts;
}

-- `checked_mul`, and the ceiling where it overflows.
unfoldable pub checked_mul_or : ℕ → ℕ → ℕ → ℕ
checked_mul_or interval factor ceiling =
    if ltb (interval * factor) duration_limit then interval * factor else ceiling

unfoldable pub wait_before : Reconnect → ℕ → ℕ
unfolding checked_mul_or
wait_before r attempt =
    min (checked_mul_or r.interval (2 ^ min (attempt - 1) 31) r.max_interval) r.max_interval
