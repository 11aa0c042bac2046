-- ===== src/Network/Backoff.antt =====
-- src/network/NetworkPolicy.h: when a lost connection is tried again.
pub mod Bounds
use power_monitor_sensor.Common.{
  ℕ, ◌+◌, ◌-◌, ◌*◌, ◌/◌, ◌%◌, ◌^◌, min, Bool, true, false, not, ◌&&◌, ◌||◌, leb, ◌==◌, u32, suc,
}

unfoldable pub elapsed_at_least : ℕ → ℕ → ℕ → Bool
elapsed_at_least now_ms started_ms interval_ms =
    not (started_ms == 0) && leb started_ms now_ms && leb interval_ms (now_ms - started_ms)

-- kReconnectInitialMs << exponent, and its minimum with kReconnectBaseMaximumMs.
unfoldable pub backoff_base : ℕ → ℕ
backoff_base attempt = min (u32 (1000 * 2 ^ min attempt 8)) 240000

unfoldable pub reconnect_backoff_ms : ℕ → ℕ → ℕ
reconnect_backoff_ms attempt random_value =
    min (backoff_base attempt + random_value % suc (backoff_base attempt / 4)) 300000
