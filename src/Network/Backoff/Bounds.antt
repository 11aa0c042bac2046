-- ===== src/Network/Backoff/Bounds.antt =====
-- src/network/NetworkPolicy.h: the delays between the attempts.
use power_monitor_sensor.Common.{
  ℕ, suc, ◌*◌, ◌/◌, ◌%◌, ◌^◌, ◌≤◌, ◌≡◌, refl, min, Bool, true, ◌&&◌, arith, leb, all_below,
  all_below_sound, u32,
}
use native.Mathlib.Nat.{mod-lt, zero-lt-suc}
use power_monitor_sensor.Network.Backoff.{backoff_base, reconnect_backoff_ms}

-- The delay of the nth attempt is at least the one before.
steps_up : ℕ → Bool
steps_up n =
    leb 1000 (min (u32 (1000 * 2 ^ n)) 240000)
    && leb (min (u32 (1000 * 2 ^ n)) 240000) (min (u32 (1000 * 2 ^ min (suc n) 8)) 240000)

steps_up_table : all_below 9 steps_up ≡ true
unfolding all_below steps_up
steps_up_table = refl

base_steps : (attempt : ℕ) → steps_up (min attempt 8) ≡ true
base_steps attempt = all_below_sound 9 steps_up steps_up_table (min attempt 8) (omega arith)

mod_bound : (x m : ℕ) → x % suc m ≤ m
mod_bound x m = omega (arith, mod-lt x (zero-lt-suc m))

base_bounds :
    (attempt : ℕ)
    → (1000 ≤ backoff_base attempt)
      × (backoff_base attempt ≤ 240000)
      × (backoff_base attempt ≤ backoff_base (suc attempt))
unfolding backoff_base steps_up
base_bounds attempt =
    let capped : min (suc (min attempt 8)) 8 ≡ min (suc attempt) 8 = omega arith in
    ground (arith, rw capped at (base_steps attempt))

-- For every attempt and random value, the delay lies between one second and five minutes, is at least
-- the attempt's base and at most a quarter more; and the next attempt's base is no smaller.
pub reconnect_backoff_bounds :
    (attempt random_value : ℕ)
    → (1000 ≤ reconnect_backoff_ms attempt random_value)
      × (reconnect_backoff_ms attempt random_value ≤ 300000)
      × (backoff_base attempt ≤ reconnect_backoff_ms attempt random_value)
      × (4 * reconnect_backoff_ms attempt random_value ≤ 5 * backoff_base attempt)
      × (backoff_base attempt ≤ backoff_base (suc attempt))
unfolding reconnect_backoff_ms
reconnect_backoff_bounds attempt random_value =
    ground (arith, base_bounds attempt, mod_bound random_value (backoff_base attempt / 4))
