-- ===== src/Storage/Pressure/Bands.antt =====
-- src/storage/StoragePolicy.cpp: the thresholds as numbers, and the order of the bands.
use power_monitor_sensor.Common.{ℕ, ◌+◌, ◌*◌, ◌/◌, ◌%◌, ◌^◌, ◌≤◌, ◌<◌, ◌≡◌, true, arith, ap}
use power_monitor_sensor.Storage.Pressure.{
  StoragePressureState, healthy, notice, warning, critical, emergency, StoragePolicy,
  validate_storage_policy, percent_bytes, emergency_threshold, classify_storage_pressure,
  cleanup_target_free_bytes,
}

split : (c p : ℕ) → c * p ≡ 100 * (c / 100 * p) + c % 100 * p
split c p =
    let e : c ≡ 100 * (c / 100) + c % 100 = omega arith in omega (arith, ap (λ (t : ℕ). t * p) e)

part_le : (c p : ℕ) → p ≤ 100 → c / 100 * p ≤ c / 100 * 100
part_le c p h = grind arith

rest_le : (c p : ℕ) → p ≤ 100 → c % 100 * p ≤ c % 100 * 100
rest_le c p h = grind arith

-- For a 64-bit capacity and a percentage up to 100, the computation in two parts gives the
-- percentage of the capacity rounded down, without wrapping.
pub percent_bytes_exact :
    (capacity percent : ℕ)
    → capacity < 2 ^ 64
    → percent ≤ 100
    → percent_bytes capacity percent ≡ capacity * percent / 100
unfolding percent_bytes
percent_bytes_exact capacity percent h k =
    omega (arith, split capacity percent, part_le capacity percent k, rest_le capacity percent k)

product_le : (c p q : ℕ) → p ≤ q → c * p ≤ c * q
product_le c p q h = grind arith

percent_bytes_mono :
    (capacity p q : ℕ)
    → capacity < 2 ^ 64
    → p ≤ q
    → q ≤ 100
    → percent_bytes capacity p ≤ percent_bytes capacity q
percent_bytes_mono capacity p q h le k = omega (
  arith,
  percent_bytes_exact capacity p h (omega arith),
  percent_bytes_exact capacity q h k,
  product_le capacity p q le,
)

-- The order of the percentages in a validated policy.
record Ordered (policy : StoragePolicy) : Type 0 where
  emergency_critical : policy.emergency_percent < policy.critical_percent
  critical_warning : policy.critical_percent < policy.warning_percent
  warning_target : policy.warning_percent ≤ policy.cleanup_target_percent
  target_notice : policy.cleanup_target_percent ≤ policy.notice_percent
  notice_half : policy.notice_percent ≤ 50
  reserve_target : policy.emergency_reserve_bytes ≤ policy.cleanup_target_bytes

validated-Ordered :
    (policy : StoragePolicy) → (validate_storage_policy policy).valid ≡ true → Ordered policy
unfolding validate_storage_policy
validated-Ordered policy h = ground arith

-- How bad a state is, from 0.
abbrev pub severity : StoragePressureState → ℕ
severity healthy = 0
severity notice = 1
severity warning = 2
severity critical = 3
severity emergency = 4
severity _ = 5

-- On one card and under one policy, more free space never means more pressure.
pub severity_antitone :
    (capacity less more : ℕ) (policy : StoragePolicy)
    → less ≤ more
    → severity (classify_storage_pressure capacity more policy)
      ≤ severity (classify_storage_pressure capacity less policy)
unfolding classify_storage_pressure
severity_antitone capacity less more policy h = ground arith

-- The thresholds that stand below the cleanup target.
record Cleared (capacity free : ℕ) (policy : StoragePolicy) : Type 0 where
  above_emergency : emergency_threshold capacity policy < free
  above_critical : percent_bytes capacity policy.critical_percent < free
  above_warning : percent_bytes capacity policy.warning_percent < free

above-Cleared :
    (capacity free : ℕ) (policy : StoragePolicy)
    → capacity < 2 ^ 64
    → Ordered policy
    → cleanup_target_free_bytes capacity policy < free
    → Cleared capacity free policy
unfolding cleanup_target_free_bytes emergency_threshold
above-Cleared capacity free policy h o k =
    let warning_le =
      percent_bytes_mono capacity policy.warning_percent policy.cleanup_target_percent h
        o.warning_target (omega (arith, o)) in
    let critical_le =
      percent_bytes_mono capacity policy.critical_percent policy.warning_percent h
        (omega (arith, o)) (omega (arith, o)) in
    let emergency_le =
      percent_bytes_mono capacity policy.emergency_percent policy.critical_percent h
        (omega (arith, o)) (omega (arith, o)) in
    omega (arith, warning_le, critical_le, emergency_le, o)

-- Under a validated policy, a card of a non-zero 64-bit capacity with more free space than the cleanup
-- target is healthy or at notice: a cleanup that passes its target ends every alarm.
pub cleanup_target_clears :
    (capacity free : ℕ) (policy : StoragePolicy)
    → 0 < capacity
    → capacity < 2 ^ 64
    → (validate_storage_policy policy).valid ≡ true
    → cleanup_target_free_bytes capacity policy < free
    → severity (classify_storage_pressure capacity free policy) ≤ 1
unfolding classify_storage_pressure
cleanup_target_clears capacity free policy some_size h v k =
    ground (arith, above-Cleared capacity free policy h (validated-Ordered policy v) k)
