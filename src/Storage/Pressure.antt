-- ===== src/Storage/Pressure.antt =====
-- src/storage/StoragePolicy.cpp: the policy, its validation, and the pressure on a card.
pub mod Bands
use power_monitor_sensor.Common.{
  ℕ, ◌+◌, ◌-◌, ◌*◌, ◌/◌, ◌%◌, ◌^◌, max, min, Bool, true, false, not, ◌&&◌, ◌||◌, Option, none, some,
  leb, ltb, ◌==◌, u64, if◌then◌else◌,
}
use power_monitor_sensor.Common.Texts.{Text, codes, text_eq}

pub data RetentionMode : Type 0 where
  disabled strict_age continuous_protected : RetentionMode

unfoldable pub retention_mode_name : RetentionMode → Text
retention_mode_name disabled = codes "disabled"
retention_mode_name strict_age = codes "strict_age"
retention_mode_name continuous_protected = codes "continuous_protected"

unfoldable pub parse_retention_mode : Text → Option RetentionMode
parse_retention_mode value =
    if text_eq value (codes "disabled")
    then some disabled
    else (if text_eq value (codes "strict_age")
        then some strict_age
        else (if text_eq value (codes "continuous_protected")
            then some continuous_protected
            else none))

pub data StoragePressureState : Type 0 where
  healthy notice warning critical emergency cleanup_queued cleanup_running : StoragePressureState
  cleanup_recovering cleanup_blocked_unacknowledged : StoragePressureState
  cleanup_blocked_untrusted read_only full failed prepared_for_removal : StoragePressureState

unfoldable pub storage_pressure_state_name : StoragePressureState → Text
storage_pressure_state_name healthy = codes "healthy"
storage_pressure_state_name notice = codes "notice"
storage_pressure_state_name warning = codes "warning"
storage_pressure_state_name critical = codes "critical"
storage_pressure_state_name emergency = codes "emergency"
storage_pressure_state_name cleanup_queued = codes "cleanup_queued"
storage_pressure_state_name cleanup_running = codes "cleanup_running"
storage_pressure_state_name cleanup_recovering = codes "cleanup_recovering"
storage_pressure_state_name cleanup_blocked_unacknowledged = codes "cleanup_blocked_unacknowledged"
storage_pressure_state_name cleanup_blocked_untrusted = codes "cleanup_blocked_untrusted"
storage_pressure_state_name read_only = codes "read_only"
storage_pressure_state_name full = codes "full"
storage_pressure_state_name failed = codes "failed"
storage_pressure_state_name prepared_for_removal = codes "prepared_for_removal"

pub record StoragePolicy : Type 0 where
  pub mode : RetentionMode
  pub retention_days : ℕ
  pub minimum_local_history_days : ℕ
  pub notice_percent : ℕ
  pub warning_percent : ℕ
  pub critical_percent : ℕ
  pub emergency_percent : ℕ
  pub emergency_reserve_bytes : ℕ
  pub cleanup_target_percent : ℕ
  pub cleanup_target_bytes : ℕ
  pub event_retention_days : ℕ

abbrev pub default_policy : StoragePolicy
default_policy = record {
  mode = continuous_protected;
  retention_days = 730;
  minimum_local_history_days = 30;
  notice_percent = 20;
  warning_percent = 10;
  critical_percent = 5;
  emergency_percent = 2;
  emergency_reserve_bytes = 512 * 1024 * 1024;
  cleanup_target_percent = 10;
  cleanup_target_bytes = 1024 * 1024 * 1024;
  event_retention_days = 730;
}

pub record StoragePolicyValidation : Type 0 where
  pub valid : Bool
  pub code : Text

unfoldable pub validate_storage_policy : StoragePolicy → StoragePolicyValidation
validate_storage_policy policy =
    if ltb 50 policy.notice_percent
      || ltb policy.emergency_percent 1
      || not (
          ltb policy.warning_percent policy.notice_percent
          && ltb policy.critical_percent policy.warning_percent
          && ltb policy.emergency_percent policy.critical_percent)
    then record { valid = false; code = codes "storage_threshold_order_invalid" }
    else (if ltb policy.retention_days 1
          || ltb 3650 policy.retention_days
          || ltb policy.minimum_local_history_days 1
          || ltb policy.retention_days policy.minimum_local_history_days
          || ltb policy.event_retention_days 1
          || ltb 3650 policy.event_retention_days
        then record { valid = false; code = codes "storage_retention_window_invalid" }
        else (if ltb policy.emergency_reserve_bytes (64 * 1024 * 1024)
              || ltb policy.cleanup_target_bytes policy.emergency_reserve_bytes
              || ltb policy.cleanup_target_percent policy.warning_percent
              || ltb policy.notice_percent policy.cleanup_target_percent
            then record { valid = false; code = codes "storage_reserve_invalid" }
            else record { valid = true; code = codes "ok" }))

unfoldable pub percent_bytes : ℕ → ℕ → ℕ
percent_bytes capacity percent =
    u64 (u64 (capacity / 100 * percent) + capacity % 100 * percent / 100)

unfoldable pub emergency_threshold : ℕ → StoragePolicy → ℕ
emergency_threshold capacity_bytes policy =
    max (percent_bytes capacity_bytes policy.emergency_percent)
      (min policy.emergency_reserve_bytes (capacity_bytes / 2))

unfoldable pub classify_storage_pressure : ℕ → ℕ → StoragePolicy → StoragePressureState
unfolding emergency_threshold
classify_storage_pressure capacity_bytes free_bytes policy =
    if capacity_bytes == 0
    then failed
    else (if free_bytes == 0
        then full
        else (if leb free_bytes (emergency_threshold capacity_bytes policy)
            then emergency
            else (if leb free_bytes (percent_bytes capacity_bytes policy.critical_percent)
                then critical
                else (if leb free_bytes (percent_bytes capacity_bytes policy.warning_percent)
                    then warning
                    else (if leb free_bytes (percent_bytes capacity_bytes policy.notice_percent)
                        then notice
                        else healthy)))))

unfoldable pub cleanup_target_free_bytes : ℕ → StoragePolicy → ℕ
cleanup_target_free_bytes capacity_bytes policy =
    let percentage = percent_bytes capacity_bytes policy.cleanup_target_percent in
    let absolute = min policy.cleanup_target_bytes (capacity_bytes / 2) in max percentage absolute

-- size_t has 32 bits on the device, so this sum does not wrap.
unfoldable pub conservative_write_reserve_bytes : ℕ → ℕ
conservative_write_reserve_bytes record_bytes =
    record_bytes + 128 + 1024 + 4096 + 64 * 1024 + 256 * 1024
