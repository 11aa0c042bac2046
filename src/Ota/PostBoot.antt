-- ===== src/Ota/PostBoot.antt =====
-- src/ota/OtaUpdatePolicy.cpp: what the first boots of an image decide about it.
pub mod Decision
use power_monitor_sensor.Common.{Bool, true, false, not, ◌&&◌, ◌||◌, is_empty, if◌then◌else◌}
use power_monitor_sensor.Common.Texts.{Text, codes, text_eq}

pub data PostBootAction : Type 0 where
  nothing defer block validate rollback report_rollback fail_unexpected_image : PostBootAction

pub data PostBootHealthClass : Type 0 where
  healthy healthy_external_degraded retryable_local_initialization : PostBootHealthClass
  local_initialization_blocked fatal_local_runtime : PostBootHealthClass

unfoldable pub post_boot_health_class_name : PostBootHealthClass → Text
post_boot_health_class_name healthy = codes "healthy"
post_boot_health_class_name healthy_external_degraded = codes "healthy_external_degraded"
post_boot_health_class_name retryable_local_initialization = codes "retryable_local_initialization"
post_boot_health_class_name local_initialization_blocked = codes "local_initialization_blocked"
post_boot_health_class_name fatal_local_runtime = codes "fatal_local_runtime"

pub data RunningImageCheckResult : Type 0 where
  not_pending validation_deferred validation_blocked validated : RunningImageCheckResult
  validated_recovery_save_failed rollback_initiated rollback_unavailable : RunningImageCheckResult
  rollback_mark_failed partition_state_unavailable : RunningImageCheckResult
  recovery_checkpoint_failed : RunningImageCheckResult

pub data PreServiceRecoveryAction : Type 0 where
  rollback_rebooting restricted_local_recovery : PreServiceRecoveryAction

unfoldable pub classify_pre_service_recovery : RunningImageCheckResult → PreServiceRecoveryAction
classify_pre_service_recovery rollback_initiated = rollback_rebooting
classify_pre_service_recovery _ = restricted_local_recovery

pub record PostBootHealthEvidence : Type 0 where
  pub core_primitives_ready : Bool
  pub heap_integrity_ok : Bool
  pub meter_task_progressed : Bool
  pub aggregation_task_progressed : Bool
  pub network_task_progressed : Bool
  pub sync_task_progressed : Bool
  pub observation_window_expired : Bool
  pub storage_available : Bool
  pub meter_hardware_available : Bool
  pub network_initialized : Bool
  pub wifi_connected : Bool
  pub time_trusted : Bool
  pub server_reachable : Bool

unfoldable pub classify_post_boot_health : PostBootHealthEvidence → PostBootHealthClass
classify_post_boot_health e =
    let local_tasks_progressed =
      e.meter_task_progressed && e.aggregation_task_progressed && e.network_task_progressed
      && e.sync_task_progressed in
    let local_initialization_pending =
      not e.storage_available || not e.meter_hardware_available || not e.network_initialized in
    let external_degraded = not e.wifi_connected || not e.time_trusted || not e.server_reachable in
    if not e.core_primitives_ready || not e.heap_integrity_ok
    then fatal_local_runtime
    else (if not local_tasks_progressed
        then (if e.observation_window_expired
            then fatal_local_runtime
            else retryable_local_initialization)
        else (if local_initialization_pending
            then (if e.observation_window_expired
                then local_initialization_blocked
                else retryable_local_initialization)
            else (if external_degraded then healthy_external_degraded else healthy)))

-- The identity of an image: its version and the hash of its build.
pub record Image : Type 0 where
  pub version : Text
  pub build_hash : Text

abbrev pub named : Image → Bool
named image = not (is_empty image.version) && not (is_empty image.build_hash)

abbrev pub same_image : Image → Image → Bool
same_image a b = text_eq a.version b.version && text_eq a.build_hash b.build_hash

-- The tests on the health of a pending image that is the expected one.
abbrev pub pending_action : PostBootHealthClass → PostBootAction
pending_action retryable_local_initialization = defer
pending_action local_initialization_blocked = block
pending_action healthy = validate
pending_action healthy_external_degraded = validate
pending_action fatal_local_runtime = rollback

-- The texts of the running, target and previous image stand in three records.
unfoldable pub classify_post_boot :
    Bool → PostBootHealthClass → Image → Image → Image → Bool → PostBootAction
classify_post_boot pending_image health running target previous recovery_pending_reboot =
    let target_matches = recovery_pending_reboot && named target && same_image running target in
    if pending_image
    then (if not target_matches then rollback else pending_action health)
    else (if not recovery_pending_reboot
        then nothing
        else (if target_matches
            then validate
            else (if named previous && same_image running previous
                then report_rollback
                else fail_unexpected_image)))
