-- ===== src/Ota/PostBoot/Decision.antt =====
-- src/ota/OtaUpdatePolicy.cpp: the health evidence against the action after a boot.
use power_monitor_sensor.Common.{◌≡◌, Bool, true, arith}
use power_monitor_sensor.Common.Texts.{text_eq→eq}
use power_monitor_sensor.Ota.PostBoot.{
  PostBootHealthClass, validate, PostBootHealthEvidence, classify_post_boot_health, Image,
  pending_action, classify_post_boot,
}

-- The part of the evidence that is the image's own.
pub record RunsLocally (e : PostBootHealthEvidence) : Type 0 where
  pub core : e.core_primitives_ready ≡ true
  pub heap : e.heap_integrity_ok ≡ true
  pub meter : e.meter_task_progressed ≡ true
  pub aggregation : e.aggregation_task_progressed ≡ true
  pub network : e.network_task_progressed ≡ true
  pub sync : e.sync_task_progressed ≡ true
  pub storage : e.storage_available ≡ true
  pub meter_hardware : e.meter_hardware_available ≡ true
  pub network_ready : e.network_initialized ≡ true

pending_validate :
    (e : PostBootHealthEvidence)
    → pending_action (classify_post_boot_health e) ≡ validate
    → RunsLocally e
unfolding classify_post_boot_health
pending_validate e h = ground arith

-- A pending image is validated only if a reboot into exactly this version and build was recorded and
-- all of its own tasks, storage, meter and network run.
pub validated-RunsLocally :
    (e : PostBootHealthEvidence) (running target previous : Image) (recovery_pending_reboot : Bool)
    → classify_post_boot true
        (classify_post_boot_health e)
        running
        target
        previous
        recovery_pending_reboot
      ≡ validate
    → RunsLocally e
      × (recovery_pending_reboot ≡ true)
      × (running.version ≡ target.version)
      × (running.build_hash ≡ target.build_hash)
unfolding classify_post_boot
validated-RunsLocally e running target previous reboot h = (
  ground (arith, pending_validate e),
  ground arith,
  ground (arith, text_eq→eq running.version target.version),
  ground (arith, text_eq→eq running.build_hash target.build_hash),
)

external_pending :
    (e : PostBootHealthEvidence) (wifi time server : Bool)
    → pending_action (
        classify_post_boot_health
          (record e { wifi_connected = wifi; time_trusted = time; server_reachable = server }))
      ≡ pending_action (classify_post_boot_health e)
unfolding classify_post_boot_health
external_pending e wifi time server = ground arith

same_action :
    (a b : PostBootHealthClass) (running target previous : Image) (pending reboot : Bool)
    → pending_action a ≡ pending_action b
    → classify_post_boot pending a running target previous reboot
      ≡ classify_post_boot pending b running target previous reboot
unfolding classify_post_boot
same_action a b running target previous pending reboot h = rw h

-- Wi-Fi, clock and server decide nothing: evidence that differs in these alone has the same action.
pub external_ignored :
    (e : PostBootHealthEvidence) (wifi time server pending : Bool) (running target previous : Image)
    (reboot : Bool)
    → classify_post_boot pending
        (classify_post_boot_health
          (record e { wifi_connected = wifi; time_trusted = time; server_reachable = server }))
        running
        target
        previous
        reboot
      ≡ classify_post_boot pending (classify_post_boot_health e) running target previous reboot
external_ignored e wifi time server pending running target previous reboot =
    same_action _ _ running target previous pending reboot (external_pending e wifi time server)
