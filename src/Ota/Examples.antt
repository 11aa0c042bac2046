-- ===== src/Ota/Examples.antt =====
-- The theorems of the update policy at concrete downloads, boots and reports.
use power_monitor_sensor.Common.{◌≡◌, refl, ◌↔◌, true, false, List, [], ◌∷◌, arith}
use power_monitor_sensor.Common.Texts.{codes, text_eq}
use power_monitor_sensor.Ota.Stream.{truncated, new_tracker, finish, Event, chunk, on_event, feed}
use power_monitor_sensor.Ota.Stream.Runs.{total, all_written, stream_completes}
use power_monitor_sensor.Ota.PostBoot.{
  PostBootHealthEvidence, Image, validate, classify_post_boot_health, classify_post_boot,
}
use power_monitor_sensor.Ota.PostBoot.Decision.{RunsLocally, validated-RunsLocally}
use power_monitor_sensor.Ota.Partition.{PartitionVerificationEvidence}
use power_monitor_sensor.Ota.Milestones.Replay.{
  replay, between, wait_reports, failure_reports, rollback_reports, replay_in_order,
}

abbrev download : List Event
download = chunk 4096 true ∷ chunk 1000 true ∷ []

stream_completes_example :
    ((finish (feed (new_tracker 5096) download) true false).1 ≡ true)
    ↔ ((all_written download ≡ true) × (total download ≡ 5096) × (true ≡ true) × (false ≡ false))
stream_completes_example = stream_completes 5096 download true false (omega arith)

short_download : (finish (feed (new_tracker 6000) download) true false).0.failure ≡ truncated
unfolding feed finish on_event
short_download = refl

abbrev running : Image
running = record { version = codes "1.0.16"; build_hash = codes "ab12" }

abbrev previous : Image
previous = record { version = codes "1.0.15"; build_hash = codes "cd34" }

-- All runs, and the server is out of reach.
abbrev offline : PostBootHealthEvidence
offline = record {
  core_primitives_ready = true;
  heap_integrity_ok = true;
  meter_task_progressed = true;
  aggregation_task_progressed = true;
  network_task_progressed = true;
  sync_task_progressed = true;
  observation_window_expired = false;
  storage_available = true;
  meter_hardware_available = true;
  network_initialized = true;
  wifi_connected = true;
  time_trusted = true;
  server_reachable = false;
}

offline_validated :
    classify_post_boot true (classify_post_boot_health offline) running running previous true
    ≡ validate
unfolding classify_post_boot classify_post_boot_health text_eq
offline_validated = refl

validated-RunsLocally_example :
    RunsLocally offline
    × (true ≡ true)
    × (running.version ≡ running.version)
    × (running.build_hash ≡ running.build_hash)
validated-RunsLocally_example =
    validated-RunsLocally offline running running previous true offline_validated

abbrev partition : PartitionVerificationEvidence
partition = record {
  expected_present = true;
  selected_present = true;
  running_present = true;
  expected_is_ota_app = true;
  selected_not_running = true;
  selected_state_available = true;
  selected_state_new = true;
  descriptor_available = true;
  expected_type = 0;
  selected_type = 0;
  expected_subtype = 17;
  selected_subtype = 17;
  expected_address = 0x10000;
  selected_address = 0x10000;
  expected_size = 0x1e0000;
  selected_size = 0x1e0000;
  expected_label = codes "app1";
  selected_label = codes "app1";
  project_name = codes "sensor";
  version = codes "1.0.16";
  build_hash = codes "ab12";
}

replay_in_order_example :
    (replay 10 (codes "waiting_for_schedule") (codes "validated") ≡ between 9 8)
    × (replay 10 (codes "waiting_for_schedule") (codes "waiting_for_schedule") ≡ wait_reports 9)
    × (replay 10 (codes "waiting_for_schedule") (codes "failed") ≡ failure_reports 9)
    × (replay 10 (codes "waiting_for_schedule") (codes "rolled_back") ≡ rollback_reports 9)
replay_in_order_example = replay_in_order 9 8 (omega arith) (omega arith)

-- A device that has waited goes on with the download.
after_wait : between 9 3 ≡ codes "download_started" ∷ codes "downloading" ∷ []
after_wait = refl
