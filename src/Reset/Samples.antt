-- ===== src/Reset/Samples.antt =====
-- A device with a prepared reset, and the server's commit request for it.
use power_monitor_sensor.Common.{true, false, [], ◌∷◌}
use power_monitor_sensor.Common.Texts.{Text, codes}
use power_monitor_sensor.Reset.State.{preparing, prepared, completed, none_yet, all_completed}
use power_monitor_sensor.Reset.Record.{PrepareRequest, CommitRequest, Record}
use power_monitor_sensor.Reset.Approval.{latched, authorized}

abbrev pub operation : Text
operation = codes "0123abcd-0000-4000-8000-0123456789ab"

abbrev pub other_operation : Text
other_operation = codes "ffffabcd-0000-4000-8000-0123456789ab"

abbrev pub digest : Text
digest = codes "0123456789abcdef0123456789abcdef0123456789abcdef0123456789abcdef"

abbrev pub prepare_sample : PrepareRequest
prepare_sample = record {
  protocol = codes "data-reset/1.0.0";
  operation_id = operation;
  device_id = operation;
  target_generation = 2;
  reset_timestamp = codes "2026-01-01T00:00:00Z";
  plan_revision = 1;
  plan_digest = digest;
  categories = codes "measurement_history" ∷ [];
  expected_boundary = 40;
  server_highest_contiguous = 38;
  server_maximum_seen = 40;
  expected_firmware_version = codes "1.0.16";
  expected_build_hash_set = true;
  expected_build_hash = digest;
  expected_card_generation_set = false;
  expected_card_generation = 0;
}

abbrev pub record_sample : Record
record_sample = record {
  schema_version = 1;
  state = prepared;
  checkpoint = none_yet;
  prepare = prepare_sample;
  prepared_firmware_version = codes "1.0.16";
  prepared_build_hash = digest;
  prepared_boot_id = operation;
  newest_stored_sequence = 42;
  newest_syncable_sequence = 42;
  sensor_server_acknowledgement = 38;
  sensor_maximum_seen = 40;
  prepared_removal_floor = 0;
  local_sequence_floor = 42;
  next_sequence = 43;
  local_record_count = 30;
  prepare_drain_records_added = 1;
  prepare_drain_sequence_range_set = true;
  prepare_drain_first_sequence = 42;
  prepare_drain_last_sequence = 42;
  prepare_drain_syncable_records_added = 1;
  card_generation = 5;
  sd_status = codes "ok";
  prepared_pzem_energy_wh = 1000;
  software_energy_baseline_before_wh = 10;
  configuration_digest_before = digest;
  prepared_receipt = codes "receipt";
  prepared_receipt_digest = digest;
  measurement_pause_started_utc_ms = 1_767_225_600_000;
  measurement_pause_ended_utc_ms = 0;
  measurement_pause_evidenced = false;
  approved_boundary_set = false;
  approved_boundary = 0;
  new_sequence_floor = 0;
  new_next_sequence = 0;
  commit_energy_baseline_set = false;
  commit_pzem_energy_wh = 0;
  application_energy_baseline_wh = 0;
  verified_pzem_energy_wh = 0;
  readings_deleted = 0;
  indexes_deleted = 0;
  exports_deleted = 0;
  backlog_entries_deleted = 0;
  configuration_digest_after = [];
  completion_timestamp = [];
  completion_receipt = [];
  failure_code = [];
}

abbrev pub commit_sample : CommitRequest
commit_sample = record {
  protocol = codes "data-reset/1.0.0";
  operation_id = operation;
  device_id = operation;
  target_generation = 2;
  plan_revision = 1;
  plan_digest = digest;
  approved_boundary = 45;
  prepared_receipt_digest = digest;
}

-- The records of the commit.
abbrev pub latched_sample : Record
latched_sample = latched record_sample commit_sample

abbrev pub authorized_sample : Record
authorized_sample = authorized latched_sample commit_sample 1010 20

abbrev pub completed_sample : Record
completed_sample = record authorized_sample {
  state = completed;
  checkpoint = all_completed;
  measurement_pause_ended_utc_ms = 1_767_225_700_000;
  measurement_pause_evidenced = true;
  verified_pzem_energy_wh = 1010;
  readings_deleted = 30;
  configuration_digest_after = digest;
  completion_timestamp = codes "2026-01-01T01:00:00Z";
  completion_receipt = codes "done";
}

-- The next operation, freshly admitted.
abbrev pub next_sample : Record
next_sample = record {
  schema_version = 1;
  state = preparing;
  checkpoint = none_yet;
  prepare = record prepare_sample { operation_id = other_operation; target_generation = 3 };
  prepared_firmware_version = [];
  prepared_build_hash = [];
  prepared_boot_id = [];
  newest_stored_sequence = 0;
  newest_syncable_sequence = 0;
  sensor_server_acknowledgement = 0;
  sensor_maximum_seen = 0;
  prepared_removal_floor = 0;
  local_sequence_floor = 0;
  next_sequence = 0;
  local_record_count = 0;
  prepare_drain_records_added = 0;
  prepare_drain_sequence_range_set = false;
  prepare_drain_first_sequence = 0;
  prepare_drain_last_sequence = 0;
  prepare_drain_syncable_records_added = 0;
  card_generation = 0;
  sd_status = [];
  prepared_pzem_energy_wh = 0;
  software_energy_baseline_before_wh = 0;
  configuration_digest_before = [];
  prepared_receipt = [];
  prepared_receipt_digest = [];
  measurement_pause_started_utc_ms = 1_767_325_600_000;
  measurement_pause_ended_utc_ms = 0;
  measurement_pause_evidenced = false;
  approved_boundary_set = false;
  approved_boundary = 0;
  new_sequence_floor = 0;
  new_next_sequence = 0;
  commit_energy_baseline_set = false;
  commit_pzem_energy_wh = 0;
  application_energy_baseline_wh = 0;
  verified_pzem_energy_wh = 0;
  readings_deleted = 0;
  indexes_deleted = 0;
  exports_deleted = 0;
  backlog_entries_deleted = 0;
  configuration_digest_after = [];
  completion_timestamp = [];
  completion_receipt = [];
  failure_code = [];
}
