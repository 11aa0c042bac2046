-- ===== src/Reset/Record.antt =====
-- src/reset/DataResetPolicy.h: the requests and the durable record, and their comparisons.
use power_monitor_sensor.Common.{ℕ, Bool, true, false, not, ◌&&◌, List, ◌==◌, is_empty}
use power_monitor_sensor.Common.Texts.{Text, text_eq, texts_eq}
use power_monitor_sensor.Reset.State.{State, Checkpoint, is_state, is_checkpoint}
use power_monitor_sensor.Reset.Boundary.{BoundaryInputs}

pub record PrepareRequest : Type 0 where
  pub protocol : Text
  pub operation_id : Text
  pub device_id : Text
  pub target_generation : ℕ
  pub reset_timestamp : Text
  pub plan_revision : ℕ
  pub plan_digest : Text
  pub categories : List Text
  pub expected_boundary : ℕ
  pub server_highest_contiguous : ℕ
  pub server_maximum_seen : ℕ
  pub expected_firmware_version : Text
  pub expected_build_hash_set : Bool
  pub expected_build_hash : Text
  pub expected_card_generation_set : Bool
  pub expected_card_generation : ℕ

pub record CommitRequest : Type 0 where
  pub protocol : Text
  pub operation_id : Text
  pub device_id : Text
  pub target_generation : ℕ
  pub plan_revision : ℕ
  pub plan_digest : Text
  pub approved_boundary : ℕ
  pub prepared_receipt_digest : Text

pub record Record : Type 0 where
  pub schema_version : ℕ
  pub state : State
  pub checkpoint : Checkpoint
  pub prepare : PrepareRequest
  pub prepared_firmware_version : Text
  pub prepared_build_hash : Text
  pub prepared_boot_id : Text
  pub newest_stored_sequence : ℕ
  pub newest_syncable_sequence : ℕ
  pub sensor_server_acknowledgement : ℕ
  pub sensor_maximum_seen : ℕ
  pub prepared_removal_floor : ℕ
  pub local_sequence_floor : ℕ
  pub next_sequence : ℕ
  pub local_record_count : ℕ
  pub prepare_drain_records_added : ℕ
  pub prepare_drain_sequence_range_set : Bool
  pub prepare_drain_first_sequence : ℕ
  pub prepare_drain_last_sequence : ℕ
  pub prepare_drain_syncable_records_added : ℕ
  pub card_generation : ℕ
  pub sd_status : Text
  pub prepared_pzem_energy_wh : ℕ
  pub software_energy_baseline_before_wh : ℕ
  pub configuration_digest_before : Text
  pub prepared_receipt : Text
  pub prepared_receipt_digest : Text
  pub measurement_pause_started_utc_ms : ℕ
  pub measurement_pause_ended_utc_ms : ℕ
  pub measurement_pause_evidenced : Bool
  pub approved_boundary_set : Bool
  pub approved_boundary : ℕ
  pub new_sequence_floor : ℕ
  pub new_next_sequence : ℕ
  pub commit_energy_baseline_set : Bool
  pub commit_pzem_energy_wh : ℕ
  pub application_energy_baseline_wh : ℕ
  pub verified_pzem_energy_wh : ℕ
  pub readings_deleted : ℕ
  pub indexes_deleted : ℕ
  pub exports_deleted : ℕ
  pub backlog_entries_deleted : ℕ
  pub configuration_digest_after : Text
  pub completion_timestamp : Text
  pub completion_receipt : Text
  pub failure_code : Text

unfoldable pub boundary_inputs : Record → BoundaryInputs
boundary_inputs r = record {
  expected_boundary = r.prepare.expected_boundary;
  server_highest_contiguous = r.prepare.server_highest_contiguous;
  server_maximum_seen = r.prepare.server_maximum_seen;
  local_sequence_floor = r.local_sequence_floor;
  next_sequence = r.next_sequence;
  newest_stored_sequence = r.newest_stored_sequence;
  newest_syncable_sequence = r.newest_syncable_sequence;
  sensor_server_acknowledgement = r.sensor_server_acknowledgement;
  sensor_maximum_seen = r.sensor_maximum_seen;
  prepared_removal_floor = r.prepared_removal_floor;
}

-- == of bool.
abbrev pub bool_eq : Bool → Bool → Bool
bool_eq true b = b
bool_eq false b = not b

unfoldable pub prepare_requests_equal : PrepareRequest → PrepareRequest → Bool
prepare_requests_equal left right =
    text_eq left.protocol right.protocol
    && text_eq left.operation_id right.operation_id
    && text_eq left.device_id right.device_id
    && left.target_generation == right.target_generation
    && text_eq left.reset_timestamp right.reset_timestamp
    && left.plan_revision == right.plan_revision
    && text_eq left.plan_digest right.plan_digest
    && texts_eq left.categories right.categories
    && left.expected_boundary == right.expected_boundary
    && left.server_highest_contiguous == right.server_highest_contiguous
    && left.server_maximum_seen == right.server_maximum_seen
    && text_eq left.expected_firmware_version right.expected_firmware_version
    && bool_eq left.expected_build_hash_set right.expected_build_hash_set
    && text_eq left.expected_build_hash right.expected_build_hash
    && bool_eq left.expected_card_generation_set right.expected_card_generation_set
    && left.expected_card_generation == right.expected_card_generation

unfoldable pub commit_requests_equal : CommitRequest → CommitRequest → Bool
commit_requests_equal left right =
    text_eq left.protocol right.protocol
    && text_eq left.operation_id right.operation_id
    && text_eq left.device_id right.device_id
    && left.target_generation == right.target_generation
    && left.plan_revision == right.plan_revision
    && text_eq left.plan_digest right.plan_digest
    && left.approved_boundary == right.approved_boundary
    && text_eq left.prepared_receipt_digest right.prepared_receipt_digest

unfoldable pub prepared_evidence_present : Record → Bool
prepared_evidence_present r = not (is_empty r.prepared_receipt)

unfoldable pub prepared_evidence_equal : Record → Record → Bool
prepared_evidence_equal left right =
    text_eq left.prepared_firmware_version right.prepared_firmware_version
    && text_eq left.prepared_build_hash right.prepared_build_hash
    && text_eq left.prepared_boot_id right.prepared_boot_id
    && left.newest_stored_sequence == right.newest_stored_sequence
    && left.newest_syncable_sequence == right.newest_syncable_sequence
    && left.sensor_server_acknowledgement == right.sensor_server_acknowledgement
    && left.sensor_maximum_seen == right.sensor_maximum_seen
    && left.prepared_removal_floor == right.prepared_removal_floor
    && left.local_sequence_floor == right.local_sequence_floor
    && left.next_sequence == right.next_sequence
    && left.local_record_count == right.local_record_count
    && left.prepare_drain_records_added == right.prepare_drain_records_added
    && bool_eq left.prepare_drain_sequence_range_set right.prepare_drain_sequence_range_set
    && left.prepare_drain_first_sequence == right.prepare_drain_first_sequence
    && left.prepare_drain_last_sequence == right.prepare_drain_last_sequence
    && left.prepare_drain_syncable_records_added == right.prepare_drain_syncable_records_added
    && left.card_generation == right.card_generation
    && text_eq left.sd_status right.sd_status
    && left.prepared_pzem_energy_wh == right.prepared_pzem_energy_wh
    && left.software_energy_baseline_before_wh == right.software_energy_baseline_before_wh
    && text_eq left.configuration_digest_before right.configuration_digest_before
    && text_eq left.prepared_receipt right.prepared_receipt
    && text_eq left.prepared_receipt_digest right.prepared_receipt_digest

unfoldable pub commit_evidence_equal : Record → Record → Bool
commit_evidence_equal left right =
    bool_eq left.approved_boundary_set right.approved_boundary_set
    && left.approved_boundary == right.approved_boundary
    && left.new_sequence_floor == right.new_sequence_floor
    && left.new_next_sequence == right.new_next_sequence
    && bool_eq left.commit_energy_baseline_set right.commit_energy_baseline_set
    && left.commit_pzem_energy_wh == right.commit_pzem_energy_wh
    && left.application_energy_baseline_wh == right.application_energy_baseline_wh

unfoldable pub records_equal : Record → Record → Bool
records_equal left right =
    left.schema_version == right.schema_version
    && is_state left.state right.state
    && is_checkpoint left.checkpoint right.checkpoint
    && prepare_requests_equal left.prepare right.prepare
    && prepared_evidence_equal left right
    && commit_evidence_equal left right
    && left.readings_deleted == right.readings_deleted
    && left.indexes_deleted == right.indexes_deleted
    && left.exports_deleted == right.exports_deleted
    && left.backlog_entries_deleted == right.backlog_entries_deleted
    && left.verified_pzem_energy_wh == right.verified_pzem_energy_wh
    && text_eq left.configuration_digest_after right.configuration_digest_after
    && text_eq left.completion_timestamp right.completion_timestamp
    && text_eq left.completion_receipt right.completion_receipt
    && left.measurement_pause_started_utc_ms == right.measurement_pause_started_utc_ms
    && left.measurement_pause_ended_utc_ms == right.measurement_pause_ended_utc_ms
    && bool_eq left.measurement_pause_evidenced right.measurement_pause_evidenced
    && text_eq left.failure_code right.failure_code
