-- ===== src/Reset/Validity.antt =====
-- src/reset/DataResetPolicy.cpp, validRecord and its parts: which durable records are well formed.
pub mod Evidence
use power_monitor_sensor.Common.{
  ℕ, ◌+◌, ◌-◌, Bool, false, not, ◌&&◌, ◌||◌, List, [], leb, ltb, ◌==◌, u64, length, is_empty,
  get_or, if◌then◌else◌,
}
use power_monitor_sensor.Common.Texts.{Text, codes, text_eq}
use power_monitor_sensor.Reset.State.{
  State, is_state, is_checkpoint, reaches, idle, preparing, prepared, committing, completed,
  cancelled, attention_required, none_yet, verified, valid_state_checkpoint, commit_point_reached,
}
use power_monitor_sensor.Reset.Boundary.{maximum_reset_boundary, highest_trusted_boundary}
use power_monitor_sensor.Reset.Format.{
  bounded_printable, safe_failure_code, lowercase_hex, lowercase_uuid, valid_reset_timestamp,
}
use power_monitor_sensor.Reset.Record.{
  PrepareRequest, CommitRequest, Record, boundary_inputs, bool_eq, prepared_evidence_present,
}
use power_monitor_sensor.Reset.Validity.Evidence.{
  valid_prepared_evidence, no_prepared_evidence, valid_commit_evidence,
  valid_preauthorization_evidence,
}

abbrev pub record_schema_version : ℕ
record_schema_version = 1

abbrev pub protocol_version : Text
protocol_version = codes "data-reset/1.0.0"

abbrev pub measurement_history_category : Text
measurement_history_category = codes "measurement_history"

unfoldable pub categories_supported : List Text → Bool
categories_supported categories =
    length categories == 1 && text_eq (get_or categories 0 []) measurement_history_category

unfoldable pub valid_prepare_request : PrepareRequest → Bool
valid_prepare_request request =
    text_eq request.protocol protocol_version
    && lowercase_uuid request.operation_id
    && lowercase_uuid request.device_id
    && not (request.target_generation == 0)
    && valid_reset_timestamp request.reset_timestamp
    && not (request.plan_revision == 0)
    && lowercase_hex request.plan_digest 64
    && categories_supported request.categories
    && leb request.expected_boundary maximum_reset_boundary
    && leb request.server_highest_contiguous maximum_reset_boundary
    && leb request.server_maximum_seen maximum_reset_boundary
    && leb request.server_highest_contiguous request.server_maximum_seen
    && bounded_printable request.expected_firmware_version 32 false
    && (if request.expected_build_hash_set
        then lowercase_hex request.expected_build_hash 64
        else is_empty request.expected_build_hash)
    && (if request.expected_card_generation_set
        then not (request.expected_card_generation == 0)
        else request.expected_card_generation == 0)

unfoldable pub valid_commit_request : CommitRequest → Bool
valid_commit_request request =
    text_eq request.protocol protocol_version
    && lowercase_uuid request.operation_id
    && lowercase_uuid request.device_id
    && not (request.target_generation == 0)
    && not (request.plan_revision == 0)
    && lowercase_hex request.plan_digest 64
    && leb request.approved_boundary maximum_reset_boundary
    && lowercase_hex request.prepared_receipt_digest 64

-- `validRecord` from its test of the pause on.
unfoldable pub pause_wrong : Record → Bool
pause_wrong r =
    let pause_complete = is_state r.state cancelled || reaches r.checkpoint verified in
    r.measurement_pause_started_utc_ms == 0
    || (if pause_complete
        then not r.measurement_pause_evidenced
          || ltb r.measurement_pause_ended_utc_ms r.measurement_pause_started_utc_ms
        else r.measurement_pause_evidenced || not (r.measurement_pause_ended_utc_ms == 0))

unfoldable pub digest_after_wrong : Record → Bool
digest_after_wrong r =
    if reaches r.checkpoint verified
    then not (lowercase_hex r.configuration_digest_after 64)
      || not (text_eq r.configuration_digest_after r.configuration_digest_before)
    else not (is_empty r.configuration_digest_after)
      && not (lowercase_hex r.configuration_digest_after 64)

unfoldable pub completion_right : Record → Bool
completion_right r =
    if is_state r.state completed
    then bounded_printable r.completion_timestamp 40 false
      && bounded_printable r.completion_receipt 4096 false
    else is_empty r.completion_timestamp && is_empty r.completion_receipt

unfoldable pub needs_prepared : State → Bool
needs_prepared state =
    is_state state prepared
    || is_state state committing
    || is_state state completed
    || is_state state attention_required

unfoldable pub valid_record : Record → Bool
valid_record r =
    let has_prepared = prepared_evidence_present r in
    let at_commit_point = commit_point_reached r.checkpoint in
    if not (r.schema_version == record_schema_version)
      || is_state r.state idle
      || not (valid_prepare_request r.prepare)
      || not (valid_state_checkpoint r.state r.checkpoint)
      || not (safe_failure_code r.failure_code)
    then false
    else (if (if has_prepared
          then not (valid_prepared_evidence r)
          else not (no_prepared_evidence r))
        then false
        else (if needs_prepared r.state && not has_prepared
            then false
            else (if is_state r.state preparing && has_prepared
                then false
                else (if (if at_commit_point
                      then not (valid_commit_evidence r)
                      else not (valid_preauthorization_evidence r))
                    then false
                    else (if pause_wrong r
                        then false
                        else (if is_state r.state attention_required && is_empty r.failure_code
                            then false
                            else (if digest_after_wrong r then false else completion_right r)))))))
