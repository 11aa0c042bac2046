-- ===== src/Reset/Examples.antt =====
-- The theorems of the reset policy at concrete records.
use power_monitor_sensor.Common.{ℕ, ◌+◌, ◌*◌, ◌≤◌, ◌≡◌, ◌↔◌, refl, true, arith}
use power_monitor_sensor.Common.Texts.{text_eq, texts_eq}
use power_monitor_sensor.Reset.Capacity.{DataResetCapacityReport, data_reset_capacity_sufficient}
use power_monitor_sensor.Reset.Capacity.Exact.{HasCapacity, capacity_sufficient_exact}
use power_monitor_sensor.Reset.State.{
  sequence_advanced, valid_state_checkpoint, commit_point_reached, terminal_state, can_transition,
  can_advance_checkpoint,
}
use power_monitor_sensor.Reset.Boundary.{
  Covers, trusted_maximum, highest_trusted_boundary, highest_trusted_boundary_least,
}
use power_monitor_sensor.Reset.Record.{
  Record, boundary_inputs, prepare_requests_equal, prepared_evidence_present,
  prepared_evidence_equal, commit_evidence_equal,
}
use power_monitor_sensor.Reset.Format.{
  bounded_printable, safe_failure_code, lowercase_hex, lowercase_uuid, valid_reset_timestamp,
}
use power_monitor_sensor.Reset.Validity.Evidence.{
  valid_prepared_evidence, prepared_format_wrong, prepared_identity_wrong, drain_wrong,
  drain_range_wrong, drain_absent_wrong, no_prepared_evidence, no_commit_evidence,
  valid_commit_evidence, valid_preauthorization_evidence,
}
use power_monitor_sensor.Reset.Validity.{
  valid_record, valid_prepare_request, categories_supported, valid_commit_request, pause_wrong,
  digest_after_wrong, completion_right, needs_prepared,
}
use power_monitor_sensor.Reset.Request.{
  accept, replay, classify_commit_request, commit_identity_wrong,
}
use power_monitor_sensor.Reset.Update.{
  valid_record_update, valid_succession, keeps_record, keeps_results,
}
use power_monitor_sensor.Reset.Update.Steps.{
  Updates, here, updated, Committed, commit_irrevocable, checkpoints_in_order,
}
use power_monitor_sensor.Reset.Approval.{latched, authorized}
use power_monitor_sensor.Reset.Approval.Accepted.{commit_acceptance}
use power_monitor_sensor.Reset.Samples.{
  record_sample, commit_sample, latched_sample, authorized_sample, completed_sample, next_sample,
  operation,
}

-- Opens everything that the validity of a record and of an update computes with.
policy_opened : ℕ
unfolding valid_record valid_prepare_request text_eq texts_eq lowercase_uuid valid_reset_timestamp
    lowercase_hex categories_supported bounded_printable valid_state_checkpoint safe_failure_code
    prepared_evidence_present valid_prepared_evidence prepared_format_wrong prepared_identity_wrong
    drain_wrong drain_range_wrong drain_absent_wrong commit_point_reached
    valid_preauthorization_evidence no_commit_evidence valid_commit_evidence no_prepared_evidence
    pause_wrong digest_after_wrong completion_right needs_prepared boundary_inputs
    highest_trusted_boundary trusted_maximum valid_record_update valid_succession keeps_record
    keeps_results prepare_requests_equal prepared_evidence_equal commit_evidence_equal
    terminal_state can_transition can_advance_checkpoint latched authorized
policy_opened = 0

record_sample_valid : valid_record record_sample ≡ true
unfolding policy_opened
record_sample_valid = refl

commit_sample_accepted : classify_commit_request record_sample commit_sample ≡ accept
unfolding policy_opened classify_commit_request valid_commit_request commit_identity_wrong
commit_sample_accepted = refl

commit_acceptance_example :
    Covers (boundary_inputs record_sample) 45
    × (valid_record_update record_sample latched_sample ≡ true)
    × (classify_commit_request latched_sample commit_sample ≡ replay)
commit_acceptance_example =
    commit_acceptance record_sample commit_sample record_sample_valid commit_sample_accepted

record_sample-Covers : Covers (boundary_inputs record_sample) 44
unfolding boundary_inputs
record_sample-Covers = omega arith

highest_trusted_boundary_least_example :
    let inputs = boundary_inputs record_sample in
    ((highest_trusted_boundary inputs).valid ≡ true)
    × Covers inputs (highest_trusted_boundary inputs).boundary
    × ((highest_trusted_boundary inputs).boundary ≤ 44)
    × ((highest_trusted_boundary inputs).next_sequence
        ≡ (highest_trusted_boundary inputs).boundary + 1)
highest_trusted_boundary_least_example =
    highest_trusted_boundary_least (boundary_inputs record_sample) 44 record_sample-Covers
      (omega arith)

boundary_of_sample : (highest_trusted_boundary (boundary_inputs record_sample)).boundary ≡ 42
unfolding policy_opened
boundary_of_sample = refl

authorize_step : valid_record_update latched_sample authorized_sample ≡ true
unfolding policy_opened
authorize_step = refl

same_operation : text_eq operation operation ≡ true
unfolding policy_opened
same_operation = refl

-- One checkpoint further.
abbrev advanced_sample : Record
advanced_sample = record authorized_sample { checkpoint = sequence_advanced }

advance_step : valid_record_update authorized_sample advanced_sample ≡ true
unfolding policy_opened
advance_step = refl

commit-Updates : Updates 1 authorized_sample advanced_sample
unfolding latched authorized
commit-Updates = updated here advance_step same_operation

commit_irrevocable_example : Committed authorized_sample advanced_sample
unfolding policy_opened
commit_irrevocable_example = commit_irrevocable refl (λ e. cc) commit-Updates

checkpoints_in_order_example :
    (10 ≤ 20) × (20 ≤ 10 + 10 * 1) × (0 ≤ 0) × (0 ≤ 0) × (0 ≤ 0) × (0 ≤ 0)
unfolding latched authorized
checkpoints_in_order_example = checkpoints_in_order commit-Updates

next_step : valid_record_update completed_sample next_sample ≡ true
unfolding policy_opened
next_step = refl

abbrev fresh_report : DataResetCapacityReport
fresh_report = record {
  pmconfig = record { query_succeeded = true; free_entries = 700; total_entries = 2000 };
  default_nvs = record { query_succeeded = true; free_entries = 600; total_entries = 2000 };
  pmconfig_terminal_entries = 0;
  default_nvs_terminal_entries = 200;
}

capacity_sufficient_exact_example :
    (data_reset_capacity_sufficient fresh_report ≡ true)
    ↔ (HasCapacity 622 0 fresh_report.pmconfig × HasCapacity 778 200 fresh_report.default_nvs)
capacity_sufficient_exact_example = capacity_sufficient_exact fresh_report
