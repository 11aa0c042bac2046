-- ===== src/Reset/Validity/Evidence.antt =====
-- src/reset/DataResetPolicy.cpp: the evidence that a record holds of its preparation and its commit.
use power_monitor_sensor.Common.{
  ◌+◌, ◌-◌, Bool, false, not, ◌&&◌, ◌||◌, leb, ltb, ◌==◌, u64, is_empty, if◌then◌else◌,
}
use power_monitor_sensor.Common.Texts.{text_eq}
use power_monitor_sensor.Reset.State.{
  is_state, is_checkpoint, reaches, prepared, attention_required, none_yet, verified,
}
use power_monitor_sensor.Reset.Boundary.{maximum_reset_boundary, highest_trusted_boundary}
use power_monitor_sensor.Reset.Format.{bounded_printable, lowercase_hex, lowercase_uuid}
use power_monitor_sensor.Reset.Record.{Record, boundary_inputs, bool_eq}

-- The first test of `validPreparedEvidence`: formats and required values.
unfoldable pub prepared_format_wrong : Record → Bool
prepared_format_wrong r =
    not (bounded_printable r.prepared_firmware_version 32 false)
    || not (lowercase_hex r.prepared_build_hash 64)
    || not (lowercase_uuid r.prepared_boot_id)
    || r.next_sequence == 0
    || leb r.next_sequence r.local_sequence_floor
    || r.card_generation == 0
    || not (bounded_printable r.sd_status 32 false)
    || not (lowercase_hex r.configuration_digest_before 64)
    || not (bounded_printable r.prepared_receipt 4096 false)
    || not (lowercase_hex r.prepared_receipt_digest 64)

-- Its next three: the device is the one that the plan was made for.
unfoldable pub prepared_identity_wrong : Record → Bool
prepared_identity_wrong r =
    not (text_eq r.prepared_firmware_version r.prepare.expected_firmware_version)
    || (r.prepare.expected_build_hash_set
        && not (text_eq r.prepared_build_hash r.prepare.expected_build_hash))
    || (r.prepare.expected_card_generation_set
        && not (r.card_generation == r.prepare.expected_card_generation))

-- Its last: the records that the reset's own drain added are at the end of the store.
-- The sums are of 64 bits. The difference cannot wrap where it counts: the test above it has passed.
unfoldable pub drain_range_wrong : Record → Bool
drain_range_wrong r =
    r.prepare_drain_first_sequence == 0
    || ltb r.prepare_drain_last_sequence r.prepare_drain_first_sequence
    || not (
        u64 (r.prepare_drain_last_sequence - r.prepare_drain_first_sequence + 1)
        == r.prepare_drain_records_added)
    || not (r.prepare_drain_last_sequence == r.newest_stored_sequence)
    || not (r.next_sequence == u64 (r.prepare_drain_last_sequence + 1))
    || ltb r.local_record_count r.prepare_drain_records_added
    || (ltb 0 r.prepare_drain_syncable_records_added
        && (ltb r.newest_syncable_sequence r.prepare_drain_first_sequence
            || (r.prepare_drain_syncable_records_added == r.prepare_drain_records_added
                && not (r.newest_syncable_sequence == r.prepare_drain_last_sequence))))

unfoldable pub drain_absent_wrong : Record → Bool
drain_absent_wrong r =
    not (r.prepare_drain_first_sequence == 0)
    || not (r.prepare_drain_last_sequence == 0)
    || not (r.prepare_drain_syncable_records_added == 0)

unfoldable pub drain_wrong : Record → Bool
drain_wrong r =
    ltb 2 r.prepare_drain_records_added
    || ltb r.prepare_drain_records_added r.prepare_drain_syncable_records_added
    || not (bool_eq r.prepare_drain_sequence_range_set (ltb 0 r.prepare_drain_records_added))
    || (if r.prepare_drain_sequence_range_set then drain_range_wrong r else drain_absent_wrong r)

unfoldable pub valid_prepared_evidence : Record → Bool
valid_prepared_evidence r =
    if prepared_format_wrong r || prepared_identity_wrong r || drain_wrong r
    then false
    else leb r.newest_syncable_sequence r.newest_stored_sequence
      && leb r.sensor_server_acknowledgement r.sensor_maximum_seen

unfoldable pub no_prepared_evidence : Record → Bool
no_prepared_evidence r =
    is_empty r.prepared_firmware_version
    && is_empty r.prepared_build_hash
    && is_empty r.prepared_boot_id
    && r.newest_stored_sequence == 0
    && r.newest_syncable_sequence == 0
    && r.sensor_server_acknowledgement == 0
    && r.sensor_maximum_seen == 0
    && r.prepared_removal_floor == 0
    && r.local_sequence_floor == 0
    && r.next_sequence == 0
    && r.local_record_count == 0
    && r.prepare_drain_records_added == 0
    && not r.prepare_drain_sequence_range_set
    && r.prepare_drain_first_sequence == 0
    && r.prepare_drain_last_sequence == 0
    && r.prepare_drain_syncable_records_added == 0
    && r.card_generation == 0
    && is_empty r.sd_status
    && r.prepared_pzem_energy_wh == 0
    && r.software_energy_baseline_before_wh == 0
    && is_empty r.configuration_digest_before
    && is_empty r.prepared_receipt
    && is_empty r.prepared_receipt_digest

-- Nothing of the work behind the commit point has been recorded.
unfoldable pub no_results : Record → Bool
no_results r =
    not r.commit_energy_baseline_set
    && r.commit_pzem_energy_wh == 0
    && r.application_energy_baseline_wh == 0
    && r.verified_pzem_energy_wh == 0
    && r.readings_deleted == 0
    && r.indexes_deleted == 0
    && r.exports_deleted == 0
    && r.backlog_entries_deleted == 0
    && is_empty r.configuration_digest_after
    && is_empty r.completion_timestamp
    && is_empty r.completion_receipt

unfoldable pub no_commit_evidence : Record → Bool
unfolding no_results
no_commit_evidence r =
    not r.approved_boundary_set
    && r.approved_boundary == 0
    && r.new_sequence_floor == 0
    && r.new_next_sequence == 0
    && no_results r

unfoldable pub valid_commit_evidence : Record → Bool
valid_commit_evidence r =
    if not r.approved_boundary_set
      || not r.commit_energy_baseline_set
      || ltb maximum_reset_boundary r.approved_boundary
      || not (r.new_sequence_floor == r.approved_boundary)
      || not (r.new_next_sequence == u64 (r.approved_boundary + 1))
    then false
    else (let required = highest_trusted_boundary (boundary_inputs r) in
        if not required.valid
          || ltb r.approved_boundary required.boundary
          || ltb r.commit_pzem_energy_wh r.prepared_pzem_energy_wh
        then false
        else (if reaches r.checkpoint verified
            then leb r.commit_pzem_energy_wh r.verified_pzem_energy_wh
            else r.verified_pzem_energy_wh == 0))

unfoldable pub valid_preauthorization_evidence : Record → Bool
unfolding no_results
valid_preauthorization_evidence r =
    if not r.approved_boundary_set
    then no_commit_evidence r
    else (let required = highest_trusted_boundary (boundary_inputs r) in
        (is_state r.state prepared || is_state r.state attention_required)
        && is_checkpoint r.checkpoint none_yet
        && required.valid
        && leb required.boundary r.approved_boundary
        && leb r.approved_boundary maximum_reset_boundary
        && r.new_sequence_floor == r.approved_boundary
        && r.new_next_sequence == u64 (r.approved_boundary + 1)
        && no_results r)
