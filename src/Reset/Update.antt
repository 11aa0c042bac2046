-- ===== src/Reset/Update.antt =====
-- src/reset/DataResetPolicy.cpp, validRecordUpdate: which record may follow which in the store.
pub mod Steps
pub mod Generations
use power_monitor_sensor.Common.{
  ℕ, Bool, true, false, not, ◌&&◌, ◌||◌, leb, ltb, ◌==◌, is_empty, if◌then◌else◌,
}
use power_monitor_sensor.Common.Texts.{text_eq}
use power_monitor_sensor.Reset.State.{
  is_state, is_checkpoint, reaches, preparing, completed, none_yet, verified, terminal_state,
  can_transition, can_advance_checkpoint, commit_point_reached,
}
use power_monitor_sensor.Reset.Record.{
  Record, prepare_requests_equal, prepared_evidence_present, prepared_evidence_equal,
  commit_evidence_equal,
}
use power_monitor_sensor.Reset.Validity.{valid_record}

-- The branch for another operation: only after a terminal record, at its start, for newer data.
unfoldable pub valid_succession : Record → Record → Bool
valid_succession current proposed =
    if not (terminal_state current.state)
      || not (is_state proposed.state preparing)
      || not (is_checkpoint proposed.checkpoint none_yet)
    then false
    else (if is_state current.state completed
        then ltb current.prepare.target_generation proposed.prepare.target_generation
        else leb current.prepare.target_generation proposed.prepare.target_generation)

-- The tests that keep what has been recorded, in their order.
unfoldable pub keeps_record : Record → Record → Bool
keeps_record current proposed =
    if prepared_evidence_present current && not (prepared_evidence_equal current proposed)
    then false
    else (if commit_point_reached current.checkpoint && not (commit_evidence_equal current proposed)
        then false
        else (if current.approved_boundary_set
              && (not (current.approved_boundary == proposed.approved_boundary)
                  || not (current.new_sequence_floor == proposed.new_sequence_floor)
                  || not (current.new_next_sequence == proposed.new_next_sequence)
                  || not proposed.approved_boundary_set)
            then false
            else (if reaches current.checkpoint verified
                  && not (current.verified_pzem_energy_wh == proposed.verified_pzem_energy_wh)
                then false
                else not (
                    ltb proposed.readings_deleted current.readings_deleted
                    || ltb proposed.indexes_deleted current.indexes_deleted
                    || ltb proposed.exports_deleted current.exports_deleted
                    || ltb proposed.backlog_entries_deleted current.backlog_entries_deleted))))

unfoldable pub keeps_results : Record → Record → Bool
keeps_results current proposed =
    if not (is_empty current.configuration_digest_after)
      && not (text_eq current.configuration_digest_after proposed.configuration_digest_after)
    then false
    else (if not (is_empty current.completion_receipt)
          && (not (text_eq current.completion_receipt proposed.completion_receipt)
              || not (text_eq current.completion_timestamp proposed.completion_timestamp))
        then false
        else (if not (
              current.measurement_pause_started_utc_ms == proposed.measurement_pause_started_utc_ms)
            then false
            else (if current.measurement_pause_evidenced
                  && (not (
                        current.measurement_pause_ended_utc_ms
                        == proposed.measurement_pause_ended_utc_ms)
                      || not proposed.measurement_pause_evidenced)
                then false
                else true)))

unfoldable pub valid_record_update : Record → Record → Bool
valid_record_update current proposed =
    if not (valid_record current) || not (valid_record proposed)
    then false
    else (if not (text_eq current.prepare.operation_id proposed.prepare.operation_id)
        then valid_succession current proposed
        else (if not (prepare_requests_equal current.prepare proposed.prepare)
              || not (can_transition current.state proposed.state proposed.checkpoint)
              || not (can_advance_checkpoint current.checkpoint proposed.checkpoint)
            then false
            else keeps_record current proposed && keeps_results current proposed))
