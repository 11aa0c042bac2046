-- ===== src/Storage/Segments.antt =====
-- src/storage/StoragePolicy.cpp, segmentEligibility, the card bindings and cleanupRecoveryAction.
pub mod Removal
use power_monitor_sensor.Common.{
  ℕ, ◌+◌, Bool, true, false, not, ◌&&◌, ◌||◌, leb, ltb, ◌==◌, is_empty, u64, ◌%◌, ◌^◌,
  if◌then◌else◌,
}
use power_monitor_sensor.Common.Texts.{Text, codes, text_eq}
use power_monitor_sensor.Storage.Pressure.{
  RetentionMode, disabled, strict_age, continuous_protected,
}

unfoldable pub reset_card_binding_matches : ℕ → Text → ℕ → Text → Bool
reset_card_binding_matches actual_generation actual_device_id expected_generation
      expected_device_id =
    not (expected_generation == 0)
    && not (is_empty expected_device_id)
    && actual_generation == expected_generation
    && text_eq actual_device_id expected_device_id

unfoldable pub reset_manifest_binding_matches : ℕ → ℕ → Text → Text → ℕ → Text → Text → Bool
reset_manifest_binding_matches schema_version actual_generation actual_device_id
      actual_hardware_fingerprint expected_generation expected_device_id
      expected_hardware_fingerprint =
    schema_version == 2
    && not (is_empty expected_hardware_fingerprint)
    && text_eq actual_hardware_fingerprint expected_hardware_fingerprint
    && reset_card_binding_matches actual_generation actual_device_id expected_generation
        expected_device_id

pub record SegmentMetadata : Type 0 where
  pub record_path : Text
  pub index_path : Text
  pub first_sequence : ℕ
  pub last_sequence : ℕ
  pub first_utc_ms : ℕ
  pub last_utc_ms : ℕ
  pub payload_bytes : ℕ
  pub index_bytes : ℕ
  pub record_count : ℕ
  pub integrity_crc : ℕ
  pub all_times_trusted : Bool
  pub complete : Bool
  pub index_valid : Bool
  pub closed : Bool
  pub active : Bool
  pub cleanup_active : Bool
  pub minimum_window_protected : Bool

unfoldable pub segment_bytes : SegmentMetadata → ℕ
segment_bytes segment = u64 (segment.payload_bytes + segment.index_bytes)

pub data SegmentEligibility : Type 0 where
  eligible_age eligible_emergency is_active incomplete : SegmentEligibility
  corrupt_or_missing_index sequence_unknown unacknowledged too_recent : SegmentEligibility
  time_untrusted in_cleanup minimum_window : SegmentEligibility

pub record RetentionContext : Type 0 where
  pub mode : RetentionMode
  pub emergency_pressure : Bool
  pub acknowledgement_verified : Bool
  pub server_ack_sequence : ℕ
  pub retention_cutoff_utc_ms : ℕ
  pub minimum_history_cutoff_utc_ms : ℕ

abbrev pub is_continuous : RetentionMode → Bool
is_continuous continuous_protected = true
is_continuous disabled = false
is_continuous strict_age = false

-- `segmentEligibility` behind the test of the acknowledgement: by age.
unfoldable pub age_eligibility : SegmentMetadata → RetentionContext → SegmentEligibility
age_eligibility segment context =
    if segment.all_times_trusted
      && not (segment.last_utc_ms == 0)
      && not (context.retention_cutoff_utc_ms == 0)
      && ltb segment.last_utc_ms context.retention_cutoff_utc_ms
    then eligible_age
    else (if not (is_continuous context.mode) || not context.emergency_pressure
        then (if segment.all_times_trusted then too_recent else time_untrusted)
        else (if segment.all_times_trusted
            then (if not (segment.last_utc_ms == 0)
                  && not (context.minimum_history_cutoff_utc_ms == 0)
                  && ltb segment.last_utc_ms context.minimum_history_cutoff_utc_ms
                then eligible_emergency
                else too_recent)
            else eligible_emergency))

unfoldable pub segment_eligibility : SegmentMetadata → RetentionContext → SegmentEligibility
segment_eligibility segment context =
    if segment.active || not segment.closed
    then is_active
    else (if segment.cleanup_active
        then in_cleanup
        else (if segment.minimum_window_protected
            then minimum_window
            else (if not segment.complete
                then incomplete
                else (if not segment.index_valid
                    then corrupt_or_missing_index
                    else (if segment.first_sequence == 0
                          || ltb segment.last_sequence segment.first_sequence
                        then sequence_unknown
                        else (if not context.acknowledgement_verified
                              || ltb context.server_ack_sequence segment.last_sequence
                            then unacknowledged
                            else age_eligibility segment context))))))

pub data CleanupRecoveryAction : Type 0 where
  clear_journal reverse_moves forward_delete block : CleanupRecoveryAction

pub record CleanupRecoverySnapshot : Type 0 where
  pub stage : Text
  pub has_index : Bool
  pub record_original_exists : Bool
  pub record_trash_exists : Bool
  pub index_original_exists : Bool
  pub index_trash_exists : Bool

unfoldable pub cleanup_recovery_action : CleanupRecoverySnapshot → CleanupRecoveryAction
cleanup_recovery_action s =
    let record_collision = s.record_original_exists && s.record_trash_exists in
    let record_missing = not s.record_original_exists && not s.record_trash_exists in
    let index_collision = s.has_index && s.index_original_exists && s.index_trash_exists in
    let index_missing = s.has_index && not s.index_original_exists && not s.index_trash_exists in
    let any_trash = s.record_trash_exists || (s.has_index && s.index_trash_exists) in
    let any_original = s.record_original_exists || (s.has_index && s.index_original_exists) in
    if record_collision || index_collision
    then block
    else (if text_eq s.stage (codes "planned")
        then (if record_missing || index_missing
            then block
            else (if any_trash then reverse_moves else clear_journal))
        else (if text_eq s.stage (codes "files_moved")
              || text_eq s.stage (codes "record_deleted")
              || text_eq s.stage (codes "complete")
            then (if any_original
                then block
                else (if any_trash then forward_delete else clear_journal))
            else block))
