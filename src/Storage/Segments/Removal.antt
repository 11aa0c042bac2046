-- ===== src/Storage/Segments/Removal.antt =====
-- src/storage/StoragePolicy.cpp: which segments may be removed, and which files a recovery may touch.
use power_monitor_sensor.Common.{◌≤◌, ◌<◌, ◌≡◌, ◌≢◌, ◌⊎◌, Bool, true, false, arith}
use power_monitor_sensor.Common.Texts.{codes, text_eq_iff}
use power_monitor_sensor.Storage.Pressure.{continuous_protected}
use power_monitor_sensor.Storage.Segments.{
  SegmentMetadata, SegmentEligibility, eligible_age, eligible_emergency, RetentionContext,
  age_eligibility, segment_eligibility, CleanupRecoverySnapshot, reverse_moves, forward_delete,
  block, cleanup_recovery_action,
}

abbrev pub is_eligible : SegmentEligibility → Bool
is_eligible eligible_age = true
is_eligible eligible_emergency = true
is_eligible _ = false

-- The segment is at rest, whole, and known to the server; and it is old enough, or its age is given
-- up under emergency pressure in the continuous mode.
pub record IsRemovable (segment : SegmentMetadata) (context : RetentionContext) : Type 0 where
  pub at_rest : (segment.active ≡ false) × (segment.closed ≡ true)
  pub not_in_cleanup : segment.cleanup_active ≡ false
  pub not_protected : segment.minimum_window_protected ≡ false
  pub whole : (segment.complete ≡ true) × (segment.index_valid ≡ true)
  pub numbered : (0 < segment.first_sequence) × (segment.first_sequence ≤ segment.last_sequence)
  pub verified : context.acknowledgement_verified ≡ true
  pub acknowledged : segment.last_sequence ≤ context.server_ack_sequence
  pub aged :
      ((segment.all_times_trusted ≡ true) × (segment.last_utc_ms < context.retention_cutoff_utc_ms))
      ⊎ ((context.mode ≡ continuous_protected)
          × (context.emergency_pressure ≡ true)
          × ((segment.all_times_trusted ≡ false)
              ⊎ (segment.last_utc_ms < context.minimum_history_cutoff_utc_ms)))

aged_of :
    (segment : SegmentMetadata) (context : RetentionContext)
    → is_eligible (age_eligibility segment context) ≡ true
    → ((segment.all_times_trusted ≡ true) × (segment.last_utc_ms < context.retention_cutoff_utc_ms))
      ⊎ ((context.mode ≡ continuous_protected)
          × (context.emergency_pressure ≡ true)
          × ((segment.all_times_trusted ≡ false)
              ⊎ (segment.last_utc_ms < context.minimum_history_cutoff_utc_ms)))
unfolding age_eligibility
aged_of segment context h = ground arith

-- Only a removable segment is eligible: none that is in use, protected, damaged, not acknowledged by
-- the server, or too recent for the retention mode.
pub eligible-IsRemovable :
    (segment : SegmentMetadata) (context : RetentionContext)
    → is_eligible (segment_eligibility segment context) ≡ true
    → IsRemovable segment context
unfolding segment_eligibility
eligible-IsRemovable segment context h = ground (arith, aged_of segment context)

-- The record file, and the index file if there is one, stand in exactly one of their two places.
pub record HasOneCopy (s : CleanupRecoverySnapshot) : Type 0 where
  pub record_copy : s.record_original_exists ≢ s.record_trash_exists
  pub index_copy : (s.has_index ≡ false) ⊎ (s.index_original_exists ≢ s.index_trash_exists)

-- No file stands in its original place.
pub record HasNoOriginal (s : CleanupRecoverySnapshot) : Type 0 where
  pub no_record : s.record_original_exists ≡ false
  pub no_index : (s.has_index ≡ false) ⊎ (s.index_original_exists ≡ false)

-- Unless the recovery is blocked, either the cleanup was only planned and each file has exactly one
-- copy, which moving back restores, or the files had been moved and none stands in its original
-- place, so that deleting the moved copies removes no live file.
pub recovery_unambiguous :
    (s : CleanupRecoverySnapshot)
    → cleanup_recovery_action s ≢ block
    → ((s.stage ≡ codes "planned") × (cleanup_recovery_action s ≢ forward_delete) × HasOneCopy s)
      ⊎ ((s.stage ≢ codes "planned")
          × (cleanup_recovery_action s ≢ reverse_moves)
          × HasNoOriginal s)
unfolding cleanup_recovery_action
recovery_unambiguous s h = ground (arith, text_eq_iff s.stage (codes "planned"))
