-- ===== src/Storage/Examples.antt =====
-- The theorems of the storage policy at concrete cards, segments and pages.
use power_monitor_sensor.Common.{
  ℕ, ◌+◌, ◌-◌, ◌<◌, ◌≡◌, refl, ◌≢◌, ◌⊎◌, true, false, List, [], ◌∷◌, arith, get_elem?, All,
}
use power_monitor_sensor.Common.Texts.{codes, text_eq}
use power_monitor_sensor.Storage.Pressure.{
  continuous_protected, default_policy, validate_storage_policy, percent_bytes,
  cleanup_target_free_bytes,
}
use power_monitor_sensor.Storage.Segments.{
  SegmentMetadata, segment_bytes, RetentionContext, age_eligibility, segment_eligibility,
  CleanupRecoverySnapshot, reverse_moves, forward_delete, block, cleanup_recovery_action,
}
use power_monitor_sensor.Storage.Segments.Removal.{
  is_eligible, HasOneCopy, HasNoOriginal, recovery_unambiguous,
}
use power_monitor_sensor.Storage.Cleanup.{
  build_cleanup_plan, scan, count_segment, push_eligible, sort, index_before, choose, needed_bytes,
  text_lt, insert_sorted,
}
use power_monitor_sensor.Storage.Cleanup.Plan.{Removes, candidates_removable}
use power_monitor_sensor.Storage.Cleanup.Target.{IsOldestNeeded, plan_meets_target}
use power_monitor_sensor.Storage.Coverage.{
  contains, derive_sync_coverage, sort_unique, insert_unique, cover_from, add_unavailable,
  add_selected, closed_plan,
}
use power_monitor_sensor.Storage.Coverage.Exact.{
  CoversAt, coverage_exact, EndsFor, coverage_maximal,
}

-- 32 GB, as a card reports them.
abbrev card : ℕ
card = 31914983424

default_policy_valid : (validate_storage_policy default_policy).valid ≡ true
unfolding validate_storage_policy
default_policy_valid = refl

above_target : cleanup_target_free_bytes card default_policy < 3500000000
unfolding cleanup_target_free_bytes percent_bytes
above_target = omega arith

-- Two closed segments of old readings, the first with the later numbers.
abbrev segment : ℕ → ℕ → SegmentMetadata
segment first last = record {
  record_path = codes "/pm/readings/a.rec";
  index_path = codes "/pm/readings/a.idx";
  first_sequence = first;
  last_sequence = last;
  first_utc_ms = 1700000000000;
  last_utc_ms = 1700000600000;
  payload_bytes = 1000000;
  index_bytes = 4096;
  record_count = last - first + 1;
  integrity_crc = 12345;
  all_times_trusted = true;
  complete = true;
  index_valid = true;
  closed = true;
  active = false;
  cleanup_active = false;
  minimum_window_protected = false;
}

abbrev retention : RetentionContext
retention = record {
  mode = continuous_protected;
  emergency_pressure = false;
  acknowledgement_verified = true;
  server_ack_sequence = 500;
  retention_cutoff_utc_ms = 1750000000000;
  minimum_history_cutoff_utc_ms = 1790000000000;
}

segment_eligible : is_eligible (segment_eligibility (segment 1 100) retention) ≡ true
unfolding segment_eligibility age_eligibility
segment_eligible = refl

abbrev segments : List SegmentMetadata
segments = segment 101 200 ∷ segment 1 100 ∷ segment 450 600 ∷ []

candidates_removable_example :
    All
      (λ i. Removes retention (get_elem? segments i))
      (build_cleanup_plan segments retention 1000 500000).candidate_indexes
candidates_removable_example = candidates_removable segments retention 1000 500000

-- The oldest segment is enough.
oldest_first : (build_cleanup_plan segments retention 1000 500000).candidate_indexes ≡ 1 ∷ []
unfolding build_cleanup_plan needed_bytes scan count_segment push_eligible sort insert_sorted
    index_before choose segment_eligibility age_eligibility segment_bytes text_lt
oldest_first = refl

plan_meets_target_example :
    IsOldestNeeded segments retention 1000 500000
      (build_cleanup_plan segments retention 1000 500000)
plan_meets_target_example = plan_meets_target segments retention 1000 500000

-- A planned cleanup that stopped after one of the two moves.
abbrev half_moved : CleanupRecoverySnapshot
half_moved = record {
  stage = codes "planned";
  has_index = true;
  record_original_exists = false;
  record_trash_exists = true;
  index_original_exists = true;
  index_trash_exists = false;
}

half_moved_action : cleanup_recovery_action half_moved ≡ reverse_moves
unfolding cleanup_recovery_action text_eq
half_moved_action = refl

recovery_unambiguous_example :
    ((half_moved.stage ≡ codes "planned")
      × (cleanup_recovery_action half_moved ≢ forward_delete)
      × HasOneCopy half_moved)
    ⊎ ((half_moved.stage ≢ codes "planned")
        × (cleanup_recovery_action half_moved ≢ reverse_moves)
        × HasNoOriginal half_moved)
recovery_unambiguous_example = recovery_unambiguous half_moved not_blocked
  where
    not_blocked : cleanup_recovery_action half_moved ≢ block
    not_blocked e = cc (half_moved_action, e)

coverage_exact_example :
    CoversAt 10
      (14 ∷ 13 ∷ [])
      (13 ∷ 14 ∷ 17 ∷ [])
      (derive_sync_coverage 10 20 (14 ∷ 13 ∷ []) (13 ∷ 14 ∷ 17 ∷ []) 1000)
      12
coverage_exact_example =
    coverage_exact 10 20 (14 ∷ 13 ∷ []) (13 ∷ 14 ∷ 17 ∷ []) 1000 12 (omega arith)

coverage_maximal_example :
    (limit : ℕ) × EndsFor 10 20
      (14 ∷ 13 ∷ [])
      (13 ∷ 14 ∷ 17 ∷ [])
      1000
      (derive_sync_coverage 10 20 (14 ∷ 13 ∷ []) (13 ∷ 14 ∷ 17 ∷ []) 1000)
      limit
coverage_maximal_example =
    coverage_maximal 10 20 (14 ∷ 13 ∷ []) (13 ∷ 14 ∷ 17 ∷ []) 1000 (omega arith) (omega arith)
      (omega arith)

coverage_of_page :
    (derive_sync_coverage 10 20 (14 ∷ 13 ∷ []) (13 ∷ 14 ∷ 17 ∷ []) 1000).unavailable_sequence_ranges
    ≡ record { start_sequence = 11; end_sequence = 12 } ∷ []
unfolding derive_sync_coverage sort_unique insert_unique cover_from contains add_unavailable
    add_selected closed_plan
coverage_of_page = refl
