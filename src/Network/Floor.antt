-- ===== src/Network/Floor.antt =====
-- src/network/ServerSyncPolicy.h: the server's acknowledgement against the local sequences.
pub mod Reconciled
use power_monitor_sensor.Common.{
  ℕ, ◌+◌, ◌-◌, ◌^◌, Bool, not, ◌&&◌, ◌||◌, ltb, leb, ◌==◌, if◌then◌else◌,
}

pub data AcknowledgementDisposition : Type 0 where
  invalid current advance advance_sequence_floor : AcknowledgementDisposition

unfoldable pub classify_acknowledgement : ℕ → ℕ → ℕ → AcknowledgementDisposition
classify_acknowledgement current_acknowledgement newest_stored_sequence server_acknowledgement =
    if ltb server_acknowledgement current_acknowledgement
    then invalid
    else (if ltb newest_stored_sequence server_acknowledgement
        then advance_sequence_floor
        else (if server_acknowledgement == current_acknowledgement then current else advance))

-- a > b ? a : b
abbrev pub greater : ℕ → ℕ → ℕ
greater a b = if ltb b a then a else b

unfoldable pub required_sequence_floor : ℕ → ℕ → ℕ → ℕ → ℕ → ℕ → ℕ
required_sequence_floor local_record_high_water journal_high_water persisted_acknowledgement
      persisted_maximum_seen server_maximum_seen prepared_removal_high_water =
    let local = greater local_record_high_water journal_high_water in
    let persisted = greater persisted_acknowledgement persisted_maximum_seen in
    let remote = greater persisted server_maximum_seen in
    if ltb remote local
    then greater local prepared_removal_high_water
    else greater remote prepared_removal_high_water

unfoldable pub sequence_cursor_contract_valid : ℕ → ℕ → ℕ → ℕ → Bool
sequence_cursor_contract_valid top_level_acknowledgement nested_acknowledgement
      maximum_seen_sequence next_sequence_floor =
    top_level_acknowledgement == nested_acknowledgement
    && leb nested_acknowledgement maximum_seen_sequence
    && not (maximum_seen_sequence == 2 ^ 64 - 1)
    && next_sequence_floor == maximum_seen_sequence + 1

unfoldable pub should_release_reading_backoff : Bool → ℕ → ℕ → Bool → ℕ → Bool
should_release_reading_backoff immediate_sync_requested acknowledgement newest_stored_sequence
      previous_release_recorded previous_release_acknowledgement =
    immediate_sync_requested
    && ltb acknowledgement newest_stored_sequence
    && (not previous_release_recorded || not (acknowledgement == previous_release_acknowledgement))

unfoldable pub heartbeat_latest_allowed : Bool → Bool → Bool → ℕ → ℕ → Bool
heartbeat_latest_allowed has_latest latest_valid data_reset_frozen latest_generation
      heartbeat_generation =
    has_latest && latest_valid && not data_reset_frozen && latest_generation == heartbeat_generation

unfoldable pub manifest_poll_deadline : Bool → ℕ → ℕ → ℕ
manifest_poll_deadline firmware_release_available current_deadline_ms now_ms =
    if firmware_release_available && ltb now_ms current_deadline_ms
    then now_ms
    else current_deadline_ms
