-- ===== src/Reset/Capacity.antt =====
-- src/reset/DataResetCapacityPolicy.h: whether the flash partitions can take the journals of a reset.
-- The numbers of entries are far below 2^32, where a size_t wraps.
pub mod Exact
use power_monitor_sensor.Common.{
  ℕ, ◌+◌, ◌-◌, ◌*◌, ◌/◌, ◌≡◌, Bool, ◌&&◌, leb, ltb, ◌==◌, if◌then◌else◌,
}

abbrev pub nvs_entry_bytes : ℕ
nvs_entry_bytes = 32

abbrev pub nvs_blob_chunk_bytes : ℕ
nvs_blob_chunk_bytes = 4000

abbrev pub atomic_record_envelope_bytes : ℕ
atomic_record_envelope_bytes = 24

abbrev pub atomic_marker_bytes : ℕ
atomic_marker_bytes = 20

abbrev pub nvs_garbage_collection_page_entries : ℕ
nvs_garbage_collection_page_entries = 126

abbrev pub nvs_admission_margin_entries : ℕ
nvs_admission_margin_entries = 32

abbrev pub divide_round_up : ℕ → ℕ → ℕ
divide_round_up value divisor = if value == 0 then 0 else 1 + (value - 1) / divisor

abbrev pub nvs_blob_entries : ℕ → ℕ
nvs_blob_entries bytes =
    1 + divide_round_up bytes nvs_entry_bytes + divide_round_up bytes nvs_blob_chunk_bytes

unfoldable pub atomic_slot_entries : ℕ → ℕ
atomic_slot_entries payload_bytes = nvs_blob_entries (payload_bytes + atomic_record_envelope_bytes)

abbrev pub atomic_marker_entries : ℕ
atomic_marker_entries = nvs_blob_entries atomic_marker_bytes

abbrev pub main_reset_record_maximum_bytes : ℕ
main_reset_record_maximum_bytes = 9326

abbrev pub prepared_reset_record_maximum_bytes : ℕ
prepared_reset_record_maximum_bytes = 5126

unfoldable pub required_pmconfig_entries : ℕ
unfolding atomic_slot_entries
required_pmconfig_entries =
    atomic_slot_entries main_reset_record_maximum_bytes
    + atomic_slot_entries prepared_reset_record_maximum_bytes
    + atomic_marker_entries
    + nvs_garbage_collection_page_entries
    + nvs_admission_margin_entries

abbrev pub event_journal_maximum_bytes : ℕ
event_journal_maximum_bytes = 11600

abbrev pub completed_event_journal_maximum_bytes : ℕ
completed_event_journal_maximum_bytes = 208

abbrev pub drain_journal_maximum_bytes : ℕ
drain_journal_maximum_bytes = 3072

abbrev pub cleanup_journal_maximum_bytes : ℕ
cleanup_journal_maximum_bytes = 448

unfoldable pub required_default_entries : ℕ
unfolding atomic_slot_entries
required_default_entries =
    atomic_slot_entries event_journal_maximum_bytes
    + atomic_slot_entries completed_event_journal_maximum_bytes
    + 2 * atomic_slot_entries drain_journal_maximum_bytes
    + 2 * atomic_slot_entries cleanup_journal_maximum_bytes
    + 3 * atomic_marker_entries
    + 1
    + nvs_garbage_collection_page_entries
    + nvs_admission_margin_entries

pub record NvsCapacitySnapshot : Type 0 where
  pub query_succeeded : Bool
  pub free_entries : ℕ
  pub total_entries : ℕ

pub record DataResetCapacityReport : Type 0 where
  pub pmconfig : NvsCapacitySnapshot
  pub default_nvs : NvsCapacitySnapshot
  pub pmconfig_terminal_entries : ℕ
  pub default_nvs_terminal_entries : ℕ

unfoldable pub required_after_terminal_credit : ℕ → ℕ → ℕ
required_after_terminal_credit worst_case_required terminal_entries =
    let irreducible = nvs_garbage_collection_page_entries + nvs_admission_margin_entries in
    let maximum_credit =
      if ltb irreducible worst_case_required then worst_case_required - irreducible else 0 in
    let credit = if ltb terminal_entries maximum_credit then terminal_entries else maximum_credit in
    worst_case_required - credit

unfoldable pub capacity_snapshot_sufficient : NvsCapacitySnapshot → ℕ → Bool
capacity_snapshot_sufficient snapshot required_entries =
    snapshot.query_succeeded
    && ltb 0 snapshot.total_entries
    && leb required_entries snapshot.total_entries
    && leb required_entries snapshot.free_entries

unfoldable pub data_reset_capacity_sufficient : DataResetCapacityReport → Bool
unfolding capacity_snapshot_sufficient required_after_terminal_credit required_pmconfig_entries
    required_default_entries
data_reset_capacity_sufficient report =
    capacity_snapshot_sufficient report.pmconfig
      (required_after_terminal_credit required_pmconfig_entries report.pmconfig_terminal_entries)
    && capacity_snapshot_sufficient report.default_nvs (
        required_after_terminal_credit required_default_entries report.default_nvs_terminal_entries)
