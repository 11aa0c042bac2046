-- ===== src/Reset/Capacity/Exact.antt =====
-- src/reset/DataResetCapacityPolicy.h: what an accepted capacity leaves.
use power_monitor_sensor.Common.{ℕ, ◌+◌, ◌≤◌, ◌≡◌, ◌↔◌, refl, true, arith, &&-eq-true}
use power_monitor_sensor.Reset.Capacity.{
  atomic_slot_entries, required_pmconfig_entries, required_default_entries, NvsCapacitySnapshot,
  DataResetCapacityReport, required_after_terminal_credit, capacity_snapshot_sufficient,
  data_reset_capacity_sufficient,
}

-- A partition of `available` entries takes all that a reset writes in the worst case, where the
-- terminal records are overwritten, and a page for the garbage collection and a margin are left free
-- without them.
abbrev pub Takes : ℕ → ℕ → ℕ → Type 0
Takes worst_case terminal available = (worst_case ≤ available + terminal) × (126 + 32 ≤ available)

abbrev pub HasCapacity : ℕ → ℕ → NvsCapacitySnapshot → Type 0
HasCapacity worst_case terminal snapshot =
    (snapshot.query_succeeded ≡ true)
    × Takes worst_case terminal snapshot.total_entries
    × Takes worst_case terminal snapshot.free_entries

snapshot_exact :
    (worst_case terminal : ℕ) (snapshot : NvsCapacitySnapshot)
    → 126 + 32 ≤ worst_case
    → (capacity_snapshot_sufficient snapshot (required_after_terminal_credit worst_case terminal)
        ≡ true)
      ↔ HasCapacity worst_case terminal snapshot
unfolding capacity_snapshot_sufficient required_after_terminal_credit
snapshot_exact worst_case terminal snapshot h = ground arith

-- A capacity is accepted exactly where both partitions were queried and each takes the worst case of
-- a reset, 622 entries of the configuration and 778 of the default partition, with its terminal records
-- overwritten, in its free and in its total entries, and keeps a page of 126 entries for the garbage
-- collection and a margin of 32 without that credit.
pub capacity_sufficient_exact :
    (report : DataResetCapacityReport)
    → (data_reset_capacity_sufficient report ≡ true) ↔ (
        HasCapacity 622 report.pmconfig_terminal_entries report.pmconfig
        × HasCapacity 778 report.default_nvs_terminal_entries report.default_nvs)
unfolding data_reset_capacity_sufficient required_pmconfig_entries required_default_entries
    atomic_slot_entries
capacity_sufficient_exact report =
    let first = snapshot_exact 622 report.pmconfig_terminal_entries report.pmconfig (omega arith) in
    let second =
      snapshot_exact 778 report.default_nvs_terminal_entries report.default_nvs (omega arith) in
    let left =
      capacity_snapshot_sufficient report.pmconfig
        (required_after_terminal_credit 622 report.pmconfig_terminal_entries) in
    let right =
      capacity_snapshot_sufficient report.default_nvs
        (required_after_terminal_credit 778 report.default_nvs_terminal_entries) in
    (
      λ h. let (l, r) = &&-eq-true left right h in (first.0 l, second.0 r),
      λ h. rw (first.1 h.0, second.1 h.1) refl,
    )
