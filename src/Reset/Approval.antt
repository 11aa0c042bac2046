-- ===== src/Reset/Approval.antt =====
-- src/reset/DataResetCoordinator.cpp: the records that an accepted commit request leads to, the
-- latched intent (requestCommit) and the authorized commit (processPendingCommit).
pub mod Accepted
pub mod Ready
use power_monitor_sensor.Common.{ℕ, ◌+◌, Bool, true, false, [], u64, ◌%◌, ◌^◌}
use power_monitor_sensor.Reset.State.{committing, commit_authorized}
use power_monitor_sensor.Reset.Record.{Record, CommitRequest}

unfoldable pub latched : Record → CommitRequest → Record
latched r request = record r {
  approved_boundary_set = true;
  approved_boundary = request.approved_boundary;
  new_sequence_floor = request.approved_boundary;
  new_next_sequence = u64 (request.approved_boundary + 1);
  failure_code = [];
}

-- `raw_energy_wh` is the meter's counter, and `energy_offset_wh` the configured offset.
unfoldable pub authorized : Record → CommitRequest → ℕ → ℕ → Record
authorized r request raw_energy_wh energy_offset_wh = record r {
  state = committing;
  checkpoint = commit_authorized;
  approved_boundary_set = true;
  approved_boundary = request.approved_boundary;
  new_sequence_floor = request.approved_boundary;
  new_next_sequence = u64 (request.approved_boundary + 1);
  commit_energy_baseline_set = true;
  commit_pzem_energy_wh = raw_energy_wh;
  application_energy_baseline_wh = u64 (energy_offset_wh + raw_energy_wh);
  failure_code = [];
}
