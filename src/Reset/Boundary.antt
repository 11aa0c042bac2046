-- ===== src/Reset/Boundary.antt =====
-- src/reset/DataResetPolicy.cpp, highestTrustedBoundary: the sequence boundary that a reset may use.
use power_monitor_sensor.Common.{
  ℕ, ◌+◌, ◌-◌, ◌≤◌, ◌≡◌, Bool, true, false, not, arith, ltb, ◌==◌, max, u64, if◌then◌else◌,
}

abbrev pub maximum_reset_boundary : ℕ
maximum_reset_boundary = 9_223_372_036_854_775_805

pub record BoundaryInputs : Type 0 where
  pub expected_boundary : ℕ
  pub server_highest_contiguous : ℕ
  pub server_maximum_seen : ℕ
  pub local_sequence_floor : ℕ
  pub next_sequence : ℕ
  pub newest_stored_sequence : ℕ
  pub newest_syncable_sequence : ℕ
  pub sensor_server_acknowledgement : ℕ
  pub sensor_maximum_seen : ℕ
  pub prepared_removal_floor : ℕ

pub record BoundaryResult : Type 0 where
  pub valid : Bool
  pub boundary : ℕ
  pub next_sequence : ℕ

-- The running maximum, before the test against the limit.
unfoldable pub trusted_maximum : BoundaryInputs → ℕ
trusted_maximum inputs =
    let b0 = inputs.expected_boundary in
    let b1 = max b0 inputs.server_highest_contiguous in
    let b2 = max b1 inputs.server_maximum_seen in
    let b3 = max b2 inputs.local_sequence_floor in
    let b4 = if not (inputs.next_sequence == 0) then max b3 (inputs.next_sequence - 1) else b3 in
    let b5 = max b4 inputs.newest_stored_sequence in
    let b6 = max b5 inputs.newest_syncable_sequence in
    let b7 = max b6 inputs.sensor_server_acknowledgement in
    let b8 = max b7 inputs.sensor_maximum_seen in max b8 inputs.prepared_removal_floor

unfoldable pub highest_trusted_boundary : BoundaryInputs → BoundaryResult
highest_trusted_boundary inputs =
    let boundary = trusted_maximum inputs in
    if ltb maximum_reset_boundary boundary
    then record { valid = false; boundary = 0; next_sequence = 0 }
    else record { valid = true; boundary = boundary; next_sequence = u64 (boundary + 1) }

-- `b` lies at or above every sequence number that the inputs carry.
pub record Covers (inputs : BoundaryInputs) (b : ℕ) : Type 0 where
  pub expected : inputs.expected_boundary ≤ b
  pub contiguous : inputs.server_highest_contiguous ≤ b
  pub server_seen : inputs.server_maximum_seen ≤ b
  pub floor : inputs.local_sequence_floor ≤ b
  pub assigned : inputs.next_sequence ≤ b + 1
  pub stored : inputs.newest_stored_sequence ≤ b
  pub syncable : inputs.newest_syncable_sequence ≤ b
  pub acknowledged : inputs.sensor_server_acknowledgement ≤ b
  pub sensor_seen : inputs.sensor_maximum_seen ≤ b
  pub removed : inputs.prepared_removal_floor ≤ b

trusted_maximum-Covers : (inputs : BoundaryInputs) → Covers inputs (trusted_maximum inputs)
unfolding trusted_maximum
trusted_maximum-Covers inputs = ground arith

trusted_maximum_least :
    (inputs : BoundaryInputs) (b : ℕ) → Covers inputs b → trusted_maximum inputs ≤ b
unfolding trusted_maximum
trusted_maximum_least inputs b c = ground arith

-- A valid result covers the inputs within the limit, and its successor does not wrap.
pub valid-Covers :
    (inputs : BoundaryInputs)
    → (highest_trusted_boundary inputs).valid ≡ true
    → Covers inputs (highest_trusted_boundary inputs).boundary
      × ((highest_trusted_boundary inputs).boundary ≤ maximum_reset_boundary)
      × ((highest_trusted_boundary inputs).next_sequence
          ≡ (highest_trusted_boundary inputs).boundary + 1)
unfolding highest_trusted_boundary
valid-Covers inputs h = (ground (arith, trusted_maximum-Covers inputs), ground arith, ground arith)

-- If some number within the limit covers every sequence number of the inputs, then
-- `highest_trusted_boundary` gives a valid result, which covers them too, is no greater than that
-- number, and has its successor as the next sequence, without wrapping.
pub highest_trusted_boundary_least :
    (inputs : BoundaryInputs) (b : ℕ)
    → Covers inputs b
    → b ≤ maximum_reset_boundary
    → ((highest_trusted_boundary inputs).valid ≡ true)
      × Covers inputs (highest_trusted_boundary inputs).boundary
      × ((highest_trusted_boundary inputs).boundary ≤ b)
      × ((highest_trusted_boundary inputs).next_sequence
          ≡ (highest_trusted_boundary inputs).boundary + 1)
unfolding highest_trusted_boundary
highest_trusted_boundary_least inputs b c m =
    let least = trusted_maximum_least inputs b c in
    (ground arith, ground (arith, trusted_maximum-Covers inputs), ground arith, ground arith)
