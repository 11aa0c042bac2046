-- ===== src/Network/Clock/Steps.antt =====
-- src/network/ClockPolicy.h: samples that are a step of the time, and their consistency.
use power_monitor_sensor.Common.{
  ltb, ℕ, ◌+◌, ◌≤◌, ◌≡◌, ◌↔◌, Bool, true, arith, Bool-cases, inl, inr,
}
use power_monitor_sensor.Network.Clock.{
  require_confirmation, classify_candidate, candidates_consistent, Sample, candidate_utc_ms,
}

-- A completed sample that is too far from the last trusted time to be taken at once.
pub record IsStep (build_utc_ms trusted : ℕ) (sample : Sample) : Type 0 where
  pub is_complete : sample.completed ≡ true
  pub is_large :
      classify_candidate (candidate_utc_ms sample) trusted build_utc_ms ≡ require_confirmation

abbrev pub consistent : Sample → Sample → Bool
consistent first second =
    candidates_consistent (candidate_utc_ms first) first.monotonic_ms (candidate_utc_ms second)
      second.monotonic_ms

-- Neither clock goes back from the first sample to the second, and what passes on the two differs by
-- at most five minutes.
abbrev pub AreConsistent : Sample → Sample → Type 0
AreConsistent first second =
    (candidate_utc_ms first ≤ candidate_utc_ms second)
    × (first.monotonic_ms ≤ second.monotonic_ms)
    × (candidate_utc_ms second + first.monotonic_ms
        ≤ candidate_utc_ms first + second.monotonic_ms + 300000)
    × (candidate_utc_ms first + second.monotonic_ms
        ≤ candidate_utc_ms second + first.monotonic_ms + 300000)

pub step_minimum :
    (build_utc_ms trusted : ℕ) (sample : Sample)
    → IsStep build_utc_ms trusted sample
    → 1 ≤ candidate_utc_ms sample
unfolding classify_candidate
step_minimum build_utc_ms trusted sample s =
    elim (Bool-cases (ltb (candidate_utc_ms sample) 1704067200000)) [
      | inl early ↦ let wrong = (rw early at s.is_large) in cc
      | inr late ↦ ground arith
    ]

pub consistent_exact :
    (first second : Sample)
    → 1 ≤ candidate_utc_ms first
    → (consistent first second ≡ true) ↔ AreConsistent first second
unfolding candidates_consistent
consistent_exact first second h = ground arith
