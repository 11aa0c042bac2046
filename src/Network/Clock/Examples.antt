-- ===== src/Network/Clock/Examples.antt =====
-- The clock at concrete samples.
use power_monitor_sensor.Common.{ℕ, ◌≡◌, ◌↔◌, refl, true, false, [], ◌∷◌, arith}
use power_monitor_sensor.Network.Clock.{
  Sample, begin, classify_candidate, candidate_utc_ms, plausible, update,
}
use power_monitor_sensor.Network.Clock.Steps.{IsStep, AreConsistent}
use power_monitor_sensor.Network.Clock.Samples.{three_samples_exact}
use power_monitor_sensor.Network.Clock.Trust.{IsSound, update_all, update_all-IsSound}

abbrev sample_at : ℕ → ℕ → Sample
sample_at now monotonic_ms = record {
  now = now;
  completed = true;
  monotonic_ms = monotonic_ms;
  persist_check_ms = monotonic_ms;
  persist_done_ms = monotonic_ms;
  preferences_open = true;
  put_works = true;
}

-- The last trusted time is of the beginning of 2025, and the samples are of 2026.
abbrev trusted : ℕ
trusted = 1735689600000

abbrev first : Sample
first = sample_at 1768000000 1000

abbrev second : Sample
second = sample_at 1768000060 61000

abbrev third : Sample
third = sample_at 1768000120 121000

first-IsStep : IsStep 0 trusted first
unfolding classify_candidate candidate_utc_ms plausible
first-IsStep = record { is_complete = refl; is_large = refl }

second-IsStep : IsStep 0 trusted second
unfolding classify_candidate candidate_utc_ms plausible
second-IsStep = record { is_complete = refl; is_large = refl }

third-IsStep : IsStep 0 trusted third
unfolding classify_candidate candidate_utc_ms plausible
third-IsStep = record { is_complete = refl; is_large = refl }

three_samples_exact_example :
    ((update 0 (begin trusted) first).synchronized ≡ false)
    × ((update 0 (update 0 (begin trusted) first) second).synchronized ≡ false)
    × (((update 0 (update 0 (update 0 (begin trusted) first) second) third).synchronized ≡ true)
        ↔ (AreConsistent first second × AreConsistent second third))
three_samples_exact_example =
    three_samples_exact 0 (begin trusted) first second third refl first-IsStep second-IsStep
      third-IsStep

update_all-IsSound_example : IsSound (update_all 0 (begin trusted) (first ∷ second ∷ third ∷ []))
update_all-IsSound_example =
    update_all-IsSound 0 trusted (first ∷ second ∷ third ∷ [])
      (omega arith, (omega arith, (omega arith, tt)))
