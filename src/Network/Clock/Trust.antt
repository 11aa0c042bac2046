-- ===== src/Network/Clock/Trust.antt =====
-- src/network/ClockService.cpp: what holds of the clock at any time.
use power_monitor_sensor.Common.{
  ℕ, ◌*◌, ◌^◌, ◌≤◌, ◌<◌, ◌≡◌, Bool, true, false, List, [], ◌∷◌, arith, All,
}
use power_monitor_sensor.Network.Clock.{
  CandidateDisposition, accept, require_confirmation, reject_implausible, minimum_utc_ms,
  classify_candidate, ClockService, Sample, begin, plausible, confirming, accepting, revoking,
  confirmed, classified, persisting, publishing, update, candidate_utc_ms, sampled,
}

unfoldable pub update_all : ℕ → ClockService → List Sample → ClockService
unfolding update
update_all build_utc_ms c [] = c
update_all build_utc_ms c (sample ∷ samples) =
    update_all build_utc_ms (update build_utc_ms c sample) samples

-- The milliseconds of the system time fit into their word.
abbrev pub InWord : Sample → Type 0
InWord sample = sample.now * 1000 < 2 ^ 64

-- Fewer than three candidates are pending, and a published trust rests on a confirmation and a
-- plausible time.
pub record IsSound (c : ClockService) : Type 0 where
  pub pending_in : c.pending_candidate_count ≤ 2
  pub trust_in :
      c.synchronized ≡ true → (c.sntp_confirmed ≡ true) × (minimum_utc_ms ≤ c.last_trusted_utc_ms)

abbrev pub FewPending : ClockService → Type 0
FewPending c = c.pending_candidate_count ≤ 2

confirmed_few : (c : ClockService) (sample : Sample) → FewPending (confirmed c sample)
unfolding confirmed accepting revoking
confirmed_few c sample = ground arith

classified_few :
    (d : CandidateDisposition) (c : ClockService) (sample : Sample)
    → FewPending c
    → FewPending (classified d c sample)
unfolding classified accepting revoking
classified_few accept c sample h = ground arith
classified_few require_confirmation c sample h = confirmed_few (confirming c sample) sample
classified_few reject_implausible c sample h = h

publishing-IsSound :
    (c : ClockService) (sample : Sample)
    → InWord sample
    → FewPending c
    → IsSound (publishing c sample)
unfolding publishing persisting plausible
publishing-IsSound c sample w h = record { pending_in = ground arith; trust_in = ground arith }

sampled_few :
    (build_utc_ms : ℕ) (completed : Bool) (c : ClockService) (sample : Sample)
    → FewPending c
    → FewPending (sampled build_utc_ms completed c sample)
unfolding sampled
sampled_few build_utc_ms false c sample h = h
sampled_few build_utc_ms true c sample h =
    classified_few (classify_candidate (candidate_utc_ms sample) c.last_trusted_utc_ms build_utc_ms)
      c sample h

update-IsSound :
    (build_utc_ms : ℕ) (c : ClockService) (sample : Sample)
    → InWord sample
    → IsSound c
    → IsSound (update build_utc_ms c sample)
unfolding update
update-IsSound build_utc_ms c sample w s =
    publishing-IsSound (sampled build_utc_ms sample.completed c sample) sample w
      (sampled_few build_utc_ms sample.completed c sample s.pending_in)

run-IsSound :
    (build_utc_ms : ℕ) (samples : List Sample) (c : ClockService)
    → All InWord samples
    → IsSound c
    → IsSound (update_all build_utc_ms c samples)
unfolding update_all
run-IsSound build_utc_ms [] c w s = s
run-IsSound build_utc_ms (sample ∷ samples) c (now, later) s =
    run-IsSound build_utc_ms samples (update build_utc_ms c sample) later
      (update-IsSound build_utc_ms c sample now s)

-- After `begin`, with any persisted time, and any updates whose milliseconds fit into their word,
-- fewer than three candidates are pending, so their counter of a byte does not wrap; and where the
-- clock is synchronized, a completion of SNTP is confirmed and the last trusted time is of 2024 or
-- later.
pub update_all-IsSound :
    (build_utc_ms persisted : ℕ) (samples : List Sample)
    → All InWord samples
    → IsSound (update_all build_utc_ms (begin persisted) samples)
update_all-IsSound build_utc_ms persisted samples w =
    run-IsSound build_utc_ms samples (begin persisted) w
      (record { pending_in = omega arith; trust_in = λ wrong. cc })
