-- ===== src/Reset/Admission/Examples.antt =====
-- A reading task that loses the race with a reset.
use power_monitor_sensor.Common.{◌≡◌, refl, true, false, [], ◌∷◌, arith}
use power_monitor_sensor.Reset.Admission.{
  reset, reader_step, checked, counted, away, claim_reset_admission, reset_admission_active, System,
  read, claim, attest, Reach, start, later, boot,
}
use power_monitor_sensor.Reset.Admission.Safety.{
  total, holds, counts, attested_alone, in_flight_exact,
}

-- The task passes its first test, the reset claims admission and sees no reader, and then the task
-- counts itself.
abbrev late : System
late = record {
  shared = record { owner = reset; in_flight = 1 };
  readers = counted ∷ [];
  attested = true;
}

late_reached : Reach 1 late
unfolding reader_step claim_reset_admission reset_admission_active
late_reached =
    later
      (later (later (later start (read false (boot 1) [] away [] refl)) (claim _))
        (attest _ refl refl))
      (read false _ [] checked [] refl)

attested_alone_example : (late.shared.owner ≡ reset) × (total holds late.readers ≡ 0)
attested_alone_example = attested_alone (omega arith) late_reached refl

in_flight_exact_example : 1 ≡ total counts (counted ∷ [])
in_flight_exact_example = in_flight_exact (omega arith) late_reached
