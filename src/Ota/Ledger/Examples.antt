-- ===== src/Ota/Ledger/Examples.antt =====
-- The ledger over a reset, with a memory in which only the error and the last stage's bytes count.
use power_monitor_sensor.Common.{ℕ, ◌+◌, ◌≡◌, refl, true, false, none, some, List, [], ◌∷◌, u32}
use power_monitor_sensor.Common.Texts.{codes}
use power_monitor_sensor.Ota.Ledger.{
  new_snapshot, RetainedRecord, Ledger, Platform, Entry, Boot, headed, valid, commit, current,
  begin_boot, with_error, record_failure, reset,
}
use power_monitor_sensor.Ota.Ledger.Stages.{update_begin_completed}
use power_monitor_sensor.Ota.Ledger.Survival.{
  Call, sequencing, staging, changed, run, stages_survive,
}
use power_monitor_sensor.Ota.Ledger.Loss.{record_failure_loses}

abbrev memory : RetainedRecord → List ℕ
memory r = r.snapshot.bytes_received ∷ r.snapshot.last_error

abbrev platform : Platform
platform = record {
  millis = 5000;
  free_internal = 90000;
  largest_internal = 40000;
  free_psram = 4000000;
  stack_high_water = 2048;
  task = some (codes "ota");
  running = some (codes "ota_0");
  target = some (codes "ota_1");
}

abbrev boot_of : ℕ → Boot
boot_of count = record {
  boot_id = some (codes "b");
  firmware_version = some (codes "1.2.3");
  build_hash = none;
  boot_count = count;
  reset_reason_code = 1;
}

abbrev blank : Ledger
blank = record {
  retained = record { magic = 0; version = 0; size = 0; checksum = 0; snapshot = new_snapshot };
  prior = new_snapshot;
  runtime_evidence_sequence = 0;
}

abbrev entry : Entry
entry = record {
  stage = update_begin_completed;
  bytes_received = 100;
  image_size = 5000;
  update_open = true;
  reboot_expected = false;
  operation_context = none;
}

abbrev calls : List Call
calls = sequencing 7 ∷ staging entry platform ∷ []

unfoldable started : Ledger
unfolding begin_boot
started = begin_boot memory 500 (boot_of 1) platform blank

stages_survive_example :
    let next = begin_boot memory 500 (boot_of 2) platform (reset (run memory 500 calls started)) in
    (next.prior ≡ changed calls started.retained.snapshot)
    × (next.retained.snapshot.sequence ≡ u32 (next.prior.sequence + 1))
unfolding started begin_boot
stages_survive_example =
    stages_survive memory 500 (boot_of 1) (boot_of 2) platform platform calls blank

started_valid : valid memory 500 started.retained ≡ true
unfolding valid headed begin_boot commit current started
started_valid = refl

record_failure_loses_example :
    let after =
      record_failure memory 500 (some (codes "ota_hash_mismatch")) 100 5000 true platform started in
    (valid memory 500 after.retained ≡ false)
    × ((begin_boot memory 500 (boot_of 2) platform (reset (run memory 500 calls after))).prior
        ≡ new_snapshot)
unfolding started with_error
record_failure_loses_example =
    record_failure_loses memory 500 (some (codes "ota_hash_mismatch")) 100 5000 true platform
      platform started calls (boot_of 2) started_valid refl
