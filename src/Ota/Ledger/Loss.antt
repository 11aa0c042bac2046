-- ===== src/Ota/Ledger/Loss.antt =====
-- src/ota/OtaStageLedger.cpp: what a recorded failure leaves of the ledger.
use power_monitor_sensor.Common.{
  ℕ, ◌≡◌, refl, Bool, true, false, Option, some, List, [], ◌∷◌, ◌==◌, arith,
}
use power_monitor_sensor.Common.Texts.{Text, codes}
use power_monitor_sensor.Ota.Ledger.{
  Snapshot, new_snapshot, RetainedRecord, Ledger, Platform, bound, sequenced, entered, checksum_of,
  valid, if_valid, current, begin_boot, bind_deployment, set_evidence_sequence, record_stage,
  with_error, record_failure, reset, Boot,
}
use power_monitor_sensor.Ota.Ledger.Stages.{failure_persisted}
use power_monitor_sensor.Ota.Ledger.Survival.{Call, binding, sequencing, staging, apply, run}

module _ (representation : RetainedRecord → List ℕ) (size_of_record : ℕ) where
  if_valid-lost :
      (l : Ledger) (f : Snapshot → Snapshot)
      → valid representation size_of_record l.retained ≡ false
      → (if_valid representation size_of_record l f).retained ≡ l.retained
  unfolding if_valid
  if_valid-lost l f h = rw h refl

  apply-lost :
      (call : Call) (l : Ledger)
      → valid representation size_of_record l.retained ≡ false
      → (apply representation size_of_record call l).retained ≡ l.retained
  unfolding bind_deployment set_evidence_sequence record_stage
  apply-lost (binding deployment_id attempt evidence_sequence) l h =
      if_valid-lost (record l { runtime_evidence_sequence = evidence_sequence })
        (bound deployment_id attempt evidence_sequence) h
  apply-lost (sequencing evidence_sequence) l h =
      if_valid-lost (record l { runtime_evidence_sequence = evidence_sequence })
        (sequenced evidence_sequence) h
  apply-lost (staging entry platform) l h = if_valid-lost l (entered entry platform) h

  run-lost :
      (calls : List Call) (l : Ledger)
      → valid representation size_of_record l.retained ≡ false
      → valid representation size_of_record (run representation size_of_record calls l).retained
        ≡ false
  unfolding run
  run-lost [] l h = h
  run-lost (call ∷ calls) l h =
      run-lost calls (apply representation size_of_record call l) (rw (apply-lost call l h) h)

  prior_lost :
      (b : Boot) (p : Platform) (l : Ledger)
      → valid representation size_of_record l.retained ≡ false
      → (begin_boot representation size_of_record b p l).prior ≡ new_snapshot
  unfolding begin_boot current
  prior_lost b p l h = rw h refl

  error-lost :
      (failure_code : Option Text) (l : Ledger)
      → (l.retained.checksum
          == checksum_of representation size_of_record (with_error failure_code l).retained)
        ≡ false
      → valid representation size_of_record (with_error failure_code l).retained ≡ false
  unfolding valid with_error
  error-lost failure_code l differs = ground arith

  failure-lost :
      (failure_code : Option Text) (bytes_received image_size : ℕ) (update_open : Bool)
      (p : Platform) (l : Ledger)
      → valid representation size_of_record l.retained ≡ true
      → valid representation size_of_record (with_error failure_code l).retained ≡ false
      → (record_failure representation size_of_record failure_code bytes_received image_size
          update_open p l).retained
        ≡ (with_error failure_code l).retained
  unfolding record_failure record_stage
  failure-lost failure_code bytes_received image_size update_open p l h lost = rw h (
      if_valid-lost (with_error failure_code l)
        (entered
          (record {
            stage = failure_persisted;
            bytes_received = bytes_received;
            image_size = image_size;
            update_open = update_open;
            reboot_expected = false;
            operation_context = some (codes "ota_active");
          })
          p)
        lost)

  -- `recordFailure` loses the record: where the error changes the checksum of the memory, the record
  -- is invalid behind the call, and after any further calls and a reset the next boot finds no
  -- snapshot of the last boot, neither the failure nor any stage.
  pub record_failure_loses :
      (failure_code : Option Text) (bytes_received image_size : ℕ) (update_open : Bool)
      (p q : Platform) (l : Ledger) (calls : List Call) (b : Boot)
      → valid representation size_of_record l.retained ≡ true
      → (l.retained.checksum
          == checksum_of representation size_of_record (with_error failure_code l).retained)
        ≡ false
      → let after =
          record_failure representation size_of_record failure_code bytes_received image_size
            update_open p l in
        (valid representation size_of_record after.retained ≡ false)
        × ((begin_boot representation size_of_record b q
              (reset (run representation size_of_record calls after))).prior
            ≡ new_snapshot)
  record_failure_loses failure_code bytes_received image_size update_open p q l calls b h differs =
      let after =
        record_failure representation size_of_record failure_code bytes_received image_size
          update_open p l in
      let lost = error-lost failure_code l differs in
      let gone : valid representation size_of_record after.retained ≡ false =
        rw (failure-lost failure_code bytes_received image_size update_open p l h lost) lost in
      (
        gone,
        prior_lost b q (reset (run representation size_of_record calls after))
            (run-lost calls after gone),
      )
