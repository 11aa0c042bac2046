-- ===== src/Ota/Ledger/Survival.antt =====
-- src/ota/OtaStageLedger.cpp: what a reset leaves of the recorded stages.
use power_monitor_sensor.Common.{
  ℕ, ◌+◌, ◌≡◌, refl, ◌∙◌, true, Option, List, [], ◌∷◌, ◌==◌, u32, arith, &&-eq-true,
}
use power_monitor_sensor.Common.Texts.{Text}
use power_monitor_sensor.Ota.Ledger.{
  Snapshot, RetainedRecord, Ledger, Platform, Entry, bound, sequenced, entered, checksum_of, headed,
  valid, commit, if_valid, current, begin_boot, bind_deployment, set_evidence_sequence,
  record_stage, reset, Boot, booted,
}

-- The calls between two boots but `recordFailure`.
pub data Call : Type 0 where
  binding : Option Text → ℕ → ℕ → Call
  sequencing : ℕ → Call
  staging : Entry → Platform → Call

abbrev pub change : Call → Snapshot → Snapshot
change (binding deployment_id attempt evidence_sequence) s =
    bound deployment_id attempt evidence_sequence s
change (sequencing evidence_sequence) s = sequenced evidence_sequence s
change (staging entry platform) s = entered entry platform s

-- All changes, with no test of the memory.
abbrev pub changed : List Call → Snapshot → Snapshot
changed [] s = s
changed (call ∷ calls) s = changed calls (change call s)

same_number : (n : ℕ) → (n == n) ≡ true
same_number n = ground arith

module _ (representation : RetainedRecord → List ℕ) (size_of_record : ℕ) where
  abbrev pub apply : Call → Ledger → Ledger
  apply (binding deployment_id attempt evidence_sequence) l =
      bind_deployment representation size_of_record deployment_id attempt evidence_sequence l
  apply (sequencing evidence_sequence) l =
      set_evidence_sequence representation size_of_record evidence_sequence l
  apply (staging entry platform) l = record_stage representation size_of_record entry platform l

  unfoldable pub run : List Call → Ledger → Ledger
  run [] l = l
  run (call ∷ calls) l = run calls (apply call l)

  valid_headed :
      (r : RetainedRecord)
      → valid representation size_of_record r ≡ true
      → headed size_of_record r ≡ true
  unfolding valid
  valid_headed r h =
      (&&-eq-true (headed size_of_record r)
        (r.checksum == checksum_of representation size_of_record r) h).0

  commit-IsValid :
      (r : RetainedRecord)
      → headed size_of_record r ≡ true
      → valid representation size_of_record (commit representation size_of_record r) ≡ true
  unfolding valid commit headed
  commit-IsValid r h = rw (h, same_number (checksum_of representation size_of_record r)) refl

  if_valid-kept :
      (l : Ledger) (f : Snapshot → Snapshot)
      → valid representation size_of_record l.retained ≡ true
      → (valid representation size_of_record (if_valid representation size_of_record l f).retained
          ≡ true)
        × ((if_valid representation size_of_record l f).retained.snapshot ≡ f l.retained.snapshot)
  unfolding if_valid commit headed
  if_valid-kept l f h =
      let head = valid_headed l.retained h in
      rw h (commit-IsValid (record l.retained { snapshot = f l.retained.snapshot }) head, refl)

  apply-kept :
      (call : Call) (l : Ledger)
      → valid representation size_of_record l.retained ≡ true
      → (valid representation size_of_record (apply call l).retained ≡ true)
        × ((apply call l).retained.snapshot ≡ change call l.retained.snapshot)
  unfolding bind_deployment set_evidence_sequence record_stage
  apply-kept (binding deployment_id attempt evidence_sequence) l h =
      if_valid-kept (record l { runtime_evidence_sequence = evidence_sequence })
        (bound deployment_id attempt evidence_sequence) h
  apply-kept (sequencing evidence_sequence) l h =
      if_valid-kept (record l { runtime_evidence_sequence = evidence_sequence })
        (sequenced evidence_sequence) h
  apply-kept (staging entry platform) l h = if_valid-kept l (entered entry platform) h

  run-kept :
      (calls : List Call) (l : Ledger)
      → valid representation size_of_record l.retained ≡ true
      → (valid representation size_of_record (run calls l).retained ≡ true)
        × ((run calls l).retained.snapshot ≡ changed calls l.retained.snapshot)
  unfolding run
  run-kept [] l h = (h, refl)
  run-kept (call ∷ calls) l h =
      let (again, same) = apply-kept call l h in
      let (valid_then, whole) = run-kept calls (apply call l) again in
      (valid_then, rw (← same) whole)

  begin_boot-valid :
      (b : Boot) (p : Platform) (l : Ledger)
      → valid representation size_of_record
          (begin_boot representation size_of_record b p l).retained
        ≡ true
  unfolding begin_boot headed
  begin_boot-valid b p l =
      commit-IsValid (booted size_of_record b p (current representation size_of_record l))
        (rw (same_number size_of_record) refl)

  prior_of :
      (b : Boot) (p : Platform) (l : Ledger)
      → valid representation size_of_record l.retained ≡ true
      → (begin_boot representation size_of_record b p l).prior ≡ l.retained.snapshot
  unfolding begin_boot current
  prior_of b p l h = rw h refl

  -- The stages survive a reset: after a boot with any memory, any calls but `recordFailure`, and a
  -- reset, the next boot finds as the snapshot of the last boot all that those calls wrote, each one
  -- on top of the ones before, and goes on with the next number.
  pub stages_survive :
      (first second : Boot) (p q : Platform) (calls : List Call) (l : Ledger)
      → let start = begin_boot representation size_of_record first p l in
        let next = begin_boot representation size_of_record second q (reset (run calls start)) in
        (next.prior ≡ changed calls start.retained.snapshot)
        × (next.retained.snapshot.sequence ≡ u32 (next.prior.sequence + 1))
  unfolding begin_boot
  stages_survive first second p q calls l =
      let start = begin_boot representation size_of_record first p l in
      let (valid_then, same) = run-kept calls start (begin_boot-valid first p l) in
      let found = prior_of second q (reset (run calls start)) valid_then in (found ∙ same, refl)
