-- ===== src/Reset/Approval/Accepted.antt =====
-- src/reset/DataResetPolicy.cpp: an accepted commit request and the record latched for it.
use power_monitor_sensor.Common.{◌≡◌, true, arith}
use power_monitor_sensor.Common.Texts.{text_eq_refl}
use power_monitor_sensor.Reset.State.{
  State, Checkpoint, prepared, none_yet, can_transition, can_advance_checkpoint,
}
use power_monitor_sensor.Reset.Boundary.{valid-Covers, Covers}
use power_monitor_sensor.Reset.Record.{
  CommitRequest, Record, boundary_inputs, prepared_evidence_equal,
}
use power_monitor_sensor.Reset.Validity.{valid_record}
use power_monitor_sensor.Reset.Request.{
  accept, replay, commit_identity_wrong, classify_commit_request,
}
use power_monitor_sensor.Reset.Update.{valid_record_update, keeps_record, keeps_results}
use power_monitor_sensor.Reset.Approval.{latched}
use power_monitor_sensor.Reset.Approval.Ready.{
  prepare_requests_equal_refl, prepared_evidence_equal_refl, Acceptance, latched-Parts,
  valid_of_Parts, latched_preauthorized, safe_empty, Ready, accept-Ready,
}

latched_valid : (r : Record) (q : CommitRequest) → Ready r q → valid_record (latched r q) ≡ true
unfolding latched
latched_valid r q ready =
    valid_of_Parts (latched r q) (latched-Parts r q ready.parts) ready.is_prepared acc.before
      safe_empty
      (latched_preauthorized r q ready.is_prepared ready.start ready.clean acc.required acc.enough
        ready.bounded)
  where
    acc : Acceptance r q
    acc = ready.acceptance

latched_same_evidence :
    (r : Record) (q : CommitRequest) → prepared_evidence_equal r (latched r q) ≡ true
unfolding latched prepared_evidence_equal
latched_same_evidence r q = unfold prepared_evidence_equal in prepared_evidence_equal_refl r

prepared_stays :
    (s : State) (c : Checkpoint)
    → s ≡ prepared
    → c ≡ none_yet
    → (can_transition s s c ≡ true) × (can_advance_checkpoint c c ≡ true)
unfolding can_transition can_advance_checkpoint
prepared_stays s c p n = ground arith

latched-keeps_record :
    (r : Record) (q : CommitRequest) → Ready r q → keeps_record r (latched r q) ≡ true
unfolding keeps_record
latched-keeps_record r q ready =
    unfold latched in ground (arith, latched_same_evidence r q, ready.acceptance.before)

latched-keeps_results : (r : Record) (q : CommitRequest) → keeps_results r (latched r q) ≡ true
unfolding latched keeps_results
latched-keeps_results r q = ground (
  arith,
  text_eq_refl r.configuration_digest_after,
  text_eq_refl r.completion_receipt,
  text_eq_refl r.completion_timestamp,
)

latched_update :
    (r : Record) (q : CommitRequest)
    → valid_record r ≡ true
    → Ready r q
    → valid_record_update r (latched r q) ≡ true
unfolding valid_record_update latched
latched_update r q v ready = ground (
  arith,
  latched_valid r q ready,
  latched-keeps_record r q ready,
  latched-keeps_results r q,
  text_eq_refl r.prepare.operation_id,
  prepare_requests_equal_refl r.prepare,
  prepared_stays r.state r.checkpoint ready.is_prepared ready.start,
)

latched-replay :
    (r : Record) (q : CommitRequest) → Ready r q → classify_commit_request (latched r q) q ≡ replay
unfolding classify_commit_request latched commit_identity_wrong boundary_inputs
latched-replay r q ready = ground (arith, ready.acceptance)

accepted-Covers :
    (r : Record) (q : CommitRequest) → Ready r q → Covers (boundary_inputs r) q.approved_boundary
accepted-Covers r q ready =
    ground
      (arith, valid-Covers (boundary_inputs r) ready.acceptance.required, ready.acceptance.enough)

-- If a valid record's commit request is accepted, then the approved boundary covers every sequence
-- number that the record carries, the store accepts the latched record as the next one, and the same
-- request sent again is a replay.
pub commit_acceptance :
    (r : Record) (q : CommitRequest)
    → valid_record r ≡ true
    → classify_commit_request r q ≡ accept
    → Covers (boundary_inputs r) q.approved_boundary
      × (valid_record_update r (latched r q) ≡ true)
      × (classify_commit_request (latched r q) q ≡ replay)
commit_acceptance r q v a =
    let ready = accept-Ready r q v a in
    (accepted-Covers r q ready, latched_update r q v ready, latched-replay r q ready)
