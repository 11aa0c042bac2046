-- ===== src/Reset/Approval/Ready.antt =====
-- src/reset/DataResetPolicy.cpp: what is known of a record whose commit request is accepted.
use power_monitor_sensor.Common.{◌≤◌, ◌≡◌, refl, true, false, ◌&&◌, [], arith, ◌==◌, ◌∙◌}
use power_monitor_sensor.Common.Texts.{text_eq_refl, texts_eq_refl}
use power_monitor_sensor.Reset.State.{
  Checkpoint, prepared, none_yet, is_checkpoint, valid_state_checkpoint, commit_point_reached,
}
use power_monitor_sensor.Reset.Boundary.{highest_trusted_boundary, maximum_reset_boundary}
use power_monitor_sensor.Reset.Format.{safe_failure_code}
use power_monitor_sensor.Reset.Record.{
  PrepareRequest, CommitRequest, Record, boundary_inputs, prepare_requests_equal,
  prepared_evidence_present, prepared_evidence_equal,
}
use power_monitor_sensor.Reset.Validity.Evidence.{
  valid_prepared_evidence, prepared_format_wrong, prepared_identity_wrong, drain_wrong,
  drain_range_wrong, drain_absent_wrong, no_results, no_commit_evidence,
  valid_preauthorization_evidence,
}
use power_monitor_sensor.Reset.Validity.{
  valid_record, valid_prepare_request, valid_commit_request, pause_wrong, digest_after_wrong,
  completion_right, needs_prepared,
}
use power_monitor_sensor.Reset.Request.{accept, commit_identity_wrong, classify_commit_request}
use power_monitor_sensor.Reset.Approval.{latched}

pub prepare_requests_equal_refl : (p : PrepareRequest) → prepare_requests_equal p p ≡ true
unfolding prepare_requests_equal
prepare_requests_equal_refl p = ground (
  arith,
  text_eq_refl p.protocol,
  text_eq_refl p.operation_id,
  text_eq_refl p.device_id,
  text_eq_refl p.reset_timestamp,
  text_eq_refl p.plan_digest,
  texts_eq_refl p.categories,
  text_eq_refl p.expected_firmware_version,
  text_eq_refl p.expected_build_hash,
)

pub prepared_evidence_equal_refl : (r : Record) → prepared_evidence_equal r r ≡ true
unfolding prepared_evidence_equal
prepared_evidence_equal_refl r = ground (
  arith,
  text_eq_refl r.prepared_firmware_version,
  text_eq_refl r.prepared_build_hash,
  text_eq_refl r.prepared_boot_id,
  text_eq_refl r.sd_status,
  text_eq_refl r.configuration_digest_before,
  text_eq_refl r.prepared_receipt,
  text_eq_refl r.prepared_receipt_digest,
)

-- The tests that a prepared or committing record with its evidence has passed.
pub record Parts (r : Record) : Type 0 where
  pub schema : (r.schema_version == 1) ≡ true
  pub request : valid_prepare_request r.prepare ≡ true
  pub position : valid_state_checkpoint r.state r.checkpoint ≡ true
  pub present : prepared_evidence_present r ≡ true
  pub evidence : valid_prepared_evidence r ≡ true
  pub pause : pause_wrong r ≡ false
  pub digest : digest_after_wrong r ≡ false
  pub completion : completion_right r ≡ true

valid_record-Parts : (r : Record) → valid_record r ≡ true → r.state ≡ prepared → Parts r
unfolding valid_record needs_prepared
valid_record-Parts r v p = ground arith

valid_record-preauthorized :
    (r : Record)
    → valid_record r ≡ true
    → commit_point_reached r.checkpoint ≡ false
    → valid_preauthorization_evidence r ≡ true
unfolding valid_record
valid_record-preauthorized r v p = ground arith

-- What acceptance of a request comes to, whatever the record.
pub record Acceptance (r : Record) (request : CommitRequest) : Type 0 where
  pub is_prepared : r.state ≡ prepared
  pub before : commit_point_reached r.checkpoint ≡ false
  pub unapproved : (is_checkpoint r.checkpoint none_yet && r.approved_boundary_set) ≡ false
  pub required : (highest_trusted_boundary (boundary_inputs r)).valid ≡ true
  pub enough : (highest_trusted_boundary (boundary_inputs r)).boundary ≤ request.approved_boundary
  pub request_valid : valid_commit_request request ≡ true
  pub current : r.prepare.target_generation ≤ request.target_generation
  pub identity : commit_identity_wrong r request ≡ false

accept-Acceptance :
    (r : Record) (request : CommitRequest)
    → classify_commit_request r request ≡ accept
    → Acceptance r request
unfolding classify_commit_request
accept-Acceptance r request a = ground arith

request_bounded :
    (request : CommitRequest)
    → valid_commit_request request ≡ true
    → request.approved_boundary ≤ maximum_reset_boundary
unfolding valid_commit_request
request_bounded request v = ground arith

start_of_prepared : (c : Checkpoint) → valid_state_checkpoint prepared c ≡ true → c ≡ none_yet
unfolding valid_state_checkpoint
start_of_prepared c h = ground arith

clean_before :
    (r : Record)
    → r.approved_boundary_set ≡ false
    → valid_preauthorization_evidence r ≡ true
    → no_results r ≡ true
unfolding valid_preauthorization_evidence no_commit_evidence
clean_before r u v = ground arith

-- The fields that neither operation touches.
latched_evidence :
    (r : Record) (q : CommitRequest)
    → valid_prepared_evidence (latched r q) ≡ valid_prepared_evidence r
unfolding latched valid_prepared_evidence prepared_format_wrong prepared_identity_wrong drain_wrong
    drain_range_wrong drain_absent_wrong
latched_evidence r q = refl

pub latched-Parts : (r : Record) (q : CommitRequest) → Parts r → Parts (latched r q)
unfolding latched prepared_evidence_present pause_wrong digest_after_wrong completion_right
latched-Parts r q p = record {
  schema = p.schema;
  request = p.request;
  position = p.position;
  present = p.present;
  evidence = latched_evidence r q ∙ p.evidence;
  pause = p.pause;
  digest = p.digest;
  completion = p.completion;
}

-- Back from the tests to validity.
pub valid_of_Parts :
    (r : Record)
    → Parts r
    → r.state ≡ prepared
    → commit_point_reached r.checkpoint ≡ false
    → safe_failure_code r.failure_code ≡ true
    → valid_preauthorization_evidence r ≡ true
    → valid_record r ≡ true
unfolding valid_record needs_prepared
valid_of_Parts r p s c f e = ground arith

pub latched_preauthorized :
    (r : Record) (q : CommitRequest)
    → r.state ≡ prepared
    → r.checkpoint ≡ none_yet
    → no_results r ≡ true
    → (highest_trusted_boundary (boundary_inputs r)).valid ≡ true
    → (highest_trusted_boundary (boundary_inputs r)).boundary ≤ q.approved_boundary
    → q.approved_boundary ≤ maximum_reset_boundary
    → valid_preauthorization_evidence (latched r q) ≡ true
unfolding latched valid_preauthorization_evidence no_results boundary_inputs
latched_preauthorized r q s c n v e b = ground arith

pub safe_empty : safe_failure_code [] ≡ true
unfolding safe_failure_code
safe_empty = refl

at_start :
    (r : Record)
    → r.state ≡ prepared
    → valid_state_checkpoint r.state r.checkpoint ≡ true
    → r.checkpoint ≡ none_yet
at_start r s p = start_of_prepared r.checkpoint (rw s at p)

unset_of :
    (r : Record)
    → r.checkpoint ≡ none_yet
    → (is_checkpoint r.checkpoint none_yet && r.approved_boundary_set) ≡ false
    → r.approved_boundary_set ≡ false
unset_of r c u = ground arith

-- A valid record whose commit request is accepted is a clean prepared one.
pub record Ready (r : Record) (q : CommitRequest) : Type 0 where
  pub parts : Parts r
  pub is_prepared : r.state ≡ prepared
  pub start : r.checkpoint ≡ none_yet
  pub unset : r.approved_boundary_set ≡ false
  pub clean : no_results r ≡ true
  pub bounded : q.approved_boundary ≤ maximum_reset_boundary
  pub acceptance : Acceptance r q

pub accept-Ready :
    (r : Record) (q : CommitRequest)
    → valid_record r ≡ true
    → classify_commit_request r q ≡ accept
    → Ready r q
accept-Ready r q v a =
    let acc = accept-Acceptance r q a in
    let parts = valid_record-Parts r v acc.is_prepared in
    let start = at_start r acc.is_prepared parts.position in
    let unset = unset_of r start acc.unapproved in
    record {
      parts = parts;
      is_prepared = acc.is_prepared;
      start = start;
      unset = unset;
      clean = clean_before r unset (valid_record-preauthorized r v acc.before);
      bounded = request_bounded q acc.request_valid;
      acceptance = acc;
    }
