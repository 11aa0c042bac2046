-- ===== src/Reset/Request.antt =====
-- src/reset/DataResetPolicy.cpp, classifyPrepareRequest and classifyCommitRequest.
use power_monitor_sensor.Common.{
  ℕ, Bool, not, ◌&&◌, ◌||◌, Option, none, some, leb, ltb, ◌==◌, if◌then◌else◌,
}
use power_monitor_sensor.Common.Texts.{Text, codes, text_eq}
use power_monitor_sensor.Reset.State.{
  is_state, is_checkpoint, preparing, prepared, completed, cancelled, none_yet, terminal_state,
  commit_point_reached,
}
use power_monitor_sensor.Reset.Boundary.{highest_trusted_boundary}
use power_monitor_sensor.Reset.Record.{
  PrepareRequest, CommitRequest, Record, boundary_inputs, prepare_requests_equal,
}
use power_monitor_sensor.Reset.Validity.{valid_prepare_request, valid_commit_request}

pub data RequestDisposition : Type 0 where
  accept replay invalid stale_generation conflict not_prepared : RequestDisposition
  boundary_too_low sequence_exhausted : RequestDisposition

unfoldable pub request_disposition_name : RequestDisposition → Text
request_disposition_name accept = codes "accept"
request_disposition_name replay = codes "replay"
request_disposition_name invalid = codes "data_reset_request_invalid"
request_disposition_name stale_generation = codes "data_generation_obsolete"
request_disposition_name conflict = codes "reset_operation_conflict"
request_disposition_name not_prepared = codes "data_reset_not_prepared"
request_disposition_name boundary_too_low = codes "reset_boundary_too_low"
request_disposition_name sequence_exhausted = codes "sequence_exhausted"

-- The branch with an existing record.
abbrev pub classify_against : Record → ℕ → PrepareRequest → RequestDisposition
classify_against existing active_generation request =
    if text_eq request.operation_id existing.prepare.operation_id
    then (if prepare_requests_equal request existing.prepare then replay else conflict)
    else (if not (terminal_state existing.state)
        then conflict
        else (if leb request.target_generation active_generation
              || (is_state existing.state completed
                  && leb request.target_generation existing.prepare.target_generation)
            then stale_generation
            else accept))

abbrev pub classify_existing : Option Record → ℕ → PrepareRequest → RequestDisposition
classify_existing (some existing) active_generation request =
    classify_against existing active_generation request
classify_existing none active_generation request =
    if ltb active_generation request.target_generation then accept else stale_generation

-- `none` stands for the null pointer.
unfoldable pub classify_prepare_request : Option Record → ℕ → PrepareRequest → RequestDisposition
classify_prepare_request existing active_generation request =
    if not (valid_prepare_request request)
    then invalid
    else classify_existing existing active_generation request

unfoldable pub commit_identity_wrong : Record → CommitRequest → Bool
commit_identity_wrong r request =
    not (text_eq request.operation_id r.prepare.operation_id)
    || not (text_eq request.device_id r.prepare.device_id)
    || not (request.target_generation == r.prepare.target_generation)
    || not (request.plan_revision == r.prepare.plan_revision)
    || not (text_eq request.plan_digest r.prepare.plan_digest)
    || not (text_eq request.prepared_receipt_digest r.prepared_receipt_digest)

unfoldable pub classify_commit_request : Record → CommitRequest → RequestDisposition
classify_commit_request r request =
    if not (valid_commit_request request)
    then invalid
    else (if ltb request.target_generation r.prepare.target_generation
        then stale_generation
        else (if commit_identity_wrong r request
            then conflict
            else (if is_state r.state preparing || is_state r.state cancelled
                then not_prepared
                else (let required = highest_trusted_boundary (boundary_inputs r) in
                    if not required.valid
                    then sequence_exhausted
                    else (if ltb request.approved_boundary required.boundary
                        then boundary_too_low
                        else (if is_checkpoint r.checkpoint none_yet && r.approved_boundary_set
                            then (if request.approved_boundary == r.approved_boundary
                                then replay
                                else conflict)
                            else (if commit_point_reached r.checkpoint
                                then (if r.approved_boundary_set
                                      && request.approved_boundary == r.approved_boundary
                                    then replay
                                    else conflict)
                                else (if is_state r.state prepared
                                    then accept
                                    else not_prepared))))))))
