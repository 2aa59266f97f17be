-- ===== src/Domain/Attempt.antt =====
-- `GenerationAttempt` of packages/domain/src/index.ts: `assertAttempt`,
-- `transitionGenerationAttempt` and `createGenerationAttempt`.
pub mod Laws
use auto_camera.Common.{
  ℕ, suc, ◌+◌, Bool, true, false, not, ◌&&◌, ◌||◌, Option, none, some, List, [], ◌∷◌, Text, ltb,
  length, is_empty, is_blank, Result, ok, err, ◌>>=◌, ◌>>◌, throw_if,
}
use auto_camera.Js.Number.{JsNumber, int, pos, is_finite, is_safe_integer, num_lt, num_le}
use auto_camera.Domain.Error.{
  Checked, invalid_attempt, invalid_attempt_transition, unknown_attempt_status,
}
use auto_camera.Domain.Unknown.{Unknown, string}
use auto_camera.Domain.Status.{transition}
use auto_camera.Domain.AttemptStatus
use auto_camera.Domain.AttemptStatus.{
  AttemptStatus, attempt_statuses, parse_generation_attempt_status,
}
use auto_camera.Domain.Money.{MicroUsd, assert_microusd, assert_safe_integer}
use auto_camera.Domain.Uuid.{Uuid, assert_uuid}
use auto_camera.Domain.Assert.{
  IsoUtcTimestamp, assert_utc_timestamp, assert_uuid_if_present, assert_iso_if_present,
}

-- `ATTEMPT_FAILURE_CODES`
pub data AttemptFailureCode : Type 0 where
  comfy_unavailable comfy_submission_uncertain comfy_execution_failed capability_drift
        comfy_interrupted generation_timeout artifact_download_failed artifact_storage_failed
        media_not_found media_invalid_container media_missing_video media_invalid_dimensions
        media_invalid_duration media_invalid_frame_rate media_decode_failed media_black_or_static
        media_checksum_mismatch media_size_mismatch review_rejected budget_exceeded
        attempt_limit_reached :
      AttemptFailureCode

-- `ATTEMPT_REVIEW_DECISIONS`
pub data AttemptReviewDecision : Type 0 where
  accepted rejected : AttemptReviewDecision

pub record GenerationAttempt : Type 0 where
  pub id : Uuid
  pub tenant_id : Uuid
  pub project_id : Uuid
  pub shot_id : Uuid
  pub idempotency_key : Text
  pub status : AttemptStatus
  pub seed : JsNumber
  pub steps : JsNumber
  pub requested_width : JsNumber
  pub requested_height : JsNumber
  pub requested_duration_seconds : JsNumber
  pub workflow_version_id : Option Uuid
  pub workflow_revision_id : Option Uuid
  pub workflow_hash : Text
  pub correlation_id : Text
  pub trace_id : Option Text
  pub scenario : Option Text
  pub comfy_prompt_id : Option Text
  pub lease_owner : Option Text
  pub lease_expires_at : Option IsoUtcTimestamp
  pub queued_at : IsoUtcTimestamp
  pub submitted_at : Option IsoUtcTimestamp
  pub finished_at : Option IsoUtcTimestamp
  pub compute_seconds : Option JsNumber
  pub estimated_cost_microusd : MicroUsd
  pub failure_code : Option AttemptFailureCode
  pub failure_message : Option Text
  pub source_attempt_id : Option Uuid
  pub artifact_id : Option Uuid
  pub review_decision : Option AttemptReviewDecision
  pub review_note : Option Text
  pub review_author : Option Text
  pub reviewed_at : Option IsoUtcTimestamp
  pub version : ℕ
  pub created_at : IsoUtcTimestamp
  pub updated_at : IsoUtcTimestamp

-- `value !== undefined && value.length > limit`
abbrev longer_than : ℕ → Option Text → Bool
longer_than limit none = false
longer_than limit (some value) = ltb limit (length value)

-- `value !== undefined && !value.trim()`
abbrev blank_if_present : Option Text → Bool
blank_if_present none = false
blank_if_present (some value) = is_blank value

abbrev bad_compute_seconds : Option JsNumber → Bool
bad_compute_seconds none = false
bad_compute_seconds (some value) = not (is_finite value) || num_lt value 0

-- A truth test of an optional identifier: present, and not the empty text.
abbrev pub truthy_text : Option Text → Bool
truthy_text none = false
truthy_text (some value) = not (is_empty value)

-- `!Number.isSafeInteger(value) || value <= 0`
abbrev not_positive : JsNumber → Bool
not_positive value = not (is_safe_integer value) || num_le value 0

-- The tests of the failure code and of the review decision against their lists, and the test of
-- the note by `typeof`, find values of their types here and are left out.
-- What a request for an attempt fixes.
unfoldable pub assert_attempt_request : GenerationAttempt → Checked (Unit {0})
assert_attempt_request attempt = do
  assert_uuid attempt.id
  assert_uuid attempt.tenant_id
  assert_uuid attempt.project_id
  assert_uuid attempt.shot_id
  throw_if (is_blank attempt.idempotency_key || ltb 200 (length attempt.idempotency_key))
      invalid_attempt
  throw_if (not (is_safe_integer attempt.seed)) invalid_attempt
  throw_if (not_positive attempt.steps) invalid_attempt
  throw_if (not_positive attempt.requested_width || not_positive attempt.requested_height)
      invalid_attempt
  throw_if
      (not (is_finite attempt.requested_duration_seconds)
        || num_le attempt.requested_duration_seconds 0)
      invalid_attempt
  throw_if (is_blank attempt.workflow_hash || is_blank attempt.correlation_id) invalid_attempt
  throw_if (longer_than 64 attempt.scenario) invalid_attempt
  assert_microusd (int (pos attempt.estimated_cost_microusd))
  ok tt

-- What its execution and its review leave in it.
unfoldable pub assert_attempt_outcome : GenerationAttempt → Checked (Unit {0})
assert_attempt_outcome attempt = do
  throw_if (bad_compute_seconds attempt.compute_seconds) invalid_attempt
  throw_if (longer_than 500 attempt.failure_message) invalid_attempt
  assert_uuid_if_present attempt.workflow_version_id
  assert_uuid_if_present attempt.workflow_revision_id
  throw_if (truthy_text attempt.workflow_version_id && truthy_text attempt.workflow_revision_id)
      invalid_attempt
  assert_uuid_if_present attempt.source_attempt_id
  assert_uuid_if_present attempt.artifact_id
  throw_if (longer_than 2000 attempt.review_note) invalid_attempt
  throw_if (blank_if_present attempt.review_author || longer_than 200 attempt.review_author)
      invalid_attempt
  assert_iso_if_present attempt.reviewed_at
  assert_iso_if_present attempt.lease_expires_at
  assert_iso_if_present attempt.submitted_at
  assert_iso_if_present attempt.finished_at
  throw_if (blank_if_present attempt.comfy_prompt_id) invalid_attempt
  throw_if (blank_if_present attempt.lease_owner) invalid_attempt
  ok tt

unfoldable pub assert_attempt : GenerationAttempt → Checked (Unit {0})
assert_attempt attempt = do
  parse_generation_attempt_status (string (AttemptStatus.name attempt.status))
  assert_attempt_request attempt
  assert_attempt_outcome attempt
  assert_safe_integer (int (pos attempt.version)) invalid_attempt
  throw_if (ltb attempt.version 1) invalid_attempt
  assert_utc_timestamp attempt.queued_at
  assert_utc_timestamp attempt.created_at
  assert_utc_timestamp attempt.updated_at
  ok tt

unfoldable pub transition_generation_attempt :
    GenerationAttempt → Unknown → Checked GenerationAttempt
transition_generation_attempt attempt next_status = do
  assert_attempt attempt
  current ← parse_generation_attempt_status (string (AttemptStatus.name attempt.status))
  next ← parse_generation_attempt_status next_status
  transition attempt_statuses (record attempt { status = next; version = attempt.version + 1 }) next
      current invalid_attempt_transition unknown_attempt_status

pub record CreateGenerationAttemptInput : Type 0 where
  pub id : Uuid
  pub tenant_id : Uuid
  pub project_id : Uuid
  pub shot_id : Uuid
  pub idempotency_key : Text
  pub seed : JsNumber
  pub steps : JsNumber
  pub requested_width : JsNumber
  pub requested_height : JsNumber
  pub requested_duration_seconds : JsNumber
  pub workflow_version_id : Option Uuid
  pub workflow_revision_id : Option Uuid
  pub workflow_hash : Text
  pub correlation_id : Text
  pub trace_id : Option Text
  pub scenario : Option Text
  pub estimated_cost_microusd : MicroUsd
  pub source_attempt_id : Option Uuid
  pub now : IsoUtcTimestamp

-- `...(value ? { field: value } : {})`
abbrev pub if_truthy : Option Text → Option Text
if_truthy none = none
if_truthy (some []) = none
if_truthy (some (c ∷ s)) = some (c ∷ s)

unfoldable pub create_generation_attempt : CreateGenerationAttemptInput → Checked GenerationAttempt
create_generation_attempt input = do
  cost ← assert_microusd (int (pos input.estimated_cost_microusd))
  let attempt : GenerationAttempt = record {
    id = input.id;
    tenant_id = input.tenant_id;
    project_id = input.project_id;
    shot_id = input.shot_id;
    idempotency_key = input.idempotency_key;
    status = AttemptStatus.queued;
    seed = input.seed;
    steps = input.steps;
    requested_width = input.requested_width;
    requested_height = input.requested_height;
    requested_duration_seconds = input.requested_duration_seconds;
    workflow_version_id = if_truthy input.workflow_version_id;
    workflow_revision_id = if_truthy input.workflow_revision_id;
    workflow_hash = input.workflow_hash;
    correlation_id = input.correlation_id;
    trace_id = if_truthy input.trace_id;
    scenario = if_truthy input.scenario;
    comfy_prompt_id = none;
    lease_owner = none;
    lease_expires_at = none;
    queued_at = input.now;
    submitted_at = none;
    finished_at = none;
    compute_seconds = none;
    estimated_cost_microusd = cost;
    failure_code = none;
    failure_message = none;
    source_attempt_id = if_truthy input.source_attempt_id;
    artifact_id = none;
    review_decision = none;
    review_note = none;
    review_author = none;
    reviewed_at = none;
    version = 1;
    created_at = input.now;
    updated_at = input.now;
  }
  assert_attempt attempt
  ok attempt
