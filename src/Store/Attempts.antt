-- ===== src/Store/Attempts.antt =====
-- `MemoryRepository.attempts` of packages/db/src/index.ts without its leases: `create`, the
-- look-ups, `update` and `review`. The promises resolve at once, so that each call is one step.
pub mod Updates
pub mod Creation
use auto_camera.Common.{
  ℕ, suc, ◌+◌, Bool, true, false, not, ◌&&◌, ◌||◌, Option, none, some, Text, text_eq, ◌==◌, Result,
  ok, err, ◌>>=◌, ◌>>◌, throw_if, or_throw, any, find, if◌then◌else◌,
}
use auto_camera.Js.Number.{num_eq}
use auto_camera.Domain.AttemptStatus.{is_terminal}
use auto_camera.Domain.Uuid.{Uuid}
use auto_camera.Domain.Assert.{IsoUtcTimestamp}
use auto_camera.Domain.Attempt.{GenerationAttempt, AttemptReviewDecision, truthy_text}
use auto_camera.Js.Map.{get, set, has, values}
use auto_camera.Store.State.{
  RepositoryErrorCode, Stored, MemoryState, WorkflowRevisionRecord, is_validated, option_eq,
  not_found, optimistic_conflict, unique_violation, scope_violation, invalid_argument,
}

abbrev in_scope : GenerationAttempt → Option WorkflowRevisionRecord → Bool
in_scope attempt none = false
in_scope attempt (some revision) =
    text_eq revision.tenant_id attempt.tenant_id
    && text_eq revision.project_id attempt.project_id
    && text_eq revision.shot_id attempt.shot_id
    && is_validated revision.validation_status
    && text_eq revision.execution_hash attempt.workflow_hash

-- `if (attempt.workflowRevisionId) { … }`
abbrev pub revision_missing : GenerationAttempt → MemoryState → Option Uuid → Bool
revision_missing attempt state none = false
revision_missing attempt state (some revision_id) =
    truthy_text (some revision_id)
    && not (in_scope attempt (get revision_id state.workflow_revisions))

unfoldable pub create : GenerationAttempt → MemoryState → Stored MemoryState
create attempt state = do
  throw_if (revision_missing attempt state attempt.workflow_revision_id) scope_violation
  throw_if (has attempt.id state.attempts) unique_violation
  throw_if
      (any
        (λ current.
          text_eq current.idempotency_key attempt.idempotency_key
          && text_eq current.tenant_id attempt.tenant_id)
        (values state.attempts))
      unique_violation
  throw_if
      (truthy_text attempt.comfy_prompt_id
        && any (λ current. option_eq current.comfy_prompt_id attempt.comfy_prompt_id)
            (values state.attempts))
      unique_violation
  throw_if
      (any
        (λ current.
          text_eq current.tenant_id attempt.tenant_id
          && text_eq current.correlation_id attempt.correlation_id)
        (values state.attempts))
      unique_violation
  ok (record state { attempts = set attempt.id attempt state.attempts })

-- `attempt && attempt.tenantId === tenantId ? attempt : null`
abbrev of_tenant : Uuid → Option GenerationAttempt → Option GenerationAttempt
of_tenant tenant_id none = none
of_tenant tenant_id (some attempt) =
    if text_eq attempt.tenant_id tenant_id then some attempt else none

unfoldable pub find_by_id : Uuid → Uuid → MemoryState → Option GenerationAttempt
find_by_id tenant_id attempt_id state = of_tenant tenant_id (get attempt_id state.attempts)

unfoldable pub find_by_prompt_id : Uuid → Text → MemoryState → Option GenerationAttempt
find_by_prompt_id tenant_id prompt_id state =
    find
      (λ current.
        text_eq current.tenant_id tenant_id && option_eq current.comfy_prompt_id (some prompt_id))
      (values state.attempts)

unfoldable pub find_by_correlation_id : Uuid → Text → MemoryState → Option GenerationAttempt
find_by_correlation_id tenant_id correlation_id state =
    find
      (λ current.
        text_eq current.tenant_id tenant_id && text_eq current.correlation_id correlation_id)
      (values state.attempts)

-- Whether an update leaves the execution data of a managed attempt.
abbrev pub same_execution : GenerationAttempt → GenerationAttempt → Bool
same_execution attempt current =
    option_eq attempt.workflow_revision_id current.workflow_revision_id
    && option_eq attempt.workflow_version_id current.workflow_version_id
    && num_eq attempt.seed current.seed
    && num_eq attempt.steps current.steps
    && num_eq attempt.requested_width current.requested_width
    && num_eq attempt.requested_height current.requested_height
    && num_eq attempt.requested_duration_seconds current.requested_duration_seconds
    && text_eq attempt.workflow_hash current.workflow_hash

-- The attempt that stands under the identifier, if it has the version that the caller has read.
abbrev expected : ℕ → Option GenerationAttempt → Option GenerationAttempt
expected expected_version none = none
expected expected_version (some current) =
    if current.version == expected_version then some current else none

unfoldable pub update :
    GenerationAttempt → ℕ → MemoryState → Stored (GenerationAttempt × MemoryState)
update attempt expected_version state = do
  current ← or_throw (expected expected_version (get attempt.id state.attempts)) optimistic_conflict
  throw_if (is_terminal current.status) invalid_argument
  throw_if (truthy_text current.workflow_revision_id && not (same_execution attempt current))
      invalid_argument
  ok (attempt, record state { attempts = set attempt.id attempt state.attempts })

-- The test of the decision finds a value of its type here and is left out.
unfoldable pub review :
    Uuid
    → Uuid
    → AttemptReviewDecision
    → Option Text
    → Text
    → IsoUtcTimestamp
    → MemoryState
    → Stored (GenerationAttempt × MemoryState)
review tenant_id attempt_id decision review_note author reviewed_at state = do
  current ← or_throw (of_tenant tenant_id (get attempt_id state.attempts)) not_found
  let reviewed = record current {
    review_decision = some decision;
    review_note = review_note;
    review_author = some author;
    reviewed_at = some reviewed_at;
    version = current.version + 1;
    updated_at = reviewed_at;
  }
  ok (reviewed, record state { attempts = set attempt_id reviewed state.attempts })
