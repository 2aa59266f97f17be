-- ===== src/Service/Create.antt =====
-- How an attempt is made from a workflow revision, in apps/api/src/generation.ts:
-- `managedExecutionParameters`, `createManagedAttemptInTransaction` and
-- `recordBudgetDenialAfterRollback`.
pub mod Queued
pub mod Admitted
use auto_camera.Common.{
  ℕ, ◌+◌, ◌++◌, Bool, true, false, not, ◌||◌, Option, none, some, List, [], ◌∷◌, Text, text, leb,
  length, if◌then◌else◌,
}
use auto_camera.Js.Number.{JsNumber, int, pos, is_finite, is_safe_integer, num_le, num_lt}
use auto_camera.Js.Json.{Json, Members, empty, member, string, number, lookup}
use auto_camera.Domain.Unknown
use auto_camera.Domain.ProjectStatus
use auto_camera.Domain.ProjectStatus.{ProjectStatus}
use auto_camera.Domain.ShotStatus
use auto_camera.Domain.ShotStatus.{ShotStatus}
use auto_camera.Domain.AttemptStatus
use auto_camera.Domain.Assert.{IsoUtcTimestamp}
use auto_camera.Domain.Money.{MicroUsd, add_microusd}
use auto_camera.Domain.Uuid.{Uuid}
use auto_camera.Domain.Project.{VideoProject, over_budget, transition_project}
use auto_camera.Domain.Shot.{Shot, transition_shot}
use auto_camera.Domain.Attempt.{
  GenerationAttempt, create_generation_attempt, if_truthy, truthy_text,
}
use auto_camera.Domain.Event.{project_budget_denied, attempt_queued, attempt_regenerated}
use auto_camera.Store.State.{WorkflowRevisionRecord, is_validated}
use auto_camera.Store.Attempts.{create}
use auto_camera.Store.Listing.{list_by_shot}
use auto_camera.Store.Projects.{find_project, update_project, find_shot, update_shot}
use auto_camera.Store.Revisions.{find_revision}
use auto_camera.Store.Transaction.{
  Work, ◌>>=◌, ◌>>◌, done, refuse_if, require, checked, find_in, write, time, next_id,
  with_transaction, shot_not_found, shot_not_ready_for_generation, workflow_revision_not_found,
  workflow_revision_invalid, attempt_limit_reached, budget_exceeded,
}
use auto_camera.Service.Events.{GenerationService, append_event}

pub record ManagedExecutionParameters : Type 0 where
  pub width : JsNumber
  pub height : JsNumber
  pub requested_duration_seconds : JsNumber
  pub seed : JsNumber
  pub steps : JsNumber

-- `typeof candidate !== 'number' || !Number.isFinite(candidate)`
abbrev pub finite_number : Option Json → Option JsNumber
finite_number (some (number n)) = if is_finite n then some n else none
finite_number _ = none

abbrev pub unsafe_execution : ManagedExecutionParameters → Bool
unsafe_execution p =
    not (is_safe_integer p.width)
    || num_le p.width 0
    || not (is_safe_integer p.height)
    || num_le p.height 0
    || not (is_safe_integer p.seed)
    || num_lt p.seed 0
    || not (is_safe_integer p.steps)
    || num_le p.steps 0
    || num_le p.requested_duration_seconds 0

unfoldable pub managed_execution_parameters :
    WorkflowRevisionRecord → Work ManagedExecutionParameters
managed_execution_parameters revision = do
  let number_value = λ (name : Text). finite_number (lookup name revision.execution_parameters_json)
  width ← require (number_value (text "width")) workflow_revision_invalid
  height ← require (number_value (text "height")) workflow_revision_invalid
  duration ← require (number_value (text "requestedDurationSeconds")) workflow_revision_invalid
  seed ← require (number_value (text "seed")) workflow_revision_invalid
  steps ← require (number_value (text "steps")) workflow_revision_invalid
  let parameters : ManagedExecutionParameters = record {
    width = width;
    height = height;
    requested_duration_seconds = duration;
    seed = seed;
    steps = steps;
  }
  refuse_if (unsafe_execution parameters) workflow_revision_invalid
  done parameters

-- `shot.status !== 'approved_for_generation' && …`
abbrev pub is_eligible : ShotStatus → Bool
is_eligible ShotStatus.approved_for_generation = true
is_eligible ShotStatus.rejected = true
is_eligible ShotStatus.retryable = true
is_eligible _ = false

-- How a project of a status goes on.
pub data Admission : Type 0 where
  starts stays refused : Admission

abbrev pub admission : ProjectStatus → Admission
admission ProjectStatus.ready_for_generation = starts
admission ProjectStatus.awaiting_final_review = starts
admission ProjectStatus.needs_attention = starts
admission ProjectStatus.generating = stays
admission _ = refused

-- `updatedProject`, before its spending is written
unfoldable pub project_for_attempt : Admission → VideoProject → Work VideoProject
project_for_attempt starts project =
    checked (transition_project project (Unknown.string (text "generating")))
project_for_attempt stays project = done project
project_for_attempt refused project = do refuse_if true shot_not_ready_for_generation; done project

pub record CreateManagedAttemptCommand : Type 0 where
  pub idempotency_key : Text
  pub workflow_revision_id : Uuid
  pub trace_id : Option Text

module _ (service : GenerationService) where
  abbrev pub denied_payload : Members
  denied_payload = member (text "reason") (string (text "budget")) (
      member (text "estimatedCostMicrousd")
        (number (int (pos service.estimated_attempt_cost_microusd))) empty)

  -- A denial that is written and then thrown.
  unfoldable pub refuse_attempt_limit : Bool → Uuid → Uuid → Work (Unit {0})
  refuse_attempt_limit false project_id shot_id = done tt
  refuse_attempt_limit true project_id shot_id = do
    append_event service (record {
      type = project_budget_denied;
      project_id = some project_id;
      shot_id = some shot_id;
      attempt_id = none;
      prompt_id = none;
      trace_id = none;
      payload =
          member (text "reason") (string (text "attempt_limit"))
            (member (text "shotId") (string shot_id) empty);
    })
    refuse_if true attempt_limit_reached

  unfoldable pub refuse_budget : Bool → Uuid → Uuid → Work (Unit {0})
  refuse_budget false project_id shot_id = done tt
  refuse_budget true project_id shot_id = do
    append_event service (record {
      type = project_budget_denied;
      project_id = some project_id;
      shot_id = some shot_id;
      attempt_id = none;
      prompt_id = none;
      trace_id = none;
      payload = denied_payload;
    })
    refuse_if true budget_exceeded

  -- `if (sourceAttemptId) …`
  unfoldable pub announce_regeneration : Bool → Uuid → Uuid → Uuid → Uuid → Work (Unit {0})
  announce_regeneration false source_id project_id shot_id attempt_id = done tt
  announce_regeneration true source_id project_id shot_id attempt_id =
      append_event service (record {
        type = attempt_regenerated;
        project_id = some project_id;
        shot_id = some shot_id;
        attempt_id = some attempt_id;
        prompt_id = none;
        trace_id = none;
        payload = member (text "sourceAttemptId") (string source_id) empty;
      })

  abbrev text_or_empty : Option Text → Text
  text_or_empty none = []
  text_or_empty (some s) = s

  -- From the attempt to the end: its writes and its events.
  unfoldable pub queue_attempt :
      VideoProject
      → Shot
      → WorkflowRevisionRecord
      → GenerationAttempt
      → MicroUsd
      → IsoUtcTimestamp
      → Option Uuid
      → Work GenerationAttempt
  queue_attempt project shot revision attempt next_spend now source_attempt_id = do
    write (create attempt)
    queued ← checked (transition_shot shot (Unknown.string (text "queued")))
    shot_time ← time service.clock
    write (update_shot (record queued { updated_at = shot_time }) shot.version)
    next ← project_for_attempt (admission project.status) project
    write (
        update_project (record next { spent_microusd = next_spend; updated_at = now })
          project.version)
    append_event service (record {
      type = attempt_queued;
      project_id = some attempt.project_id;
      shot_id = some attempt.shot_id;
      attempt_id = some attempt.id;
      prompt_id = none;
      trace_id = none;
      payload = member (text "status") (string (AttemptStatus.name attempt.status)) (
          member (text "workflowRevisionId") (string revision.id) (
            member (text "workflowHash") (string revision.execution_hash) (
              member (text "estimatedCostMicrousd")
                (number (int (pos attempt.estimated_cost_microusd))) empty)));
    })
    announce_regeneration (truthy_text source_attempt_id) (text_or_empty source_attempt_id)
        project.id attempt.shot_id attempt.id
    done attempt

  unfoldable pub create_managed_attempt_in_transaction :
      Uuid → Uuid → CreateManagedAttemptCommand → Option Uuid → Work GenerationAttempt
  create_managed_attempt_in_transaction project_id shot_id command source_attempt_id = do
    found_project ← find_in (find_project service.tenant_id project_id)
    found_shot ← find_in (find_shot project_id shot_id)
    project ← require found_project shot_not_found
    shot ← require found_shot shot_not_found
    refuse_if (not (is_eligible shot.status)) shot_not_ready_for_generation
    found_revision ←
        find_in (find_revision service.tenant_id project_id shot_id command.workflow_revision_id)
    revision ← require found_revision workflow_revision_not_found
    refuse_if (not (is_validated revision.validation_status)) workflow_revision_invalid
    execution ← managed_execution_parameters revision
    attempts ← find_in (list_by_shot service.locale_compare service.tenant_id shot_id)
    refuse_attempt_limit (leb service.max_attempts_per_shot (length attempts)) project.id shot_id
    next_spend ←
        checked
          (add_microusd (project.spent_microusd ∷ service.estimated_attempt_cost_microusd ∷ []))
    refuse_budget (over_budget project.budget_microusd next_spend) project.id shot_id
    now ← time service.clock
    attempt_id ← next_id service.ids
    attempt ← checked (
        create_generation_attempt (record {
          id = attempt_id;
          tenant_id = service.tenant_id;
          project_id = project_id;
          shot_id = shot_id;
          idempotency_key = command.idempotency_key;
          seed = execution.seed;
          steps = execution.steps;
          requested_width = execution.width;
          requested_height = execution.height;
          requested_duration_seconds = execution.requested_duration_seconds;
          workflow_version_id = none;
          workflow_revision_id = some revision.id;
          workflow_hash = revision.execution_hash;
          correlation_id = text "h3-" ++ attempt_id;
          trace_id = if_truthy command.trace_id;
          scenario = none;
          estimated_cost_microusd = service.estimated_attempt_cost_microusd;
          source_attempt_id = if_truthy source_attempt_id;
          now = now;
        }))
    queue_attempt project shot revision attempt next_spend now source_attempt_id

  -- `...(shot ? { shotId } : {})`
  abbrev given : Option Shot → Uuid → Option Uuid
  given none shot_id = none
  given (some shot) shot_id = some shot_id

  unfoldable pub denial_of : Uuid → Uuid → Option Text → Option VideoProject → Work (Unit {0})
  denial_of project_id shot_id trace_id none = done tt
  denial_of project_id shot_id trace_id (some project) = do
    found ← find_in (find_shot project_id shot_id)
    append_event service (record {
      type = project_budget_denied;
      project_id = some project_id;
      shot_id = given found shot_id;
      attempt_id = none;
      prompt_id = none;
      trace_id = if_truthy trace_id;
      payload = denied_payload;
    })

  unfoldable pub record_budget_denial_after_rollback : Uuid → Uuid → Option Text → Work (Unit {0})
  record_budget_denial_after_rollback project_id shot_id trace_id = with_transaction (do
    found ← find_in (find_project service.tenant_id project_id)
    denial_of project_id shot_id trace_id found)
