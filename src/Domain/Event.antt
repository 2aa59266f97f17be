-- ===== src/Domain/Event.antt =====
-- Evaluations and domain events of packages/domain/src/index.ts. A type of event parses to itself, so
-- that `createDomainEvent` has no test for it.
use auto_camera.Common.{ℕ, Option, none, Text, ok, ◌>>=◌}
use auto_camera.Js.Date.{JsDate}
use auto_camera.Js.Json.{Members}
use auto_camera.Domain.Error.{Checked}
use auto_camera.Domain.Uuid.{Uuid}
use auto_camera.Domain.Assert.{IsoUtcTimestamp, to_iso_utc}
use auto_camera.Domain.Attempt.{if_truthy}
use auto_camera.Js.Map.{Map}

-- `EvaluationCheckStatus`
pub data EvaluationCheckStatus : Type 0 where
  passed failed not_applicable : EvaluationCheckStatus

pub record EvaluationCheck : Type 0 where
  pub status : EvaluationCheckStatus
  pub detail : Text

-- The status of a whole evaluation.
pub data EvaluationStatus : Type 0 where
  passed failed : EvaluationStatus

pub record EvaluationResult : Type 0 where
  pub id : Uuid
  pub tenant_id : Uuid
  pub project_id : Uuid
  pub shot_id : Uuid
  pub attempt_id : Uuid
  pub evaluator_version : Text
  pub status : EvaluationStatus
  pub checks : Map EvaluationCheck
  pub details : Members
  pub evaluated_at : IsoUtcTimestamp

-- `DOMAIN_EVENT_TYPES`
pub data DomainEventType : Type 0 where
  project_created project_planning_started project_planned storyboard_proposed storyboard_superseded
        storyboard_approved shot_created project_ready_for_generation workflow_revision_invalid
        executor_unavailable attempt_queued attempt_claimed attempt_submitted
        attempt_execution_started attempt_execution_progress attempt_generated attempt_evaluating
        attempt_failed attempt_timed_out attempt_submission_uncertain attempt_cancelled
        attempt_regenerated artifact_stored evaluation_completed attempt_accepted attempt_rejected
        project_budget_denied orphan_event project_completed run_created run_pinned run_unpinned
        run_reviewed recommendation_created :
      DomainEventType

pub record DomainEvent : Type 0 where
  pub id : Uuid
  pub event_sequence : Option ℕ
  pub type : DomainEventType
  pub version : ℕ
  pub occurred_at : IsoUtcTimestamp
  pub observed_at : IsoUtcTimestamp
  pub producer : Text
  pub tenant_id : Uuid
  pub project_id : Option Uuid
  pub shot_id : Option Uuid
  pub attempt_id : Option Uuid
  pub prompt_id : Option Text
  pub trace_id : Option Text
  pub payload : Members

-- The fields of `CreateDomainEventInput` but the clock, which is given as what it shows.
pub record CreateDomainEventInput : Type 0 where
  pub id : Uuid
  pub type : DomainEventType
  pub producer : Text
  pub tenant_id : Uuid
  pub project_id : Option Uuid
  pub shot_id : Option Uuid
  pub attempt_id : Option Uuid
  pub prompt_id : Option Text
  pub trace_id : Option Text
  pub payload : Members

unfoldable pub create_domain_event : CreateDomainEventInput → JsDate → Checked DomainEvent
unfolding to_iso_utc
create_domain_event input now = do
  occurred_at ← to_iso_utc now
  ok (record {
    id = input.id;
    event_sequence = none;
    type = input.type;
    version = 1;
    occurred_at = occurred_at;
    observed_at = occurred_at;
    producer = input.producer;
    tenant_id = input.tenant_id;
    project_id = if_truthy input.project_id;
    shot_id = if_truthy input.shot_id;
    attempt_id = if_truthy input.attempt_id;
    prompt_id = if_truthy input.prompt_id;
    trace_id = if_truthy input.trace_id;
    payload = input.payload;
  })
