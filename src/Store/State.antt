-- ===== src/Store/State.antt =====
-- The errors of the repositories in packages/db/src/index.ts, and the part of `MemoryState` that
-- the modelled repositories read and write. They leave its other maps as they are.
use auto_camera.Common.{
  ℕ, Bool, true, false, Option, none, some, [], ◌∷◌, Text, text_eq, ltb, ◌==◌, ◌&&◌, ◌||◌, Result,
}
use auto_camera.Domain.Uuid.{Uuid}
use auto_camera.Domain.Attempt.{GenerationAttempt}
use auto_camera.Domain.Project.{VideoProject}
use auto_camera.Domain.Shot.{Shot}
use auto_camera.Domain.Artifact.{ArtifactRecord}
use auto_camera.Domain.Event.{DomainEvent, EvaluationResult}
use auto_camera.Js.Map.{Map}
use auto_camera.Js.Json.{Members}

-- `RepositoryErrorCode`
pub data RepositoryErrorCode : Type 0 where
  not_found optimistic_conflict unique_violation scope_violation idempotency_conflict
        invalid_argument database_error :
      RepositoryErrorCode

abbrev pub Stored : Type 0 → Type 0
Stored A = Result RepositoryErrorCode A

-- `WorkflowRevisionValidationStatus`
pub data WorkflowRevisionValidationStatus : Type 0 where
  pending validated invalid : WorkflowRevisionValidationStatus

abbrev pub is_validated : WorkflowRevisionValidationStatus → Bool
is_validated validated = true
is_validated _ = false

-- The fields of a `WorkflowRevisionRecord` that the modelled code reads.
pub record WorkflowRevisionRecord : Type 0 where
  pub id : Uuid
  pub tenant_id : Uuid
  pub project_id : Uuid
  pub shot_id : Uuid
  pub execution_hash : Text
  pub execution_parameters_json : Members
  pub validation_status : WorkflowRevisionValidationStatus

-- An `OutboxMessage` with what the state adds to it.
pub record StoredMessage : Type 0 where
  pub id : Uuid
  pub event : DomainEvent
  pub available_at : Text
  pub attempt_count : ℕ
  pub delivered_at : Option Text
  pub last_error : Option Text

pub record MemoryState : Type 0 where
  pub attempts : Map GenerationAttempt
  pub workflow_revisions : Map WorkflowRevisionRecord
  pub projects : Map VideoProject
  pub shots : Map Shot
  pub artifacts : Map ArtifactRecord
  pub evaluations : Map EvaluationResult
  pub events : Map DomainEvent
  pub next_event_sequence : ℕ
  pub outbox : Map StoredMessage

-- `emptyMemoryState`
abbrev pub empty_memory_state : MemoryState
empty_memory_state = record {
  attempts = [];
  workflow_revisions = [];
  projects = [];
  shots = [];
  artifacts = [];
  evaluations = [];
  events = [];
  next_event_sequence = 1;
  outbox = [];
}

-- `===` on optional strings
abbrev pub option_eq : Option Text → Option Text → Bool
option_eq none none = true
option_eq (some s) (some t) = text_eq s t
option_eq _ _ = false

-- `<` on strings, by their code units
abbrev pub text_lt : Text → Text → Bool
text_lt s [] = false
text_lt [] (b ∷ t) = true
text_lt (a ∷ s) (b ∷ t) = ltb a b || (a == b && text_lt s t)
