-- ===== src/Service/Samples.antt =====
-- A sample world for the transactions of the service: a project with one shot, whose attempt awaits
-- its review.
use auto_camera.Common.{true, false, ℕ, ◌+◌, ◌≡◌, refl, none, some, [], ◌∷◌, ◌++◌, Text, text, ok}
use auto_camera.Js.Number.{int, pos}
use auto_camera.Js.Date.{at}
use auto_camera.Js.Json.{Json, Members, member, empty, lookup}
use auto_camera.Js.Map.{get, set}
use auto_camera.Js.Sort.{sort, insert_sorted}
use auto_camera.Domain.AttemptStatus
use auto_camera.Domain.ProjectStatus
use auto_camera.Domain.ShotStatus
use auto_camera.Domain.Money.{add_microusd}
use auto_camera.Domain.Uuid.{Uuid}
use auto_camera.Domain.Assert.{to_iso_utc}
use auto_camera.Domain.Project.{VideoProject}
use auto_camera.Domain.Shot.{Shot}
use auto_camera.Domain.Attempt.{generation_timeout, GenerationAttempt}
use auto_camera.Domain.Event.{EvaluationResult, EvaluationStatus, create_domain_event}
use auto_camera.Domain.Samples.{runs, some_id, draft_project, approved_shot, queued_attempt}
use auto_camera.Store.State.{
  WorkflowRevisionRecord, WorkflowRevisionValidationStatus, empty_memory_state,
}
use auto_camera.Store.Samples.{code_compare, other_id, early}
use auto_camera.Store.Attempts.{create, update, review, find_by_id}
use auto_camera.Store.Events.{append, enqueue, find_evaluation, create_evaluation}
use auto_camera.Store.Listing.{list_by_shot}
use auto_camera.Store.Revisions.{find_revision}
use auto_camera.Store.Projects.{find_project, update_project, find_shot, update_shot, list_shots}
use auto_camera.Store.Transaction.{
  World, go_on, refuse_if, require, checked, find_in, write, call, read_clock, time, next_id,
  with_transaction,
}
use auto_camera.Service.Events.{GenerationService, append_event, require_attempt}
use auto_camera.Service.Review.{
  accept_attempt_in_transaction, project_after_acceptance, write_project, announce_completion,
  revise, pin_attempt_in_transaction,
}
use auto_camera.Domain.Artifact.{ArtifactRecord}
use auto_camera.Store.Artifacts.{create_artifact}
use auto_camera.Service.Finish.{
  Outcome, finish_success, finish_found, finish, evaluate, advanced, moved_if, keep_artifact,
  keep_evaluation, finish_time, evaluation_id, announce_evaluation, announce_artifact,
  announce_result, finish_as, finish_passed, finish_failed,
}
use auto_camera.Service.Worker.{
  timed_out, fail_attempt, end_found, end_attempt, move_shot, move_found_shot, move_project,
  move_found_project,
}
use auto_camera.Service.Create.{
  CreateManagedAttemptCommand, managed_execution_parameters, project_for_attempt,
  refuse_attempt_limit, refuse_budget, announce_regeneration, queue_attempt,
  create_managed_attempt_in_transaction,
}

abbrev last_digits : ℕ → Text
last_digits n = (48 + n) ∷ []

abbrev pub new_id : ℕ → Uuid
new_id n = text "0198a1b2-c3d4-7f01-bf03-04050607081" ++ last_digits n

abbrev pub sample_service : GenerationService
sample_service = record {
  tenant_id = some_id;
  producer = text "generation-service";
  max_attempts_per_shot = 3;
  estimated_attempt_cost_microusd = 100000;
  clock = λ n. at early;
  ids = new_id;
  to_upper_case = λ s. s;
  redact_failure_message = λ s. s;
  locale_compare = code_compare;
}

abbrev pub final_project : VideoProject
final_project = record draft_project { status = ProjectStatus.awaiting_final_review; version = 6 }

abbrev pub shown_shot : Shot
shown_shot = record approved_shot { status = ShotStatus.awaiting_review; version = 4 }

abbrev pub shown_attempt : GenerationAttempt
shown_attempt = record queued_attempt { status = AttemptStatus.awaiting_review; version = 7 }

abbrev pub passed_evaluation : EvaluationResult
passed_evaluation = record {
  id = other_id;
  tenant_id = some_id;
  project_id = some_id;
  shot_id = some_id;
  attempt_id = some_id;
  evaluator_version = text "1";
  status = EvaluationStatus.passed;
  checks = [];
  details = empty;
  evaluated_at = early;
}

abbrev pub reviewing : World
reviewing = record {
  store = record empty_memory_state {
    attempts = (some_id, shown_attempt) ∷ [];
    projects = (some_id, final_project) ∷ [];
    shots = (some_id, shown_shot) ∷ [];
    evaluations = (other_id, passed_evaluation) ∷ [];
  };
  clock_reads = 0;
  ids_used = 0;
}

-- What the tests compute with.
unfoldable pub service_runs : Unit {0}
unfolding runs get set sort insert_sorted to_iso_utc add_microusd create_domain_event create update
    review find_by_id append enqueue find_evaluation list_by_shot find_revision find_project
    update_project find_shot update_shot list_shots go_on refuse_if require checked find_in write
    call read_clock time next_id with_transaction append_event require_attempt
    accept_attempt_in_transaction project_after_acceptance write_project announce_completion revise
    pin_attempt_in_transaction managed_execution_parameters project_for_attempt refuse_attempt_limit
    refuse_budget announce_regeneration queue_attempt create_managed_attempt_in_transaction lookup
    finish_success finish_found finish evaluate advanced moved_if keep_artifact keep_evaluation
    finish_time evaluation_id announce_evaluation announce_artifact announce_result finish_as
    finish_passed finish_failed create_artifact create_evaluation fail_attempt end_found end_attempt
    move_shot move_found_shot move_project move_found_project
service_runs = tt

abbrev pub accepted_attempt : GenerationAttempt
accepted_attempt = record shown_attempt {
  status = AttemptStatus.accepted;
  version = 8;
  updated_at = early;
}

abbrev pub accepted_shot : Shot
accepted_shot = record shown_shot {
  status = ShotStatus.accepted;
  accepted_attempt_id = some some_id;
  pinned_attempt_id = some some_id;
  version = 5;
  updated_at = early;
}

abbrev pub completed_project : VideoProject
completed_project = record final_project {
  status = ProjectStatus.completed;
  version = 7;
  updated_at = early;
}

abbrev pub after_acceptance : World
after_acceptance =
    (with_transaction (accept_attempt_in_transaction sample_service some_id) reviewing).1

pub acceptance :
    with_transaction (accept_attempt_in_transaction sample_service some_id) reviewing
    ≡ (ok (accepted_attempt, accepted_shot, completed_project), after_acceptance)
unfolding service_runs
acceptance = refl

-- A project whose shot is approved and has a validated revision.
abbrev parameters : Members
parameters = member (text "width") (Json.number (int (pos 960))) (
    member (text "height") (Json.number (int (pos 544))) (
      member (text "requestedDurationSeconds") (Json.number (int (pos 5))) (
        member (text "seed") (Json.number (int (pos 7)))
          (member (text "steps") (Json.number (int (pos 8))) empty))))

abbrev pub sample_revision : WorkflowRevisionRecord
sample_revision = record {
  id = other_id;
  tenant_id = some_id;
  project_id = some_id;
  shot_id = some_id;
  execution_hash = text "def";
  execution_parameters_json = parameters;
  validation_status = WorkflowRevisionValidationStatus.validated;
}

abbrev pub busy_project : VideoProject
busy_project = record draft_project {
  status = ProjectStatus.generating;
  spent_microusd = 100000;
  version = 6;
}

abbrev pub creating : World
creating = record {
  store = record empty_memory_state {
    projects = (some_id, busy_project) ∷ [];
    shots = (some_id, approved_shot) ∷ [];
    workflow_revisions = (other_id, sample_revision) ∷ [];
  };
  clock_reads = 0;
  ids_used = 0;
}

abbrev pub sample_command : CreateManagedAttemptCommand
sample_command = record {
  idempotency_key = text "key-9";
  workflow_revision_id = other_id;
  trace_id = none;
}

abbrev pub new_attempt : GenerationAttempt
new_attempt = record queued_attempt {
  id = new_id 0;
  idempotency_key = text "key-9";
  workflow_version_id = none;
  workflow_revision_id = some other_id;
  workflow_hash = text "def";
  correlation_id = text "h3-" ++ new_id 0;
  queued_at = early;
  created_at = early;
  updated_at = early;
}

abbrev pub after_creation : World
after_creation =
    (with_transaction
      (create_managed_attempt_in_transaction sample_service some_id some_id sample_command none)
      creating).1

pub creation :
    with_transaction
      (create_managed_attempt_in_transaction sample_service some_id some_id sample_command none)
      creating
    ≡ (ok new_attempt, after_creation)
unfolding service_runs
creation = refl

-- A budget that the next attempt would exceed.
abbrev pub spent_project : VideoProject
spent_project = record busy_project { spent_microusd = 450000 }

abbrev pub exhausted : World
exhausted = record creating {
  store = record creating.store { projects = (some_id, spent_project) ∷ [] };
}

-- An attempt that runs, and the end of the patience with it.
abbrev pub running_attempt : GenerationAttempt
running_attempt = record queued_attempt {
  status = AttemptStatus.running;
  lease_owner = some (text "w1");
  version = 5;
}

abbrev pub running : World
running = record {
  store = record empty_memory_state {
    attempts = (some_id, running_attempt) ∷ [];
    projects = (some_id, busy_project) ∷ [];
    shots = (some_id, record approved_shot { status = ShotStatus.generating; version = 3 }) ∷ [];
  };
  clock_reads = 0;
  ids_used = 0;
}

abbrev pub after_timeout : World
after_timeout =
    (with_transaction
      (fail_attempt sample_service some_id timed_out generation_timeout (text "too late"))
      running).1

pub timeout :
    with_transaction
      (fail_attempt sample_service some_id timed_out generation_timeout (text "too late"))
      running
    ≡ (ok tt, after_timeout)
unfolding service_runs
timeout = refl

-- What a running attempt gave.
abbrev pub sample_artifact : ArtifactRecord
sample_artifact = record {
  id = other_id;
  tenant_id = some_id;
  project_id = some_id;
  shot_id = some_id;
  attempt_id = some_id;
  object_key = text "artifacts/1";
  mime_type = text "video/mp4";
  byte_size = int (pos 1000);
  sha256 = text "abc";
  created_at = early;
}

abbrev pub sample_outcome : Outcome
sample_outcome = record {
  artifact = sample_artifact;
  has_artifact = false;
  artifact_created = true;
  existing_evaluation = none;
  evaluation = record {
    evaluator_version = text "1";
    status = EvaluationStatus.passed;
    checks = [];
    details = empty;
    failure_code = none;
  };
}

abbrev pub after_result : World
after_result = (with_transaction (finish_success sample_service some_id sample_outcome) running).1

pub result :
    with_transaction (finish_success sample_service some_id sample_outcome) running
    ≡ (ok tt, after_result)
unfolding service_runs
result = refl
