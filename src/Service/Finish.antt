-- ===== src/Service/Finish.antt =====
-- The transaction of `finishSuccess` of `GenerationWorker` in apps/api/src/generation.ts, which
-- records the artifact and the evaluation of an attempt. What the artifact store and the evaluator
-- gave before it begins is an argument.

mod Advance
pub mod Kept
pub mod Recorded
pub mod Results
mod Progress
unfoldable pub use Progress.*
use auto_camera.Common.{
  ℕ, ◌+◌, Bool, true, false, not, ◌&&◌, ◌||◌, Option, none, some, List, [], ◌∷◌, Text, text, ok,
  ◌>>=◌ as bind, if◌then◌else◌,
}
use auto_camera.Js.Number.{JsNumber}
use auto_camera.Js.Map.{Map}
use auto_camera.Js.Json.{Json, Members, empty, member, string, number}
use auto_camera.Domain.Unknown
use auto_camera.Domain.Error.{Checked}
use auto_camera.Domain.ProjectStatus
use auto_camera.Domain.ShotStatus
use auto_camera.Domain.ShotStatus.{ShotStatus}
use auto_camera.Domain.AttemptStatus
use auto_camera.Domain.AttemptStatus.{AttemptStatus, is_terminal}
use auto_camera.Domain.Uuid.{Uuid}
use auto_camera.Domain.Artifact.{ArtifactRecord}
use auto_camera.Domain.Attempt.{
  GenerationAttempt, AttemptFailureCode, media_decode_failed, transition_generation_attempt,
  if_truthy,
}
use auto_camera.Domain.Event.{
  EvaluationCheck, EvaluationResult, EvaluationStatus, artifact_stored, attempt_evaluating,
  attempt_generated, evaluation_completed,
}
use auto_camera.Store.Attempts.{find_by_id, update}
use auto_camera.Store.Artifacts.{create_artifact}
use auto_camera.Store.Events.{create_evaluation}
use auto_camera.Store.Projects.{find_project, find_shot}
use auto_camera.Store.Transaction.{
  Work, ◌>>=◌, ◌>>◌, done, checked, find_in, write, call, time, next_id,
}
use auto_camera.Service.Events.{GenerationService, append_event}
use auto_camera.Service.Review.{clear_lease, set_failure}
use auto_camera.Service.Worker.{code_text, is_unfinished, move_found_shot, move_found_project}

module _ (service : GenerationService) where
  -- `if (!existingArtifact) …`
  unfoldable pub keep_artifact : Bool → ArtifactRecord → Work (Unit {0})
  keep_artifact true artifact = done tt
  keep_artifact false artifact = write (create_artifact artifact)

  -- `if (!existingEvaluation) …`
  unfoldable pub keep_evaluation : Bool → EvaluationResult → Work (Unit {0})
  keep_evaluation false result = done tt
  keep_evaluation true result = write (create_evaluation result)

  -- `current.finishedAt ?? toIsoUtc(clock.now())`
  unfoldable pub finish_time : Option Text → Work Text
  finish_time none = time service.clock
  finish_time (some at) = done at

  -- `existingEvaluation?.id ?? idGenerator.next()`
  unfoldable pub evaluation_id : Option EvaluationResult → Work Uuid
  evaluation_id none = next_id service.ids
  evaluation_id (some result) = done result.id

  -- The events of an attempt that was not yet under evaluation.
  unfoldable pub announce_evaluation : Bool → GenerationAttempt → Uuid → Text → Work (Unit {0})
  announce_evaluation false current artifact_id version = done tt
  announce_evaluation true current artifact_id version = do
    append_event service (record {
      type = attempt_generated;
      project_id = some current.project_id;
      shot_id = some current.shot_id;
      attempt_id = some current.id;
      prompt_id = if_truthy current.comfy_prompt_id;
      trace_id = none;
      payload = member (text "artifactId") (string artifact_id) empty;
    })
    append_event service (record {
      type = attempt_evaluating;
      project_id = some current.project_id;
      shot_id = some current.shot_id;
      attempt_id = some current.id;
      prompt_id = none;
      trace_id = none;
      payload = member (text "evaluatorVersion") (string version) empty;
    })

  unfoldable pub finish_passed : GenerationAttempt → GenerationAttempt → Work (Unit {0})
  finish_passed current evaluating = do
    moved ← checked (
        transition_generation_attempt evaluating
          (Unknown.string (AttemptStatus.name AttemptStatus.awaiting_review)))
    now ← time service.clock
    written ← call (update (clear_lease (record moved { updated_at = now })) evaluating.version)
    shot ← find_in (find_shot current.project_id current.shot_id)
    move_found_shot service is_generating_shot ShotStatus.awaiting_review shot
    project ← find_in (find_project service.tenant_id current.project_id)
    move_found_project service ProjectStatus.awaiting_final_review project

  unfoldable pub finish_failed :
      Option AttemptFailureCode → GenerationAttempt → GenerationAttempt → Work (Unit {0})
  finish_failed code current evaluating = do
    moved ← checked (
        transition_generation_attempt evaluating
          (Unknown.string (AttemptStatus.name AttemptStatus.failed)))
    now ← time service.clock
    let ended =
        set_failure service (clear_lease (record moved { updated_at = now })) (failure_of code)
          (failure_text code)
    written ← call (update ended evaluating.version)
    shot ← find_in (find_shot current.project_id current.shot_id)
    move_found_shot service is_unfinished ShotStatus.failed shot
    project ← find_in (find_project service.tenant_id current.project_id)
    move_found_project service ProjectStatus.failed project

  unfoldable pub finish_as :
      MediaEvaluation → EvaluationStatus → GenerationAttempt → GenerationAttempt → Work (Unit {0})
  finish_as evaluation EvaluationStatus.passed current evaluating = finish_passed current evaluating
  finish_as evaluation EvaluationStatus.failed current evaluating =
      finish_failed evaluation.failure_code current evaluating

  unfoldable pub announce_artifact : Bool → GenerationAttempt → ArtifactRecord → Work (Unit {0})
  announce_artifact false current artifact = done tt
  announce_artifact true current artifact = append_event service (record {
    type = artifact_stored;
    project_id = some current.project_id;
    shot_id = some current.shot_id;
    attempt_id = some current.id;
    prompt_id = none;
    trace_id = none;
    payload = member (text "artifactId") (string artifact.id) (
        member (text "byteSize") (number artifact.byte_size)
          (member (text "sha256") (string artifact.sha256) empty));
  })

  unfoldable pub announce_result : Bool → GenerationAttempt → EvaluationResult → Work (Unit {0})
  announce_result false current result = done tt
  announce_result true current result = append_event service (record {
    type = evaluation_completed;
    project_id = some current.project_id;
    shot_id = some current.shot_id;
    attempt_id = some current.id;
    prompt_id = none;
    trace_id = none;
    payload = member (text "evaluationId") (string result.id) (
        member (text "status") (string (status_text result.status))
          (member (text "evaluatorVersion") (string result.evaluator_version) empty));
  })

  -- From `const evaluating` to the end, if the attempt has got there.
  unfoldable pub evaluate : Bool → Outcome → GenerationAttempt → GenerationAttempt → Work (Unit {0})
  evaluate false outcome current working = done tt
  evaluate true outcome current working = do
    now ← time service.clock
    let evaluating : GenerationAttempt = record working { updated_at = now }
    id ← evaluation_id outcome.existing_evaluation
    evaluated_at ← time service.clock
    let result : EvaluationResult = record {
      id = id;
      tenant_id = current.tenant_id;
      project_id = current.project_id;
      shot_id = current.shot_id;
      attempt_id = current.id;
      evaluator_version = outcome.evaluation.evaluator_version;
      status = outcome.evaluation.status;
      checks = outcome.evaluation.checks;
      details = outcome.evaluation.details;
      evaluated_at = evaluated_at;
    }
    written ← call (update evaluating current.version)
    announce_evaluation (not (is_evaluating current.status)) current outcome.artifact.id
        outcome.evaluation.evaluator_version
    keep_evaluation (is_missing_evaluation outcome.existing_evaluation) result
    finish_as outcome.evaluation outcome.evaluation.status current evaluating
    announce_artifact outcome.artifact_created current outcome.artifact
    announce_result (is_missing_evaluation outcome.existing_evaluation) current result

  unfoldable pub finish : Outcome → GenerationAttempt → Work (Unit {0})
  finish outcome current = do
    keep_artifact outcome.has_artifact outcome.artifact
    finished_at ← finish_time current.finished_at
    working ← checked (
        advanced (record current {
          artifact_id = some outcome.artifact.id;
          finished_at = some finished_at;
        }))
    evaluate (is_evaluating working.status) outcome current working

  unfoldable pub finish_found : Outcome → Option GenerationAttempt → Work (Unit {0})
  finish_found outcome none = done tt
  finish_found outcome (some current) =
      if is_terminal current.status then done tt else finish outcome current

  unfoldable pub finish_success : Uuid → Outcome → Work (Unit {0})
  finish_success attempt_id outcome = do
    found ← find_in (find_by_id service.tenant_id attempt_id)
    finish_found outcome found
