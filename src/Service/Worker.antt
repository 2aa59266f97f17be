-- ===== src/Service/Worker.antt =====
-- The transactions of `GenerationWorker` in apps/api/src/generation.ts: `persistSubmitted`,
-- `markRunning`, `markProgress` and `failAttempt`.
pub mod Kept
pub mod Ends
mod Ending
pub use Ending.*
use auto_camera.Common.{
  ℕ, ◌+◌, Bool, true, false, not, ◌&&◌, ◌||◌, Option, none, some, List, [], ◌∷◌, Text, text,
  if◌then◌else◌,
}
use auto_camera.Js.Number.{JsNumber}
use auto_camera.Js.Json.{Json, Members, empty, member, string, boolean, number}
use auto_camera.Domain.Unknown
use auto_camera.Domain.ProjectStatus
use auto_camera.Domain.ProjectStatus.{ProjectStatus}
use auto_camera.Domain.ShotStatus
use auto_camera.Domain.ShotStatus.{ShotStatus}
use auto_camera.Domain.AttemptStatus
use auto_camera.Domain.AttemptStatus.{AttemptStatus, is_terminal}
use auto_camera.Domain.Uuid.{Uuid}
use auto_camera.Domain.Project.{VideoProject, transition_project}
use auto_camera.Domain.Shot.{Shot, transition_shot}
use auto_camera.Domain.Attempt.{
  GenerationAttempt, AttemptFailureCode, transition_generation_attempt, if_truthy,
}
use auto_camera.Domain.Event.{
  DomainEventType, attempt_submitted, attempt_execution_started, attempt_execution_progress,
  attempt_failed, attempt_timed_out, attempt_cancelled,
}
use auto_camera.Store.State.{option_eq}
use auto_camera.Store.Attempts.{find_by_id, update}
use auto_camera.Store.Projects.{find_project, update_project, find_shot, update_shot}
use auto_camera.Store.Transaction.{
  Work, ◌>>=◌, ◌>>◌, done, require, checked, find_in, write, call, time, with_transaction,
  attempt_not_found,
}
use auto_camera.Service.Events.{GenerationService, append_event}
use auto_camera.Service.Review.{clear_lease, set_failure, is_generating}

module _ (service : GenerationService) where
  -- `shots.update(updatedAt(transitionShot(shot, next), clock), shot.version)`, under its test
  unfoldable pub move_shot : Bool → ShotStatus → Shot → Work (Unit {0})
  move_shot false next shot = done tt
  move_shot true next shot = do
    moved ← checked (transition_shot shot (Unknown.string (ShotStatus.name next)))
    now ← time service.clock
    write (update_shot (record moved { updated_at = now }) shot.version)

  unfoldable pub move_found_shot : (ShotStatus → Bool) → ShotStatus → Option Shot → Work (Unit {0})
  move_found_shot test next none = done tt
  move_found_shot test next (some shot) = move_shot (test shot.status) next shot

  unfoldable pub move_project : Bool → ProjectStatus → VideoProject → Work (Unit {0})
  move_project false next project = done tt
  move_project true next project = do
    moved ← checked (transition_project project (Unknown.string (ProjectStatus.name next)))
    now ← time service.clock
    write (update_project (record moved { updated_at = now }) project.version)

  unfoldable pub move_found_project : ProjectStatus → Option VideoProject → Work (Unit {0})
  move_found_project next none = done tt
  move_found_project next (some project) = move_project (is_generating project.status) next project

  -- From `const submitted` to the end.
  unfoldable pub submit : Bool → GenerationAttempt → Text → Work GenerationAttempt
  submit true current prompt_id = done current
  submit false current prompt_id = do
    moved ← checked (
        transition_generation_attempt current
          (Unknown.string (AttemptStatus.name AttemptStatus.submitted)))
    now ← time service.clock
    submitted_at ← time service.clock
    let with_prompt : GenerationAttempt = record moved {
      updated_at = now;
      comfy_prompt_id = some prompt_id;
      submitted_at = some submitted_at;
    }
    written ← call (update with_prompt current.version)
    append_event service (record {
      type = attempt_submitted;
      project_id = some current.project_id;
      shot_id = some current.shot_id;
      attempt_id = some current.id;
      prompt_id = some prompt_id;
      trace_id = none;
      payload = member (text "status") (string (text "submitted")) empty;
    })
    done with_prompt

  unfoldable pub persist_submitted : Uuid → Text → Work GenerationAttempt
  persist_submitted attempt_id prompt_id = do
    found ← find_in (find_by_id service.tenant_id attempt_id)
    current ← require found attempt_not_found
    submit
        (option_eq current.comfy_prompt_id (some prompt_id) && not (is_submitting current.status))
        current prompt_id

  unfoldable pub start : Bool → Uuid → GenerationAttempt → Work (Unit {0})
  start false attempt_id attempt = done tt
  start true attempt_id attempt = do
    moved ← checked (
        transition_generation_attempt attempt
          (Unknown.string (AttemptStatus.name AttemptStatus.running)))
    now ← time service.clock
    written ← call (update (record moved { updated_at = now }) attempt.version)
    shot ← find_in (find_shot attempt.project_id attempt.shot_id)
    move_found_shot is_queued_shot ShotStatus.generating shot
    append_event service (record {
      type = attempt_execution_started;
      project_id = some attempt.project_id;
      shot_id = some attempt.shot_id;
      attempt_id = some attempt_id;
      prompt_id = if_truthy attempt.comfy_prompt_id;
      trace_id = none;
      payload = member (text "status") (string (text "running")) empty;
    })

  unfoldable pub start_found : Uuid → Option GenerationAttempt → Work (Unit {0})
  start_found attempt_id none = done tt
  start_found attempt_id (some attempt) =
      start (not (is_terminal attempt.status) && can_start attempt.status) attempt_id attempt

  unfoldable pub mark_running : Uuid → Work (Unit {0})
  mark_running attempt_id = do
    found ← find_in (find_by_id service.tenant_id attempt_id)
    start_found attempt_id found

  unfoldable pub progress_found :
      JsNumber → JsNumber → Text → Uuid → Option GenerationAttempt → Work (Unit {0})
  progress_found value max prompt_id attempt_id none = done tt
  progress_found value max prompt_id attempt_id (some attempt) =
      if is_terminal attempt.status
      then done tt
      else append_event service (record {
        type = attempt_execution_progress;
        project_id = some attempt.project_id;
        shot_id = some attempt.shot_id;
        attempt_id = some attempt_id;
        prompt_id = some prompt_id;
        trace_id = none;
        payload = member (text "value") (number value) (member (text "max") (number max) empty);
      })

  unfoldable pub mark_progress : Uuid → JsNumber → JsNumber → Text → Work (Unit {0})
  mark_progress attempt_id value max prompt_id = do
    found ← find_in (find_by_id service.tenant_id attempt_id)
    progress_found value max prompt_id attempt_id found

  -- From `const failed` to the end.
  unfoldable pub end_attempt :
      Failure → AttemptFailureCode → Text → Uuid → GenerationAttempt → Work (Unit {0})
  end_attempt failure code message attempt_id attempt = do
    moved ← checked (
        transition_generation_attempt attempt
          (Unknown.string (AttemptStatus.name (failure_status failure))))
    now ← time service.clock
    let ended = set_failure service (clear_lease (record moved { updated_at = now })) code message
    written ← call (update ended attempt.version)
    let recoverable = recoverable_failure failure code
    shot ← find_in (find_shot attempt.project_id attempt.shot_id)
    move_found_shot is_unfinished (shot_after_failure failure recoverable) shot
    project ← find_in (find_project service.tenant_id attempt.project_id)
    move_found_project (project_after_failure failure recoverable) project
    append_event service (record {
      type = failure_event failure;
      project_id = some attempt.project_id;
      shot_id = some attempt.shot_id;
      attempt_id = some attempt_id;
      prompt_id = if_truthy attempt.comfy_prompt_id;
      trace_id = none;
      payload = member (text "code") (string (code_text code)) (
          member (text "message") (string (service.redact_failure_message message))
            (member (text "recoverable") (boolean recoverable) empty));
    })

  unfoldable pub end_found :
      Failure → AttemptFailureCode → Text → Uuid → Option GenerationAttempt → Work (Unit {0})
  end_found failure code message attempt_id none = done tt
  end_found failure code message attempt_id (some attempt) =
      if is_terminal attempt.status
      then done tt
      else end_attempt failure code message attempt_id attempt

  -- The test of the code finds one of its type here and is left out.
  unfoldable pub fail_attempt : Uuid → Failure → AttemptFailureCode → Text → Work (Unit {0})
  fail_attempt attempt_id failure code message = do
    found ← find_in (find_by_id service.tenant_id attempt_id)
    end_found failure code message attempt_id found
