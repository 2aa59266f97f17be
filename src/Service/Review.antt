-- ===== src/Service/Review.antt =====
-- What a person decides on an attempt, in apps/api/src/generation.ts: `acceptAttemptInTransaction`,
-- `rejectAttemptInTransaction`, `pinAttemptInTransaction`, `unpinAttemptInTransaction` and
-- `reviewAttemptInTransaction`.
pub mod Writes
pub mod Accept
pub mod Others
pub mod Once
mod Conditions
pub use Conditions.*
use auto_camera.Common.{
  ℕ, suc, ◌+◌, Bool, true, false, not, ◌&&◌, ◌||◌, Option, none, some, List, [], ◌∷◌, Text, text,
  text_eq, leb, ltb, ◌==◌, length, all, trim, if◌then◌else◌,
}
use auto_camera.Js.Number.{int, pos}
use auto_camera.Js.Json.{Json, Members, empty, member, string, number}
use auto_camera.Domain.Unknown
use auto_camera.Domain.ProjectStatus
use auto_camera.Domain.ProjectStatus.{ProjectStatus}
use auto_camera.Domain.ShotStatus
use auto_camera.Domain.AttemptStatus
use auto_camera.Domain.AttemptStatus.{AttemptStatus}
use auto_camera.Domain.Uuid.{Uuid}
use auto_camera.Domain.Project.{VideoProject, transition_project}
use auto_camera.Domain.Shot.{Shot, transition_shot}
use auto_camera.Domain.Attempt.{
  GenerationAttempt, AttemptFailureCode, AttemptReviewDecision, review_rejected, truthy_text,
  transition_generation_attempt,
}
use auto_camera.Domain.Event.{
  EvaluationResult, EvaluationStatus, attempt_accepted, project_completed, attempt_rejected,
  run_pinned, run_unpinned, run_reviewed,
}
use auto_camera.Store.State.{option_eq}
use auto_camera.Store.Attempts.{update, review}
use auto_camera.Store.Projects.{find_project, update_project, find_shot, list_shots, update_shot}
use auto_camera.Store.Events.{find_evaluation}
use auto_camera.Store.Transaction.{
  Work, ◌>>=◌, ◌>>◌, done, refuse_if, require, checked, find_in, write, call, time,
  attempt_not_found, attempt_not_reviewable, evaluation_required, evaluation_failed,
  invalid_review_reason,
}
use auto_camera.Service.Events.{GenerationService, append_event, require_attempt}

module _ (service : GenerationService) where
  -- `updatedProject`, or `none` where it is the project itself
  unfoldable pub project_after_acceptance : VideoProject → Bool → Work (Option VideoProject)
  project_after_acceptance project true = do
    next ← checked (transition_project project (Unknown.string (text "completed")))
    now ← time service.clock
    done (some (record next { updated_at = now }))
  project_after_acceptance project false =
      if is_generating project.status
      then (do
        next ← checked (transition_project project (Unknown.string (text "awaiting_final_review")))
        now ← time service.clock
        done (some (record next { updated_at = now })))
      else done none

  -- `if (updatedProject !== project) …`
  unfoldable pub write_project : Option VideoProject → ℕ → Work (Unit {0})
  write_project none version = done tt
  write_project (some project) version = write (update_project project version)

  abbrev project_or : Option VideoProject → VideoProject → VideoProject
  project_or none project = project
  project_or (some updated) project = updated

  -- The event of a completed project.
  unfoldable pub announce_completion : Bool → Uuid → ℕ → Work (Unit {0})
  announce_completion false project_id shot_count = done tt
  announce_completion true project_id shot_count = append_event service (record {
    type = project_completed;
    project_id = some project_id;
    shot_id = none;
    attempt_id = none;
    prompt_id = none;
    trace_id = none;
    payload = member (text "acceptedShotCount") (number (int (pos shot_count))) empty;
  })

  unfoldable pub accept_attempt_in_transaction :
      Uuid → Work (GenerationAttempt × Shot × VideoProject)
  accept_attempt_in_transaction attempt_id = do
    attempt ← require_attempt service attempt_id
    refuse_if (not (is_awaiting_review attempt.status)) attempt_not_reviewable
    found ← find_in (find_evaluation service.tenant_id attempt_id)
    evaluation ← require found evaluation_required
    refuse_if (not (is_passed evaluation.status)) evaluation_failed
    found_shot ← find_in (find_shot attempt.project_id attempt.shot_id)
    found_project ← find_in (find_project service.tenant_id attempt.project_id)
    shot ← require found_shot attempt_not_found
    project ← require found_project attempt_not_found
    refuse_if (truthy_text shot.accepted_attempt_id) attempt_not_reviewable
    moved ← checked (transition_generation_attempt attempt (Unknown.string (text "accepted")))
    attempt_time ← time service.clock
    let accepted_attempt = clear_lease (record moved { updated_at = attempt_time })
    closed ← checked (
        transition_shot
          (record shot {
            accepted_attempt_id = some attempt.id;
            pinned_attempt_id = some attempt.id;
          })
          (Unknown.string (text "accepted")))
    shot_time ← time service.clock
    let accepted_shot : Shot = record closed { updated_at = shot_time }
    shots ← find_in (list_shots project.id)
    let complete = all_accepted shot.id shots
    updated_project ← project_after_acceptance project complete
    written ← call (update accepted_attempt attempt.version)
    write (update_shot accepted_shot shot.version)
    write_project updated_project project.version
    append_event service (record {
      type = attempt_accepted;
      project_id = some project.id;
      shot_id = some shot.id;
      attempt_id = some attempt.id;
      prompt_id = none;
      trace_id = none;
      payload = member (text "evaluationId") (string evaluation.id) empty;
    })
    announce_completion complete project.id (length shots)
    done (accepted_attempt, accepted_shot, project_or updated_project project)

  unfoldable pub reject_attempt_in_transaction :
      Uuid → Text → Work (GenerationAttempt × Shot × VideoProject)
  reject_attempt_in_transaction attempt_id reason_code = do
    let reason = service.to_upper_case (trim reason_code)
    refuse_if (not (is_reason reason)) invalid_review_reason
    attempt ← require_attempt service attempt_id
    refuse_if (not (is_awaiting_review attempt.status)) attempt_not_reviewable
    found_shot ← find_in (find_shot attempt.project_id attempt.shot_id)
    found_project ← find_in (find_project service.tenant_id attempt.project_id)
    shot ← require found_shot attempt_not_found
    project ← require found_project attempt_not_found
    moved ← checked (transition_generation_attempt attempt (Unknown.string (text "rejected")))
    attempt_time ← time service.clock
    let rejected_attempt =
        set_failure service (clear_lease (record moved { updated_at = attempt_time }))
          review_rejected reason
    closed ← checked (transition_shot shot (Unknown.string (text "rejected")))
    shot_time ← time service.clock
    let rejected_shot : Shot = record closed { updated_at = shot_time }
    written ← call (update rejected_attempt attempt.version)
    write (update_shot rejected_shot shot.version)
    append_event service (record {
      type = attempt_rejected;
      project_id = some project.id;
      shot_id = some shot.id;
      attempt_id = some attempt.id;
      prompt_id = none;
      trace_id = none;
      payload = member (text "reasonCode") (string reason) empty;
    })
    done (rejected_attempt, rejected_shot, project)

  -- `revise`
  unfoldable pub revise : Shot → Work Shot
  revise shot = do
    now ← time service.clock
    done (record shot { version = shot.version + 1; updated_at = now })

  unfoldable pub pin_attempt_in_transaction :
      Uuid → Work (GenerationAttempt × Shot × VideoProject × Text)
  pin_attempt_in_transaction attempt_id = do
    attempt ← require_attempt service attempt_id
    found_shot ← find_in (find_shot attempt.project_id attempt.shot_id)
    found_project ← find_in (find_project service.tenant_id attempt.project_id)
    shot ← require found_shot attempt_not_found
    project ← require found_project attempt_not_found
    evaluation ← find_in (find_evaluation service.tenant_id attempt_id)
    pinned_shot ← revise (record shot { pinned_attempt_id = some attempt.id })
    write (update_shot pinned_shot shot.version)
    append_event service (record {
      type = run_pinned;
      project_id = some project.id;
      shot_id = some shot.id;
      attempt_id = some attempt.id;
      prompt_id = none;
      trace_id = none;
      payload =
          member (text "runId") (string attempt.id)
            (member (text "evaluationStatusAtPin") (string (status_at_pin evaluation)) empty);
    })
    done (attempt, pinned_shot, project, status_at_pin evaluation)

  unfoldable pub unpin_shot : Bool → GenerationAttempt → Shot → Work Shot
  unpin_shot false attempt shot = done shot
  unpin_shot true attempt shot = do
    unpinned ← revise (record shot { pinned_attempt_id = none })
    write (update_shot unpinned shot.version)
    append_event service (record {
      type = run_unpinned;
      project_id = some attempt.project_id;
      shot_id = some shot.id;
      attempt_id = some attempt.id;
      prompt_id = none;
      trace_id = none;
      payload = member (text "runId") (string attempt.id) empty;
    })
    done unpinned

  unfoldable pub unpin_attempt_in_transaction : Uuid → Work (GenerationAttempt × Shot)
  unpin_attempt_in_transaction attempt_id = do
    attempt ← require_attempt service attempt_id
    found_shot ← find_in (find_shot attempt.project_id attempt.shot_id)
    shot ← require found_shot attempt_not_found
    persisted ← unpin_shot (option_eq shot.pinned_attempt_id (some attempt.id)) attempt shot
    done (attempt, persisted)

  -- The test of the decision finds a value of its type here and is left out.
  unfoldable pub review_attempt_in_transaction :
      Uuid → AttemptReviewDecision → Option Text → Text → Work GenerationAttempt
  review_attempt_in_transaction attempt_id decision review_note author = do
    attempt ← require_attempt service attempt_id
    reviewed_at ← time service.clock
    reviewed ← call (review service.tenant_id attempt.id decision review_note author reviewed_at)
    append_event service (record {
      type = run_reviewed;
      project_id = some attempt.project_id;
      shot_id = some attempt.shot_id;
      attempt_id = some attempt.id;
      prompt_id = none;
      trace_id = none;
      payload =
          member (text "runId") (string attempt.id)
            (member (text "decision") (string (decision_text decision)) empty);
    })
    done reviewed
