-- ===== src/Service/Review/Writes.antt =====
-- What a change of status gives, and what the writes of a review leave.
use auto_camera.Common.{
  not, refl, false, ◌+◌, ◌≡◌, sym, ap, ◌∙◌, Text, [], ◌∷◌, ok, Result, is_empty, ℕ,
  >>=-eq-ok as checked-eq-ok,
}
use auto_camera.Js.Map.{set}
use auto_camera.Domain.Unknown.{Unknown, string}
use auto_camera.Domain.AttemptStatus
use auto_camera.Domain.AttemptStatus.{AttemptStatus, parse_generation_attempt_status}
use auto_camera.Domain.ProjectStatus
use auto_camera.Domain.ProjectStatus.{ProjectStatus, parse_project_status}
use auto_camera.Domain.Project.{VideoProject, transition_project}
use auto_camera.Domain.Project.Laws.{transition_project_iff}
use auto_camera.Domain.ShotStatus
use auto_camera.Domain.ShotStatus.{ShotStatus, parse_shot_status}
use auto_camera.Domain.Lifecycle.{
  parse_statuses_iff, parse_attempt_status-name, parse_shot_status-name, parse_project_status-name,
}
use auto_camera.Domain.Uuid.{assert_uuid, is_uuid_v7}
use auto_camera.Domain.Shot.{Shot, transition_shot}
use auto_camera.Domain.Shot.Laws.{transition_shot_iff}
use auto_camera.Domain.Attempt.{
  GenerationAttempt, assert_attempt, assert_attempt_request, transition_generation_attempt,
}
use auto_camera.Domain.Attempt.Laws.{transition_attempt_iff}
use auto_camera.Service.Review.{is_awaiting_review}
use auto_camera.Store.State.{MemoryState}
use auto_camera.Store.Attempts.{update}
use auto_camera.Store.Attempts.Updates.{update_iff}
use auto_camera.Store.Projects.{update_shot}
use auto_camera.Store.Projects.Laws.{update_shot-eq-ok}

-- An identifier that passes `assertUuid` is not empty.
assert_uuid-solid : (id value : Text) → assert_uuid id ≡ ok value → is_empty id ≡ false
unfolding assert_uuid is_uuid_v7
assert_uuid-solid [] value h = cc
assert_uuid-solid (c ∷ id) value h = refl

assert_attempt-solid :
    (attempt : GenerationAttempt) → assert_attempt attempt ≡ ok tt → is_empty attempt.id ≡ false
unfolding assert_attempt assert_attempt_request
assert_attempt-solid attempt h =
    let (_, _, h1) =
      checked-eq-ok (parse_generation_attempt_status (string (AttemptStatus.name attempt.status))) _
        h in
    let (_, request, _) = checked-eq-ok (assert_attempt_request attempt) _ h1 in
    let (value, uuid, _) = checked-eq-ok (assert_uuid attempt.id) _ request in
    assert_uuid-solid attempt.id value uuid

-- The text of a status names that status alone.
status_of_text :
    (s next : AttemptStatus)
    → string (AttemptStatus.name s) ≡ string (AttemptStatus.name next)
    → next ≡ s
status_of_text s next h =
    let one : parse_generation_attempt_status (string (AttemptStatus.name s)) ≡ ok next =
      ((parse_statuses_iff (string (AttemptStatus.name s))).2 next).1 h in
    let two : ◌≡◌ {A = Result _ AttemptStatus} (ok next) (ok s) =
      sym one ∙ parse_attempt_status-name s in
    cc

status_of_shot_text :
    (s next : ShotStatus) → string (ShotStatus.name s) ≡ string (ShotStatus.name next) → next ≡ s
status_of_shot_text s next h =
    let one : parse_shot_status (string (ShotStatus.name s)) ≡ ok next =
      ((parse_statuses_iff (string (ShotStatus.name s))).1 next).1 h in
    let two : ◌≡◌ {A = Result _ ShotStatus} (ok next) (ok s) = sym one ∙ parse_shot_status-name s in
    cc

status_of_project_text :
    (s next : ProjectStatus)
    → string (ProjectStatus.name s) ≡ string (ProjectStatus.name next)
    → next ≡ s
status_of_project_text s next h =
    let one : parse_project_status (string (ProjectStatus.name s)) ≡ ok next =
      ((parse_statuses_iff (string (ProjectStatus.name s))).0 next).1 h in
    let two : ◌≡◌ {A = Result _ ProjectStatus} (ok next) (ok s) =
      sym one ∙ parse_project_status-name s in
    cc

-- An attempt that is not refused awaits its review.
pub awaiting-eq-true :
    (s : AttemptStatus) → not (is_awaiting_review s) ≡ false → s ≡ AttemptStatus.awaiting_review
awaiting-eq-true AttemptStatus.awaiting_review h = refl
awaiting-eq-true _ h = cc

-- An attempt that changed its status to `s`.
pub attempt_step :
    (s : AttemptStatus) (attempt moved : GenerationAttempt)
    → transition_generation_attempt attempt (string (AttemptStatus.name s)) ≡ ok moved
    → (is_empty attempt.id ≡ false)
      × (moved ≡ record attempt { status = s; version = attempt.version + 1 })
attempt_step s attempt moved h =
    let (next, valid, named, _, same) = (transition_attempt_iff attempt moved _).0 h in
    (
      assert_attempt-solid attempt valid,
      same
          ∙ ap (λ x. record attempt { status = x; version = attempt.version + 1 })
              (status_of_text s next named),
    )

-- A shot that changed its status.
pub shot_step :
    (shot closed : Shot) (u : Unknown)
    → transition_shot shot u ≡ ok closed
    → (closed.id ≡ shot.id) × (closed.accepted_attempt_id ≡ shot.accepted_attempt_id)
shot_step shot closed u h =
    let (next, _, _, _, _, same) = (transition_shot_iff shot closed u).0 h in
    (ap (λ x. x.id) same, ap (λ x. x.accepted_attempt_id) same)

-- A project that changed its status to `s`.
pub project_step :
    (s : ProjectStatus) (project moved : VideoProject)
    → transition_project project (string (ProjectStatus.name s)) ≡ ok moved
    → moved.status ≡ s
project_step s project moved h =
    let (next, _, named, _, same) = (transition_project_iff project moved _).0 h in
    ap (λ x. x.status) same ∙ status_of_project_text s next named

-- A shot that changed its status to `s`.
pub shot_step_to :
    (s : ShotStatus) (shot moved : Shot)
    → transition_shot shot (string (ShotStatus.name s)) ≡ ok moved
    → (moved.status ≡ s) × (moved.version ≡ shot.version + 1)
shot_step_to s shot moved h =
    let (next, _, named, _, _, same) = (transition_shot_iff shot moved _).0 h in
    (ap (λ x. x.status) same ∙ status_of_shot_text s next named, ap (λ x. x.version) same)

-- An attempt and then a shot are written over the entities of `r`.
pub both_written :
    (attempt result : GenerationAttempt) (shot : Shot) (version shot_version : ℕ)
    (r s t u : MemoryState)
    → s ≡ r
    → update attempt version s ≡ ok (result, t)
    → update_shot shot shot_version t ≡ ok u
    → (u.attempts ≡ set attempt.id attempt r.attempts)
      × (u.shots ≡ set shot.id shot r.shots)
      × (u.projects ≡ r.projects)
both_written attempt result shot version shot_version r s t u same h k =
    let (_, _, _, _, _, _, one) = (update_iff attempt result version s t).0 h in
    let two = update_shot-eq-ok shot shot_version t u k in
    (
      ap (λ x. x.attempts) two
          ∙ (ap (λ x. x.attempts) one ∙ ap (λ x. set attempt.id attempt x.attempts) same),
      ap (λ x. x.shots) two
          ∙ (ap (λ x. set shot.id shot x.shots) one ∙ ap (λ x. set shot.id shot x.shots) same),
      ap (λ x. x.projects) two ∙ (ap (λ x. x.projects) one ∙ ap (λ x. x.projects) same),
    )
