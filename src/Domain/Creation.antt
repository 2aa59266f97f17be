-- ===== src/Domain/Creation.antt =====
-- What the three constructors of packages/domain/src/index.ts return.
use auto_camera.Common.{
  ◌≡◌, refl, Bool, true, Option, none, some, ok, err, ◌>>◌, >>=-eq-ok, trim, is_blank, arith,
  throw_if, sym, ap, ◌∙◌, ◌||◌, not,
}
use auto_camera.Domain.Error.{
  invalid_attempt_transition, Checked, invalid_project, target_duration_too_short,
}
use auto_camera.Domain.Unknown.{string}
use auto_camera.Domain.AttemptStatus
use auto_camera.Domain.AttemptStatus.{AttemptStatus, AttemptStatus-discrete, attempt_statuses}
use auto_camera.Domain.Money.{MicroUsd, assert_microusd}
use auto_camera.Domain.Project.{
  VideoProject, CreateProjectInput, assert_project, create_video_project, checked_budget,
  status_or_draft, storyboard_shot_count, truthy,
}
use auto_camera.Domain.Shot.{Shot, CreateShotInput, assert_shot, create_shot}
use auto_camera.Domain.ShotStatus
use auto_camera.Domain.Attempt.{
  GenerationAttempt, CreateGenerationAttemptInput, assert_attempt, create_generation_attempt,
  transition_generation_attempt,
}
use auto_camera.Domain.Attempt.Laws.{owned, transition_attempt_iff}
use auto_camera.Domain.Lifecycle.{parse_attempt_status-name}
use auto_camera.Domain.Status.Laws.{transition_lem}
use auto_camera.Js.Number.{int, pos, is_finite, num_lt}

check_then :
    {A : Type 0} (check : Checked (Unit {0})) (a : A) {b : A}
    → (check >> ok a) ≡ ok b
    → (check ≡ ok tt) × (a ≡ b)
check_then (ok x) a h = (cc, cc)
check_then (err e) a h = cc

checked_budget-same :
    (budget : Option MicroUsd) (checked : Option MicroUsd)
    → checked_budget budget ≡ ok checked
    → checked ≡ budget
unfolding checked_budget assert_microusd
checked_budget-same none checked h = cc
checked_budget-same (some amount) checked h = ground arith

checked_amount : (n cost : MicroUsd) → assert_microusd (int (pos n)) ≡ ok cost → cost ≡ n
unfolding assert_microusd
checked_amount n cost h = ground arith

assert_microusd-zero : (spent : MicroUsd) → assert_microusd (int (pos 0)) ≡ ok spent → spent ≡ 0
unfolding assert_microusd
assert_microusd-zero spent h = cc

-- `assertShot` wants the marker.
implicit_needed :
    (implicit : Option Bool) (shot : Shot)
    → assert_shot shot ≡ ok tt
    → shot.implicit ≡ truthy implicit
    → implicit ≡ some true
unfolding assert_shot
implicit_needed (some true) shot h e = refl
implicit_needed implicit shot h e = ground arith

-- A project that `createVideoProject` returns passes `assertProject`, and its title and brief are
-- the trimmed ones; it has spent nothing, at version 1, and has the budget and the status asked
-- for, or the status `draft`.
pub create_project-valid :
    (input : CreateProjectInput) (project : VideoProject)
    → create_video_project input ≡ ok project
    → (assert_project project ≡ ok tt)
      × (project.title ≡ trim input.title)
      × (project.brief ≡ trim input.brief)
      × (project.spent_microusd ≡ 0)
      × (project.version ≡ 1)
      × (project.budget_microusd ≡ input.budget_microusd)
      × (project.status ≡ status_or_draft input.status)
unfolding create_video_project
create_project-valid input project h =
    let (_, _, h1) =
      >>=-eq-ok (throw_if (is_blank input.title || is_blank input.brief) invalid_project) _ h in
    let (_, _, h2) =
      >>=-eq-ok
        (throw_if
          (not (is_finite input.target_duration_seconds)
            || num_lt input.target_duration_seconds storyboard_shot_count)
          target_duration_too_short)
        _ h1 in
    let (budget, same_budget, h3) = >>=-eq-ok (checked_budget input.budget_microusd) _ h2 in
    let (spent, none_spent, h4) = >>=-eq-ok (assert_microusd (int (pos 0))) _ h3 in
    let (valid, same) = check_then _ _ h4 in
    (
      rw (← same) valid,
      ap (λ p. p.title) (sym same),
      ap (λ p. p.brief) (sym same),
      ap (λ p. p.spent_microusd) (sym same) ∙ assert_microusd-zero spent none_spent,
      ap (λ p. p.version) (sym same),
      ap (λ p. p.budget_microusd) (sym same)
          ∙ checked_budget-same input.budget_microusd budget same_budget,
      ap (λ p. p.status) (sym same),
    )

-- A shot that `createShot` returns passes `assertShot`, is approved for generation and has no
-- accepted attempt; the input was marked implicit.
pub create_shot-valid :
    (input : CreateShotInput) (shot : Shot)
    → create_shot input ≡ ok shot
    → (assert_shot shot ≡ ok tt)
      × (shot.status ≡ ShotStatus.approved_for_generation)
      × (shot.accepted_attempt_id ≡ none)
      × (input.implicit ≡ some true)
      × (shot.definition ≡ input.definition)
unfolding create_shot
create_shot-valid input shot h =
    let (valid, same) = check_then _ _ h in
    (
      rw (← same) valid,
      ap (λ s. s.status) (sym same),
      ap (λ s. s.accepted_attempt_id) (sym same),
      implicit_needed input.implicit _ valid refl,
      ap (λ s. s.definition) (sym same),
    )

queued_claimed :
    (attempt : GenerationAttempt)
    → assert_attempt attempt ≡ ok tt
    → attempt.status ≡ AttemptStatus.queued
    → attempt.version ≡ 1
    → transition_generation_attempt attempt (string (AttemptStatus.name AttemptStatus.claimed))
      ≡ ok (record attempt { status = AttemptStatus.claimed; version = 2 })
unfolding AttemptStatus-discrete
queued_claimed attempt valid queued first =
    (transition_attempt_iff attempt _ _).1
      (AttemptStatus.claimed, valid, refl, rw queued, ground arith)

queued_not_accepted :
    (attempt : GenerationAttempt)
    → assert_attempt attempt ≡ ok tt
    → attempt.status ≡ AttemptStatus.queued
    → transition_generation_attempt attempt (string (AttemptStatus.name AttemptStatus.accepted))
      ≡ err invalid_attempt_transition
unfolding transition_generation_attempt AttemptStatus-discrete
queued_not_accepted attempt valid queued = rw (
  valid,
  parse_attempt_status-name attempt.status,
  parse_attempt_status-name AttemptStatus.accepted,
  transition_lem attempt_statuses owned,
  queued,
)

-- An attempt that `createGenerationAttempt` returns passes `assertAttempt`, and it can be claimed:
-- `transitionGenerationAttempt` takes it to `claimed`, at version 2. It cannot be accepted.
pub create_attempt-valid :
    (input : CreateGenerationAttemptInput) (attempt : GenerationAttempt)
    → create_generation_attempt input ≡ ok attempt
    → (assert_attempt attempt ≡ ok tt)
      × (transition_generation_attempt attempt (string (AttemptStatus.name AttemptStatus.claimed))
          ≡ ok (record attempt { status = AttemptStatus.claimed; version = 2 }))
      × (transition_generation_attempt attempt (string (AttemptStatus.name AttemptStatus.accepted))
          ≡ err invalid_attempt_transition)
unfolding create_generation_attempt
create_attempt-valid input attempt h =
    let (cost, _, h1) = >>=-eq-ok (assert_microusd (int (pos input.estimated_cost_microusd))) _ h in
    let (valid', same) = check_then _ _ h1 in
    let valid : assert_attempt attempt ≡ ok tt = rw (← same) valid' in
    (
      valid,
      queued_claimed attempt valid (ap (λ a. a.status) (sym same)) (ap (λ a. a.version) (sym same)),
      queued_not_accepted attempt valid (ap (λ a. a.status) (sym same)),
    )

-- The fields of a new attempt that the service relies on.
pub create_attempt-fields :
    (input : CreateGenerationAttemptInput) (attempt : GenerationAttempt)
    → create_generation_attempt input ≡ ok attempt
    → (attempt.status ≡ AttemptStatus.queued)
      × (attempt.workflow_hash ≡ input.workflow_hash)
      × (attempt.estimated_cost_microusd ≡ input.estimated_cost_microusd)
      × (attempt.tenant_id ≡ input.tenant_id)
      × (attempt.project_id ≡ input.project_id)
      × (attempt.shot_id ≡ input.shot_id)
      × (attempt.idempotency_key ≡ input.idempotency_key)
unfolding create_generation_attempt assert_microusd
create_attempt-fields input attempt h =
    let (cost, priced, h1) =
      >>=-eq-ok (assert_microusd (int (pos input.estimated_cost_microusd))) _ h in
    let (_, same) = check_then _ _ h1 in
    (
      ap (λ a. a.status) (sym same),
      ap (λ a. a.workflow_hash) (sym same),
      ap (λ a. a.estimated_cost_microusd) (sym same)
          ∙ checked_amount input.estimated_cost_microusd cost priced,
      ap (λ a. a.tenant_id) (sym same),
      ap (λ a. a.project_id) (sym same),
      ap (λ a. a.shot_id) (sym same),
      ap (λ a. a.idempotency_key) (sym same),
    )
