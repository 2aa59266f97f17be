-- ===== src/Domain/Project.antt =====
-- `VideoProject` of packages/domain/src/index.ts: `assertProject`, `transitionProject`
-- and `createVideoProject`.
pub mod Laws
use auto_camera.Common.{
  ℕ, suc, ◌+◌, Bool, true, false, not, ◌&&◌, ◌||◌, Option, none, some, Text, ltb, is_blank, trim,
  Result, ok, err, ◌>>=◌, ◌>>◌, throw_if,
}
use auto_camera.Js.Number.{JsNumber, int, pos, is_finite, num_lt}
use auto_camera.Domain.Error.{
  Checked, invalid_project, target_duration_too_short, invalid_project_transition,
  unknown_project_status,
}
use auto_camera.Domain.Unknown.{Unknown, string}
use auto_camera.Domain.Status.{transition}
use auto_camera.Domain.ProjectStatus
use auto_camera.Domain.ProjectStatus.{ProjectStatus, project_statuses, parse_project_status}
use auto_camera.Domain.Money.{MicroUsd, assert_microusd, assert_safe_integer}
use auto_camera.Domain.Uuid.{Uuid, assert_uuid}
use auto_camera.Domain.Assert.{IsoUtcTimestamp, assert_utc_timestamp}

pub record VideoProject : Type 0 where
  pub id : Uuid
  pub tenant_id : Uuid
  pub title : Text
  pub brief : Text
  pub status : ProjectStatus
  pub target_duration_seconds : JsNumber
  pub budget_microusd : Option MicroUsd
  pub spent_microusd : MicroUsd
  pub auto_created : Option Bool
  pub version : ℕ
  pub created_at : IsoUtcTimestamp
  pub updated_at : IsoUtcTimestamp

abbrev pub storyboard_shot_count : ℕ
storyboard_shot_count = 3

-- `if (budget !== null) assertMicrousd(budget)`
unfoldable pub assert_budget : Option MicroUsd → Checked (Unit {0})
assert_budget none = ok tt
assert_budget (some budget) = do assert_microusd (int (pos budget)); ok tt

-- `budget !== null && spent > budget`
abbrev pub over_budget : Option MicroUsd → MicroUsd → Bool
over_budget none spent = false
over_budget (some budget) spent = ltb budget spent

unfoldable pub assert_project : VideoProject → Checked (Unit {0})
assert_project project = do
  parse_project_status (string (ProjectStatus.name project.status))
  assert_uuid project.id
  assert_uuid project.tenant_id
  throw_if (is_blank project.title || is_blank project.brief) invalid_project
  throw_if
      (not (is_finite project.target_duration_seconds)
        || num_lt project.target_duration_seconds storyboard_shot_count)
      target_duration_too_short
  assert_budget project.budget_microusd
  assert_microusd (int (pos project.spent_microusd))
  throw_if (over_budget project.budget_microusd project.spent_microusd) invalid_project
  assert_safe_integer (int (pos project.version)) invalid_project
  throw_if (ltb project.version 1) invalid_project
  assert_utc_timestamp project.created_at
  assert_utc_timestamp project.updated_at
  ok tt

unfoldable pub transition_project : VideoProject → Unknown → Checked VideoProject
transition_project project next_status = do
  assert_project project
  current ← parse_project_status (string (ProjectStatus.name project.status))
  next ← parse_project_status next_status
  transition project_statuses (record project { status = next; version = project.version + 1 }) next
      current invalid_project_transition unknown_project_status

pub record CreateProjectInput : Type 0 where
  pub id : Uuid
  pub tenant_id : Uuid
  pub title : Text
  pub brief : Text
  pub target_duration_seconds : JsNumber
  pub budget_microusd : Option MicroUsd
  pub status : Option ProjectStatus
  pub auto_created : Option Bool
  pub now : IsoUtcTimestamp

abbrev pub status_or_draft : Option ProjectStatus → ProjectStatus
status_or_draft none = ProjectStatus.draft
status_or_draft (some s) = s

-- `...(input.autoCreated ? { autoCreated: true } : {})`
abbrev pub truthy : Option Bool → Option Bool
truthy (some true) = some true
truthy _ = none

unfoldable pub checked_budget : Option MicroUsd → Checked (Option MicroUsd)
checked_budget none = ok none
checked_budget (some budget) = do amount ← assert_microusd (int (pos budget)); ok (some amount)

unfoldable pub create_video_project : CreateProjectInput → Checked VideoProject
create_video_project input = do
  throw_if (is_blank input.title || is_blank input.brief) invalid_project
  throw_if
      (not (is_finite input.target_duration_seconds)
        || num_lt input.target_duration_seconds storyboard_shot_count)
      target_duration_too_short
  budget ← checked_budget input.budget_microusd
  spent ← assert_microusd (int (pos 0))
  let project : VideoProject = record {
    id = input.id;
    tenant_id = input.tenant_id;
    title = trim input.title;
    brief = trim input.brief;
    status = status_or_draft input.status;
    target_duration_seconds = input.target_duration_seconds;
    budget_microusd = budget;
    spent_microusd = spent;
    auto_created = truthy input.auto_created;
    version = 1;
    created_at = input.now;
    updated_at = input.now;
  }
  assert_project project
  ok project
