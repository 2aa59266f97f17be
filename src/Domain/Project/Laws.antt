-- ===== src/Domain/Project/Laws.antt =====
-- When a project changes its status, and what it keeps.
use auto_camera.Common.{◌+◌, ◌<◌, ◌≡◌, ◌↔◌, refl, true, false, ok, arith}
use auto_camera.Js.Number.{max_safe_integer}
use auto_camera.Domain.Money.{assert_safe_integer}
use auto_camera.Domain.Error.{invalid_project_transition, unknown_project_status}
use auto_camera.Domain.Unknown.{Unknown, string}
use auto_camera.Domain.Status.{allows, has_own}
use auto_camera.Domain.Status.Laws.{changed_iff}
use auto_camera.Domain.ProjectStatus
use auto_camera.Domain.ProjectStatus.{
  ProjectStatus, ProjectStatus-discrete, project_statuses, parse_project_status,
}
use auto_camera.Domain.Lifecycle.{project_listed, parse_project_status-name}
use auto_camera.Domain.Project.{VideoProject, over_budget, assert_project, transition_project}

owned : (s : ProjectStatus) → has_own project_statuses s ≡ true
unfolding ProjectStatus-discrete
owned ProjectStatus.draft = refl
owned _ = refl

-- The version is checked, and the status only for its spelling: a new status with the next version
-- passes the checks as long as that version is a safe integer.
pub assert_project-revised :
    (project : VideoProject) (next : ProjectStatus)
    → project.version < max_safe_integer
    → assert_project project ≡ ok tt
    → assert_project (record project { status = next; version = project.version + 1 }) ≡ ok tt
unfolding assert_project assert_safe_integer
assert_project-revised project next room h =
    rw (parse_project_status-name next) (ground (arith, parse_project_status-name project.status))

-- What a status change returns: the project with the new status and the next version.
abbrev revised : VideoProject → ProjectStatus → VideoProject
revised project next = record project { status = next; version = project.version + 1 }

-- `transitionProject` returns a project exactly if the project passes `assertProject`, the value
-- is the text of a status, and the table allows the transition to it. What it returns is the
-- project with that status and the next version, all else unchanged.
pub transition_project_iff :
    (project changed : VideoProject) (u : Unknown)
    → (transition_project project u ≡ ok changed) ↔ (
        (next : ProjectStatus) × (assert_project project ≡ ok tt)
        × (u ≡ string (ProjectStatus.name next))
        × (allows project_statuses project.status next ≡ true)
        × (changed ≡ record project { status = next; version = project.version + 1 }))
unfolding transition_project parse_project_status
transition_project_iff project changed u =
    changed_iff project_statuses project_listed owned (assert_project project) project.status
      (revised project) invalid_project_transition unknown_project_status u changed

-- A project that passes `assertProject` still does after `transitionProject`, as long as its
-- version is below the largest safe integer.
pub transition_project-valid :
    (project changed : VideoProject) (u : Unknown)
    → project.version < max_safe_integer
    → transition_project project u ≡ ok changed
    → assert_project changed ≡ ok tt
transition_project-valid project changed u room h =
    let (next, valid, _, _, same) = (transition_project_iff project changed u).0 h in
    rw same (assert_project-revised project next room valid)

assert_project-fits :
    (project : VideoProject)
    → assert_project project ≡ ok tt
    → over_budget project.budget_microusd project.spent_microusd ≡ false
unfolding assert_project
assert_project-fits project h = ground (arith, parse_project_status-name project.status)

-- What `transitionProject` returns has spent no more than its budget.
pub transition_project-fits :
    (project changed : VideoProject) (u : Unknown)
    → transition_project project u ≡ ok changed
    → over_budget changed.budget_microusd changed.spent_microusd ≡ false
transition_project-fits project changed u h =
    let (next, valid, _, _, same) = (transition_project_iff project changed u).0 h in
    rw same (assert_project-fits project valid)
