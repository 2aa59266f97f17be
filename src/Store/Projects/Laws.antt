-- ===== src/Store/Projects/Laws.antt =====
-- What the repositories of projects and shots write.
use auto_camera.Common.{
  ℕ, ◌≡◌, Option, none, some, ok, >>=-eq-ok, or_throw, Bool-cases, inl, inr, Text, text_eq,
}
use auto_camera.Js.Map.{get, set}
use auto_camera.Domain.Project.{VideoProject}
use auto_camera.Domain.Shot.{Shot}
use auto_camera.Store.State.{MemoryState, optimistic_conflict}
use auto_camera.Store.Projects.{
  update_project, update_shot, expected_project, expected_shot, find_shot, find_project,
  shot_of_project, project_of_tenant,
}

pub update_shot-eq-ok :
    (shot : Shot) (version : ℕ) (state after : MemoryState)
    → update_shot shot version state ≡ ok after
    → after ≡ record state { shots = set shot.id shot state.shots }
unfolding update_shot
update_shot-eq-ok shot version state after h =
    let (_, _, written) =
      >>=-eq-ok (or_throw (expected_shot version (get shot.id state.shots)) optimistic_conflict) _
        h in
    cc

pub update_project-eq-ok :
    (project : VideoProject) (version : ℕ) (state after : MemoryState)
    → update_project project version state ≡ ok after
    → after ≡ record state { projects = set project.id project state.projects }
unfolding update_project
update_project-eq-ok project version state after h =
    let (_, _, written) =
      >>=-eq-ok
        (or_throw (expected_project version (get project.id state.projects)) optimistic_conflict) _
        h in
    cc

shot_of_project-eq-some :
    (project_id : Text) (o : Option Shot) (shot : Shot)
    → shot_of_project project_id o ≡ some shot
    → o ≡ some shot
shot_of_project-eq-some project_id none shot h = cc
shot_of_project-eq-some project_id (some found) shot h =
    elim (Bool-cases (text_eq found.project_id project_id)) [
      | inl e ↦ rw e at h
      | inr e ↦ let no : ◌≡◌ {A = Option Shot} none (some shot) = rw e at h in cc
    ]

pub find_shot-eq-some :
    (project_id id : Text) (state : MemoryState) (shot : Shot)
    → find_shot project_id id state ≡ some shot
    → get id state.shots ≡ some shot
unfolding find_shot
find_shot-eq-some project_id id state shot h =
    shot_of_project-eq-some project_id (get id state.shots) shot h

project_of_tenant-eq-some :
    (tenant_id : Text) (o : Option VideoProject) (project : VideoProject)
    → project_of_tenant tenant_id o ≡ some project
    → o ≡ some project
project_of_tenant-eq-some tenant_id none project h = cc
project_of_tenant-eq-some tenant_id (some found) project h =
    elim (Bool-cases (text_eq found.tenant_id tenant_id)) [
      | inl e ↦ rw e at h
      | inr e ↦ let no : ◌≡◌ {A = Option VideoProject} none (some project) = rw e at h in cc
    ]

pub find_project-eq-some :
    (tenant_id id : Text) (state : MemoryState) (project : VideoProject)
    → find_project tenant_id id state ≡ some project
    → get id state.projects ≡ some project
unfolding find_project
find_project-eq-some tenant_id id state project h =
    project_of_tenant-eq-some tenant_id (get id state.projects) project h
