-- ===== src/Store/Projects.antt =====
-- `MemoryRepository.projects` and `MemoryRepository.shots` of packages/db/src/index.ts, as far as the
-- generation service calls them.
pub mod Laws
use auto_camera.Common.{
  ℕ, Bool, true, false, Option, none, some, List, ◌&&◌, Text, text_eq, ◌==◌, ok, ◌>>=◌, ◌>>◌,
  throw_if, or_throw, keep, if◌then◌else◌,
}
use auto_camera.Js.Number.{num_before}
use auto_camera.Js.Map.{get, set, has, values}
use auto_camera.Js.Sort.{sort}
use auto_camera.Domain.Uuid.{Uuid}
use auto_camera.Domain.Project.{VideoProject}
use auto_camera.Domain.Shot.{Shot}
use auto_camera.Store.State.{Stored, MemoryState, optimistic_conflict, unique_violation}

unfoldable pub create_project : VideoProject → MemoryState → Stored MemoryState
create_project project state = do
  throw_if (has project.id state.projects) unique_violation
  ok (record state { projects = set project.id project state.projects })

abbrev pub project_of_tenant : Uuid → Option VideoProject → Option VideoProject
project_of_tenant tenant_id none = none
project_of_tenant tenant_id (some project) =
    if text_eq project.tenant_id tenant_id then some project else none

unfoldable pub find_project : Uuid → Uuid → MemoryState → Option VideoProject
find_project tenant_id project_id state =
    project_of_tenant tenant_id (get project_id state.projects)

abbrev pub expected_project : ℕ → Option VideoProject → Option VideoProject
expected_project expected_version none = none
expected_project expected_version (some current) =
    if current.version == expected_version then some current else none

unfoldable pub update_project : VideoProject → ℕ → MemoryState → Stored MemoryState
update_project project expected_version state = do
  or_throw (expected_project expected_version (get project.id state.projects)) optimistic_conflict
  ok (record state { projects = set project.id project state.projects })

abbrev pub shot_of_project : Uuid → Option Shot → Option Shot
shot_of_project project_id none = none
shot_of_project project_id (some shot) =
    if text_eq shot.project_id project_id then some shot else none

unfoldable pub find_shot : Uuid → Uuid → MemoryState → Option Shot
find_shot project_id shot_id state = shot_of_project project_id (get shot_id state.shots)

unfoldable pub find_shot_any : Uuid → MemoryState → Option Shot
find_shot_any shot_id state = get shot_id state.shots

abbrev by_ordinal : Shot → Shot → Bool
by_ordinal left right = num_before left.definition.ordinal right.definition.ordinal

unfoldable pub list_shots : Uuid → MemoryState → List Shot
list_shots project_id state =
    sort by_ordinal (keep (λ shot. text_eq shot.project_id project_id) (values state.shots))

abbrev pub expected_shot : ℕ → Option Shot → Option Shot
expected_shot expected_version none = none
expected_shot expected_version (some current) =
    if current.version == expected_version then some current else none

unfoldable pub update_shot : Shot → ℕ → MemoryState → Stored MemoryState
update_shot shot expected_version state = do
  or_throw (expected_shot expected_version (get shot.id state.shots)) optimistic_conflict
  ok (record state { shots = set shot.id shot state.shots })
