-- ===== src/Store/Revisions.antt =====
-- `workflowRevisions.findById` of the in-memory repositories in packages/db/src/index.ts.
use auto_camera.Common.{◌&&◌, Option, none, some, text_eq, if◌then◌else◌}
use auto_camera.Domain.Uuid.{Uuid}
use auto_camera.Js.Map.{get}
use auto_camera.Store.State.{MemoryState, WorkflowRevisionRecord}

abbrev revision_of :
    Uuid → Uuid → Uuid → Option WorkflowRevisionRecord → Option WorkflowRevisionRecord
revision_of tenant_id project_id shot_id none = none
revision_of tenant_id project_id shot_id (some revision) =
    if text_eq revision.tenant_id tenant_id
      && text_eq revision.project_id project_id
      && text_eq revision.shot_id shot_id
    then some revision
    else none

unfoldable pub find_revision :
    Uuid → Uuid → Uuid → Uuid → MemoryState → Option WorkflowRevisionRecord
find_revision tenant_id project_id shot_id revision_id state =
    revision_of tenant_id project_id shot_id (get revision_id state.workflow_revisions)
