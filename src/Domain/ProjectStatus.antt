-- ===== src/Domain/ProjectStatus.antt =====
-- The statuses of a project in packages/domain/src/index.ts, with their transitions.
use auto_camera.Common.{List, [], ◌∷◌, Text, text}
use auto_camera.Domain.Error.{Checked, unknown_project_status}
use auto_camera.Domain.Unknown.{Unknown}
use auto_camera.Domain.Status.{StatusTable, parse_status}

pub data ProjectStatus : Type 0 where
  draft planning awaiting_storyboard_approval ready_for_generation generating needs_attention
        awaiting_final_review failed cancelled completed :
      ProjectStatus

unfoldable pub ProjectStatus-discrete : Discrete ProjectStatus
ProjectStatus-discrete = hlevel

-- The text of each status in the source.
abbrev pub name : ProjectStatus → Text
name draft = text "draft"
name planning = text "planning"
name awaiting_storyboard_approval = text "awaiting_storyboard_approval"
name ready_for_generation = text "ready_for_generation"
name generating = text "generating"
name needs_attention = text "needs_attention"
name awaiting_final_review = text "awaiting_final_review"
name failed = text "failed"
name cancelled = text "cancelled"
name completed = text "completed"

-- `PROJECT_STATUSES`
abbrev pub all_statuses : List ProjectStatus
all_statuses =
    draft ∷ planning ∷ awaiting_storyboard_approval ∷ ready_for_generation ∷ generating
    ∷ needs_attention ∷ awaiting_final_review ∷ failed ∷ cancelled ∷ completed ∷ []

-- `PROJECT_STATUS_TRANSITIONS`
abbrev pub transitions : List (ProjectStatus × List ProjectStatus)
transitions =
    (draft, planning ∷ [])
    ∷ (planning, awaiting_storyboard_approval ∷ [])
    ∷ (awaiting_storyboard_approval, planning ∷ ready_for_generation ∷ cancelled ∷ [])
    ∷ (ready_for_generation, generating ∷ cancelled ∷ [])
    ∷ (generating, awaiting_final_review ∷ needs_attention ∷ failed ∷ cancelled ∷ [])
    ∷ (needs_attention, generating ∷ cancelled ∷ [])
    ∷ (awaiting_final_review, generating ∷ completed ∷ cancelled ∷ [])
    ∷ (failed, [])
    ∷ (cancelled, [])
    ∷ (completed, [])
    ∷ []

abbrev pub project_statuses : StatusTable ProjectStatus
project_statuses = record {
  name = name;
  all_statuses = all_statuses;
  transitions = transitions;
  discrete = ProjectStatus-discrete;
}

unfoldable pub parse_project_status : Unknown → Checked ProjectStatus
unfolding parse_status
parse_project_status = parse_status project_statuses unknown_project_status
