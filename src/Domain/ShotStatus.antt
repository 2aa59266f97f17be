-- ===== src/Domain/ShotStatus.antt =====
-- The statuses of a shot in packages/domain/src/index.ts, with their transitions.
use auto_camera.Common.{List, [], ◌∷◌, Text, text}
use auto_camera.Domain.Error.{Checked, unknown_shot_status}
use auto_camera.Domain.Unknown.{Unknown}
use auto_camera.Domain.Status.{StatusTable, parse_status}

pub data ShotStatus : Type 0 where
  draft approved_for_generation queued generating retryable awaiting_review accepted rejected failed
        cancelled :
      ShotStatus

unfoldable pub ShotStatus-discrete : Discrete ShotStatus
ShotStatus-discrete = hlevel

-- The text of each status in the source.
abbrev pub name : ShotStatus → Text
name draft = text "draft"
name approved_for_generation = text "approved_for_generation"
name queued = text "queued"
name generating = text "generating"
name retryable = text "retryable"
name awaiting_review = text "awaiting_review"
name accepted = text "accepted"
name rejected = text "rejected"
name failed = text "failed"
name cancelled = text "cancelled"

-- `SHOT_STATUSES`
abbrev pub all_statuses : List ShotStatus
all_statuses =
    draft ∷ approved_for_generation ∷ queued ∷ generating ∷ retryable ∷ awaiting_review ∷ accepted
    ∷ rejected ∷ failed ∷ cancelled ∷ []

-- `SHOT_STATUS_TRANSITIONS`
abbrev pub transitions : List (ShotStatus × List ShotStatus)
transitions =
    (draft, approved_for_generation ∷ cancelled ∷ failed ∷ [])
    ∷ (approved_for_generation, queued ∷ cancelled ∷ failed ∷ [])
    ∷ (queued, generating ∷ retryable ∷ cancelled ∷ failed ∷ [])
    ∷ (generating, awaiting_review ∷ retryable ∷ cancelled ∷ failed ∷ [])
    ∷ (retryable, queued ∷ cancelled ∷ [])
    ∷ (awaiting_review, accepted ∷ rejected ∷ cancelled ∷ failed ∷ [])
    ∷ (accepted, [])
    ∷ (rejected, queued ∷ cancelled ∷ failed ∷ [])
    ∷ (failed, [])
    ∷ (cancelled, [])
    ∷ []

abbrev pub shot_statuses : StatusTable ShotStatus
shot_statuses = record {
  name = name;
  all_statuses = all_statuses;
  transitions = transitions;
  discrete = ShotStatus-discrete;
}

unfoldable pub parse_shot_status : Unknown → Checked ShotStatus
unfolding parse_status
parse_shot_status = parse_status shot_statuses unknown_shot_status
