-- ===== src/Domain/AttemptStatus.antt =====
-- The statuses of a generation attempt in packages/domain/src/index.ts, with their transitions.
use auto_camera.Common.{Bool, true, false, List, [], ◌∷◌, Text, text}
use auto_camera.Domain.Error.{Checked, unknown_attempt_status}
use auto_camera.Domain.Unknown.{Unknown}
use auto_camera.Domain.Status.{StatusTable, parse_status}

pub data AttemptStatus : Type 0 where
  queued claimed submitting submitted running generated evaluating awaiting_review accepted rejected
        failed timed_out cancelled :
      AttemptStatus

unfoldable pub AttemptStatus-discrete : Discrete AttemptStatus
AttemptStatus-discrete = hlevel

-- The text of each status in the source.
abbrev pub name : AttemptStatus → Text
name queued = text "queued"
name claimed = text "claimed"
name submitting = text "submitting"
name submitted = text "submitted"
name running = text "running"
name generated = text "generated"
name evaluating = text "evaluating"
name awaiting_review = text "awaiting_review"
name accepted = text "accepted"
name rejected = text "rejected"
name failed = text "failed"
name timed_out = text "timed_out"
name cancelled = text "cancelled"

-- `GENERATION_ATTEMPT_STATUSES`
abbrev pub all_statuses : List AttemptStatus
all_statuses =
    queued ∷ claimed ∷ submitting ∷ submitted ∷ running ∷ generated ∷ evaluating ∷ awaiting_review
    ∷ accepted ∷ rejected ∷ failed ∷ timed_out ∷ cancelled ∷ []

-- `ATTEMPT_STATUS_TRANSITIONS`
abbrev pub transitions : List (AttemptStatus × List AttemptStatus)
transitions =
    (queued, claimed ∷ running ∷ cancelled ∷ failed ∷ [])
    ∷ (claimed, submitting ∷ queued ∷ cancelled ∷ failed ∷ [])
    ∷ (submitting, submitted ∷ queued ∷ failed ∷ timed_out ∷ [])
    ∷ (submitted, running ∷ failed ∷ timed_out ∷ cancelled ∷ [])
    ∷ (running, generated ∷ evaluating ∷ failed ∷ timed_out ∷ cancelled ∷ [])
    ∷ (generated, evaluating ∷ failed ∷ [])
    ∷ (evaluating, awaiting_review ∷ failed ∷ [])
    ∷ (awaiting_review, accepted ∷ rejected ∷ [])
    ∷ (accepted, [])
    ∷ (rejected, [])
    ∷ (failed, [])
    ∷ (timed_out, [])
    ∷ (cancelled, [])
    ∷ []

abbrev pub attempt_statuses : StatusTable AttemptStatus
attempt_statuses = record {
  name = name;
  all_statuses = all_statuses;
  transitions = transitions;
  discrete = AttemptStatus-discrete;
}

unfoldable pub parse_generation_attempt_status : Unknown → Checked AttemptStatus
unfolding parse_status
parse_generation_attempt_status = parse_status attempt_statuses unknown_attempt_status

abbrev pub is_terminal : AttemptStatus → Bool
is_terminal accepted = true
is_terminal rejected = true
is_terminal failed = true
is_terminal timed_out = true
is_terminal cancelled = true
is_terminal _ = false
