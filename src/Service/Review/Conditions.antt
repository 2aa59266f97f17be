-- ===== src/Service/Review/Conditions.antt =====
-- The tests and the small functions of the reviews.
use auto_camera.Common.{
  ℕ, Bool, true, false, ◌&&◌, ◌||◌, Option, none, some, List, [], ◌∷◌, Text, text, text_eq, leb,
  ◌==◌, length, all, if◌then◌else◌,
}
use auto_camera.Domain.ProjectStatus.{ProjectStatus}
use auto_camera.Domain.AttemptStatus.{AttemptStatus}
use auto_camera.Domain.Uuid.{Uuid}
use auto_camera.Domain.Shot.{Shot}
use auto_camera.Domain.Attempt.{GenerationAttempt, AttemptFailureCode, AttemptReviewDecision}
use auto_camera.Domain.Event.{EvaluationResult, EvaluationStatus}
use auto_camera.Service.Events.{GenerationService}

abbrev pub is_awaiting_review : AttemptStatus → Bool
is_awaiting_review AttemptStatus.awaiting_review = true
is_awaiting_review _ = false

abbrev pub is_passed : EvaluationStatus → Bool
is_passed EvaluationStatus.passed = true
is_passed EvaluationStatus.failed = false

abbrev pub is_generating : ProjectStatus → Bool
is_generating ProjectStatus.generating = true
is_generating _ = false

-- `clearLease`
abbrev pub clear_lease : GenerationAttempt → GenerationAttempt
clear_lease attempt = record attempt { lease_owner = none; lease_expires_at = none }

-- `setFailure`
abbrev pub set_failure :
    GenerationService → GenerationAttempt → AttemptFailureCode → Text → GenerationAttempt
set_failure service attempt code message = record attempt {
  failure_code = some code;
  failure_message = some (service.redact_failure_message message);
}

abbrev pub is_present : Option Text → Bool
is_present none = false
is_present (some value) = true

-- `shots.every(…)`
abbrev pub all_accepted : Uuid → List Shot → Bool
all_accepted shot_id =
    all (λ candidate. text_eq candidate.id shot_id || is_present candidate.accepted_attempt_id)

-- `/^[A-Z0-9][A-Z0-9_.-]{0,63}$/`
abbrev pub is_upper_or_digit : ℕ → Bool
is_upper_or_digit c = (leb b'A' c && leb c b'Z') || (leb b'0' c && leb c b'9')

abbrev pub is_reason_char : ℕ → Bool
is_reason_char c = is_upper_or_digit c || c == b'_' || c == b'.' || c == b'-'

abbrev pub is_reason : Text → Bool
is_reason [] = false
is_reason (c ∷ s) = is_upper_or_digit c && leb (length s) 63 && all is_reason_char s

abbrev pub status_at_pin : Option EvaluationResult → Text
status_at_pin none = text "not-run"
status_at_pin (some evaluation) =
    if is_passed evaluation.status then text "passed" else text "failed"

abbrev pub decision_text : AttemptReviewDecision → Text
decision_text AttemptReviewDecision.accepted = text "accepted"
decision_text AttemptReviewDecision.rejected = text "rejected"
