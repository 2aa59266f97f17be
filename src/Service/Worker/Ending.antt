-- ===== src/Service/Worker/Ending.antt =====
-- The tests of the worker on statuses, and the ways in which an attempt ends.
use auto_camera.Common.{Bool, true, false, Text, text}
use auto_camera.Domain.ProjectStatus.{ProjectStatus}
use auto_camera.Domain.ShotStatus.{ShotStatus}
use auto_camera.Domain.AttemptStatus.{AttemptStatus}
use auto_camera.Domain.Attempt.{AttemptFailureCode}
use auto_camera.Domain.Event.{DomainEventType, attempt_failed, attempt_timed_out, attempt_cancelled}

-- The text of a code.
abbrev pub code_text : AttemptFailureCode → Text
code_text AttemptFailureCode.comfy_unavailable = text "COMFY_UNAVAILABLE"
code_text AttemptFailureCode.comfy_submission_uncertain = text "COMFY_SUBMISSION_UNCERTAIN"
code_text AttemptFailureCode.comfy_execution_failed = text "COMFY_EXECUTION_FAILED"
code_text AttemptFailureCode.capability_drift = text "CAPABILITY_DRIFT"
code_text AttemptFailureCode.comfy_interrupted = text "COMFY_INTERRUPTED"
code_text AttemptFailureCode.generation_timeout = text "GENERATION_TIMEOUT"
code_text AttemptFailureCode.artifact_download_failed = text "ARTIFACT_DOWNLOAD_FAILED"
code_text AttemptFailureCode.artifact_storage_failed = text "ARTIFACT_STORAGE_FAILED"
code_text AttemptFailureCode.media_not_found = text "MEDIA_NOT_FOUND"
code_text AttemptFailureCode.media_invalid_container = text "MEDIA_INVALID_CONTAINER"
code_text AttemptFailureCode.media_missing_video = text "MEDIA_MISSING_VIDEO"
code_text AttemptFailureCode.media_invalid_dimensions = text "MEDIA_INVALID_DIMENSIONS"
code_text AttemptFailureCode.media_invalid_duration = text "MEDIA_INVALID_DURATION"
code_text AttemptFailureCode.media_invalid_frame_rate = text "MEDIA_INVALID_FRAME_RATE"
code_text AttemptFailureCode.media_decode_failed = text "MEDIA_DECODE_FAILED"
code_text AttemptFailureCode.media_black_or_static = text "MEDIA_BLACK_OR_STATIC"
code_text AttemptFailureCode.media_checksum_mismatch = text "MEDIA_CHECKSUM_MISMATCH"
code_text AttemptFailureCode.media_size_mismatch = text "MEDIA_SIZE_MISMATCH"
code_text AttemptFailureCode.review_rejected = text "REVIEW_REJECTED"
code_text AttemptFailureCode.budget_exceeded = text "BUDGET_EXCEEDED"
code_text AttemptFailureCode.attempt_limit_reached = text "ATTEMPT_LIMIT_REACHED"

-- How an attempt ends without a result: `'failed' | 'timed_out' | 'cancelled'`.
pub data Failure : Type 0 where
  failed timed_out cancelled : Failure

abbrev pub failure_status : Failure → AttemptStatus
failure_status failed = AttemptStatus.failed
failure_status timed_out = AttemptStatus.timed_out
failure_status cancelled = AttemptStatus.cancelled

abbrev pub failure_event : Failure → DomainEventType
failure_event failed = attempt_failed
failure_event timed_out = attempt_timed_out
failure_event cancelled = attempt_cancelled

-- `RECOVERABLE_FAILURE_CODES`
abbrev pub is_recoverable_code : AttemptFailureCode → Bool
is_recoverable_code AttemptFailureCode.comfy_unavailable = true
is_recoverable_code AttemptFailureCode.comfy_submission_uncertain = true
is_recoverable_code AttemptFailureCode.comfy_execution_failed = true
is_recoverable_code AttemptFailureCode.capability_drift = true
is_recoverable_code AttemptFailureCode.generation_timeout = true
is_recoverable_code AttemptFailureCode.artifact_download_failed = true
is_recoverable_code AttemptFailureCode.artifact_storage_failed = true
is_recoverable_code _ = false

abbrev pub recoverable_failure : Failure → AttemptFailureCode → Bool
recoverable_failure cancelled code = false
recoverable_failure _ code = is_recoverable_code code

abbrev pub shot_after_failure : Failure → Bool → ShotStatus
shot_after_failure cancelled recoverable = ShotStatus.cancelled
shot_after_failure _ true = ShotStatus.retryable
shot_after_failure _ false = ShotStatus.failed

abbrev pub project_after_failure : Failure → Bool → ProjectStatus
project_after_failure cancelled recoverable = ProjectStatus.cancelled
project_after_failure _ true = ProjectStatus.needs_attention
project_after_failure _ false = ProjectStatus.failed

abbrev pub is_unfinished : ShotStatus → Bool
is_unfinished ShotStatus.queued = true
is_unfinished ShotStatus.generating = true
is_unfinished _ = false

abbrev pub is_queued_shot : ShotStatus → Bool
is_queued_shot ShotStatus.queued = true
is_queued_shot _ = false

abbrev pub can_start : AttemptStatus → Bool
can_start AttemptStatus.queued = true
can_start AttemptStatus.submitted = true
can_start AttemptStatus.submitting = true
can_start _ = false

abbrev pub is_submitting : AttemptStatus → Bool
is_submitting AttemptStatus.submitting = true
is_submitting _ = false
