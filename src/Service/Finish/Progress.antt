-- ===== src/Service/Finish/Progress.antt =====
-- What `finishSuccess` knows, and how an attempt gets to its evaluation.
use auto_camera.Common.{Bool, true, false, Option, none, some, Text, text, ok, ◌>>=◌ as bind}
use auto_camera.Js.Map.{Map}
use auto_camera.Js.Json.{Members}
use auto_camera.Domain.Unknown
use auto_camera.Domain.Error.{Checked}
use auto_camera.Domain.ShotStatus.{ShotStatus}
use auto_camera.Domain.AttemptStatus
use auto_camera.Domain.AttemptStatus.{AttemptStatus, is_terminal}
use auto_camera.Domain.Artifact.{ArtifactRecord}
use auto_camera.Domain.Attempt.{
  GenerationAttempt, AttemptFailureCode, media_decode_failed, transition_generation_attempt,
}
use auto_camera.Domain.Event.{EvaluationCheck, EvaluationResult, EvaluationStatus}
use auto_camera.Service.Worker.{code_text}

-- What `MediaEvaluator.evaluate` gives. Its failure code is one of `ATTEMPT_FAILURE_CODES`, to which
-- the code casts it.
pub record MediaEvaluation : Type 0 where
  pub evaluator_version : Text
  pub status : EvaluationStatus
  pub checks : Map EvaluationCheck
  pub details : Members
  pub failure_code : Option AttemptFailureCode

-- What is known when the transaction begins.
pub record Outcome : Type 0 where
  pub artifact : ArtifactRecord
  pub has_artifact : Bool
  pub artifact_created : Bool
  pub existing_evaluation : Option EvaluationResult
  pub evaluation : MediaEvaluation

abbrev pub is_claimed_attempt : AttemptStatus → Bool
is_claimed_attempt AttemptStatus.claimed = true
is_claimed_attempt _ = false

abbrev pub is_waiting : AttemptStatus → Bool
is_waiting AttemptStatus.queued = true
is_waiting AttemptStatus.submitting = true
is_waiting AttemptStatus.submitted = true
is_waiting _ = false

abbrev pub is_running : AttemptStatus → Bool
is_running AttemptStatus.running = true
is_running _ = false

abbrev pub is_generated : AttemptStatus → Bool
is_generated AttemptStatus.generated = true
is_generated _ = false

abbrev pub is_evaluating : AttemptStatus → Bool
is_evaluating AttemptStatus.evaluating = true
is_evaluating _ = false

abbrev pub is_generating_shot : ShotStatus → Bool
is_generating_shot ShotStatus.generating = true
is_generating_shot _ = false

unfoldable pub moved_if : Bool → AttemptStatus → GenerationAttempt → Checked GenerationAttempt
moved_if false next working = ok working
moved_if true next working =
    transition_generation_attempt working (Unknown.string (AttemptStatus.name next))

-- `working`, from status to status
unfoldable pub advanced : GenerationAttempt → Checked GenerationAttempt
advanced working =
    bind (moved_if (is_claimed_attempt working.status) AttemptStatus.submitting working) λ a.
      bind (moved_if (is_claimed_attempt working.status) AttemptStatus.submitted a) λ b.
        bind (moved_if (is_waiting b.status) AttemptStatus.running b) λ c.
          bind (moved_if (is_running c.status) AttemptStatus.generated c)
            λ d. moved_if (is_generated d.status) AttemptStatus.evaluating d

abbrev pub is_missing_evaluation : Option EvaluationResult → Bool
is_missing_evaluation none = true
is_missing_evaluation (some result) = false

abbrev pub status_text : EvaluationStatus → Text
status_text EvaluationStatus.passed = text "passed"
status_text EvaluationStatus.failed = text "failed"

abbrev pub failure_of : Option AttemptFailureCode → AttemptFailureCode
failure_of none = media_decode_failed
failure_of (some code) = code

abbrev pub failure_text : Option AttemptFailureCode → Text
failure_text none = text "Media evaluation failed."
failure_text (some code) = code_text code
