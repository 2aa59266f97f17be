-- ===== src/Domain/Attempt/Laws.antt =====
-- When a generation attempt changes its status, and what it keeps.
use auto_camera.Common.{◌+◌, ◌<◌, ◌≡◌, ◌↔◌, refl, true, ok, arith}
use auto_camera.Js.Number.{max_safe_integer}
use auto_camera.Domain.Error.{invalid_attempt_transition, unknown_attempt_status}
use auto_camera.Domain.Unknown.{Unknown, string}
use auto_camera.Domain.Status.{allows, has_own}
use auto_camera.Domain.Status.Laws.{changed_iff}
use auto_camera.Domain.AttemptStatus
use auto_camera.Domain.AttemptStatus.{
  AttemptStatus, AttemptStatus-discrete, attempt_statuses, parse_generation_attempt_status,
}
use auto_camera.Domain.Lifecycle.{attempt_listed, parse_attempt_status-name}
use auto_camera.Domain.Money.{assert_safe_integer}
use auto_camera.Domain.Attempt.{
  GenerationAttempt, assert_attempt_request, assert_attempt_outcome, assert_attempt,
  transition_generation_attempt,
}

pub owned : (s : AttemptStatus) → has_own attempt_statuses s ≡ true
unfolding AttemptStatus-discrete
owned AttemptStatus.queued = refl
owned _ = refl

abbrev revised : GenerationAttempt → AttemptStatus → GenerationAttempt
revised attempt next = record attempt { status = next; version = attempt.version + 1 }

-- `transitionGenerationAttempt` returns an attempt exactly if the attempt passes `assertAttempt`,
-- the value is the text of a status, and the table allows the transition to it. What it returns is
-- the attempt with that status and the next version, all else unchanged.
pub transition_attempt_iff :
    (attempt changed : GenerationAttempt) (u : Unknown)
    → (transition_generation_attempt attempt u ≡ ok changed) ↔ (
        (next : AttemptStatus) × (assert_attempt attempt ≡ ok tt)
        × (u ≡ string (AttemptStatus.name next))
        × (allows attempt_statuses attempt.status next ≡ true)
        × (changed ≡ record attempt { status = next; version = attempt.version + 1 }))
unfolding transition_generation_attempt parse_generation_attempt_status
transition_attempt_iff attempt changed u =
    changed_iff attempt_statuses attempt_listed owned (assert_attempt attempt) attempt.status
      (revised attempt) invalid_attempt_transition unknown_attempt_status u changed

request-revised :
    (attempt : GenerationAttempt) (next : AttemptStatus)
    → assert_attempt_request (revised attempt next) ≡ assert_attempt_request attempt
unfolding assert_attempt_request
request-revised attempt next = refl

outcome-revised :
    (attempt : GenerationAttempt) (next : AttemptStatus)
    → assert_attempt_outcome (revised attempt next) ≡ assert_attempt_outcome attempt
unfolding assert_attempt_outcome
outcome-revised attempt next = refl

assert_attempt-revised :
    (attempt : GenerationAttempt) (next : AttemptStatus)
    → attempt.version < max_safe_integer
    → assert_attempt attempt ≡ ok tt
    → assert_attempt (record attempt { status = next; version = attempt.version + 1 }) ≡ ok tt
unfolding assert_attempt assert_safe_integer
assert_attempt-revised attempt next room h =
    rw (parse_attempt_status-name next, request-revised attempt next, outcome-revised attempt next)
      (ground (arith, parse_attempt_status-name attempt.status))

-- An attempt that passes `assertAttempt` still does after `transitionGenerationAttempt`, as long as
-- its version is below the largest safe integer.
pub transition_attempt-valid :
    (attempt changed : GenerationAttempt) (u : Unknown)
    → attempt.version < max_safe_integer
    → transition_generation_attempt attempt u ≡ ok changed
    → assert_attempt changed ≡ ok tt
transition_attempt-valid attempt changed u room h =
    let (next, valid, _, _, same) = (transition_attempt_iff attempt changed u).0 h in
    rw same (assert_attempt-revised attempt next room valid)
