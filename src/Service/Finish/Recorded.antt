-- ===== src/Service/Finish/Recorded.antt =====
-- What the steps of `finishSuccess` of apps/api/src/generation.ts leave of the attempts.
use auto_camera.Common.{
  ◌≡◌, refl, ap, ◌∙◌, Bool, true, false, Option, none, some, Text, ok, err, Bool-cases, inl, inr,
}
use auto_camera.Js.Map.{Map, set}
use auto_camera.Domain.AttemptStatus.{AttemptStatus}
use auto_camera.Domain.Artifact.{ArtifactRecord}
use auto_camera.Domain.Attempt.{GenerationAttempt, AttemptFailureCode}
use auto_camera.Domain.Event.{EvaluationResult, EvaluationStatus}
use auto_camera.Store.State.{Stored, MemoryState, unique_violation}
use auto_camera.Store.Attempts.Updates.{update_iff}
use auto_camera.Store.Artifacts.{create_artifact-eq-ok}
use auto_camera.Store.Events.{evaluated, create_evaluation}
use auto_camera.Store.Transaction.{World}
use auto_camera.Store.Transaction.Laws.{
  Ensures, Ensures-eq, Ensures-weaken, done-Ensures, go_on-Ensures, checked-Ensures,
  find_in-Ensures, call-Ensures, write_last-Ensures, time-Ensures, time-store, next_id-store,
}
use auto_camera.Service.Events.{GenerationService}
use auto_camera.Service.Events.Laws.{append_event-SameEntities, append_event-Ensures}
use auto_camera.Service.Review.{clear_lease, set_failure}
use auto_camera.Service.Review.Writes.{attempt_step}
use auto_camera.Service.Worker.Ends.{
  SameAttempts, move_found_shot-SameAttempts, move_found_project-SameAttempts,
}
use auto_camera.Service.Finish.{
  MediaEvaluation, failure_of, failure_text, keep_artifact, keep_evaluation, finish_time,
  evaluation_id, announce_evaluation, announce_artifact, announce_result, finish_passed,
  finish_failed, finish_as,
}

-- The status that a result leads to.
abbrev pub result_status : EvaluationStatus → AttemptStatus
result_status EvaluationStatus.passed = AttemptStatus.awaiting_review
result_status EvaluationStatus.failed = AttemptStatus.failed

pub record Recorded (status : EvaluationStatus) (before : GenerationAttempt)
    (attempts after : Map GenerationAttempt) : Type 0 where
  pub recorded : GenerationAttempt
  pub same_id : recorded.id ≡ before.id
  pub same_artifact : recorded.artifact_id ≡ before.artifact_id
  pub is_status : recorded.status ≡ result_status status
  pub no_owner : recorded.lease_owner ≡ none
  pub no_expiry : recorded.lease_expires_at ≡ none
  pub written : after ≡ set recorded.id recorded attempts

create_evaluation-SameAttempts :
    (result : EvaluationResult) (s t : MemoryState)
    → create_evaluation result s ≡ ok t
    → t.attempts ≡ s.attempts
unfolding create_evaluation
create_evaluation-SameAttempts result s t h = elim (Bool-cases (evaluated result s)) [
  | inl e ↦ let no : ◌≡◌ {A = Stored MemoryState} (err unique_violation) (ok t) = rw e at h in cc
  | inr e ↦
      let written : ◌≡◌ {A = Stored MemoryState}
          (ok (record s { evaluations = set result.id result s.evaluations })) (ok t) =
        rw e at h in
      let same : t ≡ record s { evaluations = set result.id result s.evaluations } = cc in
      ap (λ x. x.attempts) same
]

module _ (service : GenerationService) where
  finish_passed-Recorded :
      (current evaluating : GenerationAttempt) (w : World)
      → Ensures
          (λ _ w'. Recorded EvaluationStatus.passed evaluating w.store.attempts w'.store.attempts)
          (finish_passed service current evaluating w)
  unfolding finish_passed
  finish_passed-Recorded current evaluating w = checked-Ensures _ _ _ λ moved step.
      time-Ensures _ _ _ λ now w1 same1. call-Ensures _ _ _ λ result w2 h2. find_in-Ensures _ _ _ (
        go_on-Ensures _ _ λ _ w3 h3. find_in-Ensures _ _ _ (
          Ensures-weaken (move_found_project-SameAttempts service _ _ w3) λ _ w4 last.
            let (_, moved_to) = attempt_step AttemptStatus.awaiting_review evaluating moved step in
            let (_, _, _, _, _, _, stored) =
              (update_iff _ result evaluating.version w1.store w2.store).0 h2 in
            let reviewable = clear_lease (record moved { updated_at = now }) in
            record {
              recorded = reviewable;
              same_id = ap (λ x. x.id) moved_to;
              same_artifact = ap (λ x. x.artifact_id) moved_to;
              is_status = ap (λ x. x.status) moved_to;
              no_owner = refl;
              no_expiry = refl;
              written =
                  last
                  ∙ (Ensures-eq (move_found_shot-SameAttempts service _ _ _ w2) h3
                      ∙ (ap (λ s. s.attempts) stored
                          ∙ ap (λ s. set reviewable.id reviewable s.attempts) same1));
            }))

  finish_failed-Recorded :
      (code : Option AttemptFailureCode) (current evaluating : GenerationAttempt) (w : World)
      → Ensures
          (λ _ w'. Recorded EvaluationStatus.failed evaluating w.store.attempts w'.store.attempts)
          (finish_failed service code current evaluating w)
  unfolding finish_failed
  finish_failed-Recorded code current evaluating w = checked-Ensures _ _ _ λ moved step.
      time-Ensures _ _ _ λ now w1 same1. call-Ensures _ _ _ λ result w2 h2. find_in-Ensures _ _ _ (
        go_on-Ensures _ _ λ _ w3 h3. find_in-Ensures _ _ _ (
          Ensures-weaken (move_found_project-SameAttempts service _ _ w3) λ _ w4 last.
            let (_, moved_to) = attempt_step AttemptStatus.failed evaluating moved step in
            let (_, _, _, _, _, _, stored) =
              (update_iff _ result evaluating.version w1.store w2.store).0 h2 in
            let ended =
              set_failure service (clear_lease (record moved { updated_at = now }))
                (failure_of code) (failure_text code) in
            record {
              recorded = ended;
              same_id = ap (λ x. x.id) moved_to;
              same_artifact = ap (λ x. x.artifact_id) moved_to;
              is_status = ap (λ x. x.status) moved_to;
              no_owner = refl;
              no_expiry = refl;
              written =
                  last
                  ∙ (Ensures-eq (move_found_shot-SameAttempts service _ _ _ w2) h3
                      ∙ (ap (λ s. s.attempts) stored
                          ∙ ap (λ s. set ended.id ended s.attempts) same1));
            }))

  pub finish_as-Recorded :
      (evaluation : MediaEvaluation) (status : EvaluationStatus)
      (current evaluating : GenerationAttempt) (w : World)
      → Ensures
          (λ _ w'. Recorded status evaluating w.store.attempts w'.store.attempts)
          (finish_as service evaluation status current evaluating w)
  unfolding finish_as
  finish_as-Recorded evaluation EvaluationStatus.passed current evaluating w =
      finish_passed-Recorded current evaluating w
  finish_as-Recorded evaluation EvaluationStatus.failed current evaluating w =
      finish_failed-Recorded evaluation.failure_code current evaluating w

  pub keep_artifact-SameAttempts :
      (known : Bool) (artifact : ArtifactRecord) (w : World)
      → Ensures (SameAttempts w) (keep_artifact service known artifact w)
  unfolding keep_artifact
  keep_artifact-SameAttempts true artifact w = done-Ensures refl
  keep_artifact-SameAttempts false artifact w =
      write_last-Ensures _ _
        λ w' h. ap (λ s. s.attempts) (create_artifact-eq-ok artifact w.store w'.store h)

  pub keep_evaluation-SameAttempts :
      (missing : Bool) (result : EvaluationResult) (w : World)
      → Ensures (SameAttempts w) (keep_evaluation service missing result w)
  unfolding keep_evaluation
  keep_evaluation-SameAttempts false result w = done-Ensures refl
  keep_evaluation-SameAttempts true result w =
      write_last-Ensures _ _ λ w' h. create_evaluation-SameAttempts result w.store w'.store h

  pub finish_time-SameAttempts :
      (o : Option Text) (w : World) → Ensures (SameAttempts w) (finish_time service o w)
  unfolding finish_time
  finish_time-SameAttempts none w =
      Ensures-weaken (time-store service.clock w) λ _ w' same. ap (λ s. s.attempts) same
  finish_time-SameAttempts (some at) w = done-Ensures refl

  pub announce_evaluation-SameAttempts :
      (new : Bool) (current : GenerationAttempt) (artifact_id version : Text) (w : World)
      → Ensures (SameAttempts w) (announce_evaluation service new current artifact_id version w)
  unfolding announce_evaluation
  announce_evaluation-SameAttempts false current artifact_id version w = done-Ensures refl
  announce_evaluation-SameAttempts true current artifact_id version w =
      append_event-Ensures service _ _ _ λ w1 h1.
        Ensures-weaken (append_event-SameEntities service _ w1) λ _ w2 h2. h2.attempts ∙ h1.attempts

  pub announce_artifact-SameAttempts :
      (created : Bool) (current : GenerationAttempt) (artifact : ArtifactRecord) (w : World)
      → Ensures (SameAttempts w) (announce_artifact service created current artifact w)
  unfolding announce_artifact
  announce_artifact-SameAttempts false current artifact w = done-Ensures refl
  announce_artifact-SameAttempts true current artifact w =
      Ensures-weaken (append_event-SameEntities service _ w) λ _ w' told. told.attempts

  pub announce_result-SameAttempts :
      (new : Bool) (current : GenerationAttempt) (result : EvaluationResult) (w : World)
      → Ensures (SameAttempts w) (announce_result service new current result w)
  unfolding announce_result
  announce_result-SameAttempts false current result w = done-Ensures refl
  announce_result-SameAttempts true current result w =
      Ensures-weaken (append_event-SameEntities service _ w) λ _ w' told. told.attempts

  pub evaluation_id-SameAttempts :
      (o : Option EvaluationResult) (w : World)
      → Ensures (SameAttempts w) (evaluation_id service o w)
  unfolding evaluation_id
  evaluation_id-SameAttempts none w =
      Ensures-weaken (next_id-store service.ids w) λ _ w' same. ap (λ s. s.attempts) same
  evaluation_id-SameAttempts (some result) w = done-Ensures refl
