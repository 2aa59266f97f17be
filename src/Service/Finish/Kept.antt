-- ===== src/Service/Finish/Kept.antt =====
-- The transaction of `finishSuccess` in apps/api/src/generation.ts, what is sound, and the accepted
-- attempts of the shots.
use auto_camera.Common.{
  ◌≡◌, refl, sym, ◌∙◌, Bool, true, false, Option, none, some, Text, ok, err, Bool-cases, inl, inr,
}
use auto_camera.Js.Map.{set}
use auto_camera.Domain.AttemptStatus.{AttemptStatus, is_terminal}
use auto_camera.Domain.Artifact.{ArtifactRecord}
use auto_camera.Domain.Attempt.{GenerationAttempt, AttemptFailureCode}
use auto_camera.Domain.Event.{EvaluationResult, EvaluationStatus}
use auto_camera.Store.State.{Stored, MemoryState, unique_violation}
use auto_camera.Store.Attempts.Updates.{update_iff}
use auto_camera.Store.Artifacts.{create_artifact-eq-ok}
use auto_camera.Store.Events.{evaluated, create_evaluation}
use auto_camera.Store.Transaction.{World}
use auto_camera.Store.Transaction.Laws.{
  Ensures, Ensures-eq, Ensures-weaken, done-Ensures, go_on-Ensures, checked-Ensures,
  find_in-Ensures, call-Ensures, write_last-Ensures, time-Ensures, time-store, next_id-store,
}
use auto_camera.Service.Events.{GenerationService}
use auto_camera.Service.Events.Laws.{
  append_event-SameEntities, append_event-Ensures, SameEntities-trans,
}
use auto_camera.Service.Sound.{Quiet, Quiet-trans, same-Quiet, SameEntities-Quiet, attempt-Quiet}
use auto_camera.Service.Worker.Kept.{moved-Quiet, move_found_shot-Quiet, move_found_project-Quiet}
use auto_camera.Service.Finish.{
  MediaEvaluation, Outcome, is_evaluating, keep_artifact, keep_evaluation, finish_time,
  evaluation_id, announce_evaluation, finish_passed, finish_failed, finish_as, announce_artifact,
  announce_result, evaluate, finish, finish_found, finish_success,
}

-- The worlds before and after a piece of work.
abbrev Calm : {A : Type 0} → World → A → World → Type 0
Calm w _ w' = Quiet w.store w'.store

is_evaluating-eq-true : (s : AttemptStatus) → is_evaluating s ≡ true → s ≡ AttemptStatus.evaluating
is_evaluating-eq-true AttemptStatus.evaluating h = refl
is_evaluating-eq-true _ h = cc

create_evaluation-Quiet :
    (result : EvaluationResult) (s t : MemoryState) → create_evaluation result s ≡ ok t → Quiet s t
unfolding create_evaluation
create_evaluation-Quiet result s t h = elim (Bool-cases (evaluated result s)) [
  | inl e ↦ let no : ◌≡◌ {A = Stored MemoryState} (err unique_violation) (ok t) = rw e at h in cc
  | inr e ↦
      let written : ◌≡◌ {A = Stored MemoryState}
          (ok (record s { evaluations = set result.id result s.evaluations })) (ok t) =
        rw e at h in
      let same : t ≡ record s { evaluations = set result.id result s.evaluations } = cc in
      λ sound. rw same (sound, λ k. refl)
]

module _ (service : GenerationService) where
  keep_artifact-Quiet :
      (known : Bool) (artifact : ArtifactRecord) (w : World)
      → Ensures (Calm w) (keep_artifact service known artifact w)
  unfolding keep_artifact
  keep_artifact-Quiet true artifact w = done-Ensures (same-Quiet w.store w.store refl)
  keep_artifact-Quiet false artifact w = write_last-Ensures _ _ λ w' h.
      let written = create_artifact-eq-ok artifact w.store w'.store h in
      λ sound. rw written (sound, λ k. refl)

  keep_evaluation-Quiet :
      (missing : Bool) (result : EvaluationResult) (w : World)
      → Ensures (Calm w) (keep_evaluation service missing result w)
  unfolding keep_evaluation
  keep_evaluation-Quiet false result w = done-Ensures (same-Quiet w.store w.store refl)
  keep_evaluation-Quiet true result w =
      write_last-Ensures _ _ λ w' h. create_evaluation-Quiet result w.store w'.store h

  finish_time-Quiet : (o : Option Text) (w : World) → Ensures (Calm w) (finish_time service o w)
  unfolding finish_time
  finish_time-Quiet none w =
      Ensures-weaken (time-store service.clock w) λ _ w' same. same-Quiet w.store w'.store same
  finish_time-Quiet (some at) w = done-Ensures (same-Quiet w.store w.store refl)

  evaluation_id-Quiet :
      (o : Option EvaluationResult) (w : World) → Ensures (Calm w) (evaluation_id service o w)
  unfolding evaluation_id
  evaluation_id-Quiet none w =
      Ensures-weaken (next_id-store service.ids w) λ _ w' same. same-Quiet w.store w'.store same
  evaluation_id-Quiet (some result) w = done-Ensures (same-Quiet w.store w.store refl)

  announce_evaluation-Quiet :
      (new : Bool) (current : GenerationAttempt) (artifact_id version : Text) (w : World)
      → Ensures (Calm w) (announce_evaluation service new current artifact_id version w)
  unfolding announce_evaluation
  announce_evaluation-Quiet false current artifact_id version w =
      done-Ensures (same-Quiet w.store w.store refl)
  announce_evaluation-Quiet true current artifact_id version w =
      append_event-Ensures service _ _ _ λ w1 h1.
        Ensures-weaken (append_event-SameEntities service _ w1)
          λ _ w2 h2. SameEntities-Quiet w.store w2.store (SameEntities-trans h1 h2)

  announce_artifact-Quiet :
      (created : Bool) (current : GenerationAttempt) (artifact : ArtifactRecord) (w : World)
      → Ensures (Calm w) (announce_artifact service created current artifact w)
  unfolding announce_artifact
  announce_artifact-Quiet false current artifact w = done-Ensures (same-Quiet w.store w.store refl)
  announce_artifact-Quiet true current artifact w =
      Ensures-weaken (append_event-SameEntities service _ w)
        λ _ w' told. SameEntities-Quiet w.store w'.store told

  announce_result-Quiet :
      (new : Bool) (current : GenerationAttempt) (result : EvaluationResult) (w : World)
      → Ensures (Calm w) (announce_result service new current result w)
  unfolding announce_result
  announce_result-Quiet false current result w = done-Ensures (same-Quiet w.store w.store refl)
  announce_result-Quiet true current result w =
      Ensures-weaken (append_event-SameEntities service _ w)
        λ _ w' told. SameEntities-Quiet w.store w'.store told

  finish_passed-Quiet :
      (current evaluating : GenerationAttempt) (w : World)
      → Ensures (Calm w) (finish_passed service current evaluating w)
  unfolding finish_passed
  finish_passed-Quiet current evaluating w = checked-Ensures _ _ _ λ moved step.
      time-Ensures _ _ _ λ now w1 same1. call-Ensures _ _ _ λ result w2 h2. find_in-Ensures _ _ _ (
        go_on-Ensures _ _ λ _ w3 h3. find_in-Ensures _ _ _ (
          Ensures-weaken (move_found_project-Quiet service _ _ w3) λ _ w4 last.
            Quiet-trans w.store w2.store w4.store
              (Quiet-trans w.store w1.store w2.store (same-Quiet w.store w1.store same1) (
                moved-Quiet AttemptStatus.awaiting_review evaluating moved _ result
                  evaluating.version w1.store w2.store (λ e. cc) step refl h2))
              (Quiet-trans w2.store w3.store w4.store
                (Ensures-eq
                  (move_found_shot-Quiet service _ _ current.project_id current.shot_id _ w2 refl)
                  h3)
                last)))

  finish_failed-Quiet :
      (code : Option AttemptFailureCode) (current evaluating : GenerationAttempt) (w : World)
      → Ensures (Calm w) (finish_failed service code current evaluating w)
  unfolding finish_failed
  finish_failed-Quiet code current evaluating w = checked-Ensures _ _ _ λ moved step.
      time-Ensures _ _ _ λ now w1 same1. call-Ensures _ _ _ λ result w2 h2. find_in-Ensures _ _ _ (
        go_on-Ensures _ _ λ _ w3 h3. find_in-Ensures _ _ _ (
          Ensures-weaken (move_found_project-Quiet service _ _ w3) λ _ w4 last.
            Quiet-trans w.store w2.store w4.store
              (Quiet-trans w.store w1.store w2.store (same-Quiet w.store w1.store same1) (
                moved-Quiet AttemptStatus.failed evaluating moved _ result evaluating.version
                  w1.store w2.store (λ e. cc) step refl h2))
              (Quiet-trans w2.store w3.store w4.store
                (Ensures-eq
                  (move_found_shot-Quiet service _ _ current.project_id current.shot_id _ w2 refl)
                  h3)
                last)))

  finish_as-Quiet :
      (evaluation : MediaEvaluation) (status : EvaluationStatus)
      (current evaluating : GenerationAttempt) (w : World)
      → Ensures (Calm w) (finish_as service evaluation status current evaluating w)
  unfolding finish_as
  finish_as-Quiet evaluation EvaluationStatus.passed current evaluating w =
      finish_passed-Quiet current evaluating w
  finish_as-Quiet evaluation EvaluationStatus.failed current evaluating w =
      finish_failed-Quiet evaluation.failure_code current evaluating w

  evaluate-Quiet :
      (reached : Bool) (outcome : Outcome) (current working : GenerationAttempt) (w : World)
      → is_evaluating working.status ≡ reached
      → Ensures (Calm w) (evaluate service reached outcome current working w)
  unfolding evaluate
  evaluate-Quiet false outcome current working w there =
      done-Ensures (same-Quiet w.store w.store refl)
  evaluate-Quiet true outcome current working w there = time-Ensures _ _ _ λ now w1 same1.
      go_on-Ensures _ _ λ id w2 h2. time-Ensures _ _ _ λ evaluated_at w3 same3.
        call-Ensures _ _ _ λ written w4 h4. go_on-Ensures _ _ λ _ w5 h5.
          go_on-Ensures _ _ λ _ w6 h6. go_on-Ensures _ _ λ _ w7 h7. go_on-Ensures _ _ λ _ w8 h8.
            Ensures-weaken (announce_result-Quiet _ current _ w8) λ _ w9 last.
              let (_, _, _, _, _, _, stored) =
                (update_iff (record working { updated_at = now }) written current.version w3.store
                    w4.store).0
                  h4 in
              let updated =
                attempt-Quiet (record working { updated_at = now }) w3.store w4.store
                  (λ final.
                    let no : AttemptStatus.evaluating ≡ AttemptStatus.accepted =
                      sym (is_evaluating-eq-true working.status there) ∙ final in
                    cc)
                  stored in
              let timed =
                Quiet-trans w.store w2.store w3.store
                  (Quiet-trans w.store w1.store w2.store (same-Quiet w.store w1.store same1)
                    (Ensures-eq (evaluation_id-Quiet outcome.existing_evaluation w1) h2))
                  (same-Quiet w2.store w3.store same3) in
              let recorded =
                Quiet-trans w4.store w5.store w6.store
                  (Ensures-eq (announce_evaluation-Quiet _ current _ _ w4) h5)
                  (Ensures-eq (keep_evaluation-Quiet _ _ w5) h6) in
              let ended =
                Quiet-trans w6.store w7.store w9.store
                  (Ensures-eq (finish_as-Quiet outcome.evaluation _ current _ w6) h7)
                  (Quiet-trans w7.store w8.store w9.store
                    (Ensures-eq (announce_artifact-Quiet _ current _ w7) h8) last) in
              Quiet-trans w.store w3.store w9.store timed (
                Quiet-trans w3.store w4.store w9.store updated
                  (Quiet-trans w4.store w6.store w9.store recorded ended))

  finish-Quiet :
      (outcome : Outcome) (current : GenerationAttempt) (w : World)
      → Ensures (Calm w) (finish service outcome current w)
  unfolding finish
  finish-Quiet outcome current w = go_on-Ensures _ _ λ _ w1 h1.
      go_on-Ensures _ _ λ finished_at w2 h2. checked-Ensures _ _ _ λ working reached.
        Ensures-weaken (evaluate-Quiet _ outcome current working w2 refl) λ _ w3 last.
          Quiet-trans w.store w2.store w3.store
            (Quiet-trans w.store w1.store w2.store
              (Ensures-eq (keep_artifact-Quiet _ outcome.artifact w) h1)
              (Ensures-eq (finish_time-Quiet current.finished_at w1) h2))
            last

  finish_found-Quiet :
      (outcome : Outcome) (o : Option GenerationAttempt) (w : World)
      → Ensures (Calm w) (finish_found service outcome o w)
  unfolding finish_found
  finish_found-Quiet outcome none w = done-Ensures (same-Quiet w.store w.store refl)
  finish_found-Quiet outcome (some current) w = elim (Bool-cases (is_terminal current.status)) [
    | inl e ↦ rw e (done-Ensures (same-Quiet w.store w.store refl))
    | inr e ↦ rw e (finish-Quiet outcome current w)
  ]

  pub finish_success-Quiet :
      (id : Text) (outcome : Outcome) (w : World)
      → Ensures (λ _ w'. Quiet w.store w'.store) (finish_success service id outcome w)
  unfolding finish_success
  finish_success-Quiet id outcome w = find_in-Ensures _ _ _ (finish_found-Quiet outcome _ w)
