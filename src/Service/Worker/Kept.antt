-- ===== src/Service/Worker/Kept.antt =====
-- The transactions of `GenerationWorker` in apps/api/src/generation.ts, what is sound, and the
-- accepted attempts of the shots.
use auto_camera.Common.{
  ℕ, ◌≡◌, ◌≢◌, refl, sym, ap, ◌∙◌, Bool, true, false, Option, none, some, Text, ok, Bool-cases, inl,
  inr,
}
use auto_camera.Js.Number.{JsNumber}
use auto_camera.Js.Map.{get}
use auto_camera.Domain.Unknown.{string}
use auto_camera.Domain.AttemptStatus
use auto_camera.Domain.AttemptStatus.{AttemptStatus, is_terminal}
use auto_camera.Domain.ShotStatus.{ShotStatus}
use auto_camera.Domain.ProjectStatus.{ProjectStatus}
use auto_camera.Domain.Project.{VideoProject}
use auto_camera.Domain.Project.Laws.{transition_project-fits}
use auto_camera.Domain.Shot.{Shot}
use auto_camera.Domain.Attempt.{
  GenerationAttempt, AttemptFailureCode, transition_generation_attempt,
}
use auto_camera.Store.State.{MemoryState}
use auto_camera.Store.Attempts.{update}
use auto_camera.Store.Attempts.Updates.{update_iff}
use auto_camera.Store.Projects.{find_shot}
use auto_camera.Store.Projects.Laws.{update_shot-eq-ok, update_project-eq-ok, find_shot-eq-some}
use auto_camera.Store.Transaction.{World}
use auto_camera.Store.Transaction.Laws.{
  Ensures, Ensures-eq, Ensures-weaken, done-Ensures, go_on-Ensures, require-Ensures,
  checked-Ensures, find_in-Ensures, call-Ensures, write_last-Ensures, time-Ensures,
}
use auto_camera.Service.Events.{GenerationService}
use auto_camera.Service.Events.Laws.{append_event-SameEntities, append_event-Ensures}
use auto_camera.Service.Review.Writes.{attempt_step, shot_step}
use auto_camera.Service.Sound.{
  Quiet, Quiet-trans, same-Quiet, SameEntities-Quiet, attempt-Quiet, shot-Quiet, project-Quiet,
}
use auto_camera.Service.Worker.{
  Failure, failed, timed_out, cancelled, failure_status, move_shot, move_found_shot, move_project,
  move_found_project, submit, persist_submitted, start, start_found, mark_running, progress_found,
  mark_progress, end_attempt, end_found, fail_attempt,
}

-- An attempt that changed its status to another one than `accepted`, and is written.
pub moved-Quiet :
    (s : AttemptStatus) (attempt moved new result : GenerationAttempt) (version : ℕ)
    (before after : MemoryState)
    → s ≢ AttemptStatus.accepted
    → transition_generation_attempt attempt (string (AttemptStatus.name s)) ≡ ok moved
    → new.status ≡ moved.status
    → update new version before ≡ ok (result, after)
    → Quiet before after
moved-Quiet s attempt moved new result version before after other step same h =
    let (_, moved_to) = attempt_step s attempt moved step in
    let (_, _, _, _, _, _, written) = (update_iff new result version before after).0 h in
    attempt-Quiet new before after
      (λ final. other (sym (ap (λ x. x.status) moved_to) ∙ (sym same ∙ final))) written

failure-not-accepted : (failure : Failure) → failure_status failure ≢ AttemptStatus.accepted
failure-not-accepted failed e = cc
failure-not-accepted timed_out e = cc
failure-not-accepted cancelled e = cc

module _ (service : GenerationService) where
  move_shot-Quiet :
      (test : Bool) (next : ShotStatus) (key : Text) (shot : Shot) (w : World)
      → get key w.store.shots ≡ some shot
      → Ensures (λ _ w'. Quiet w.store w'.store) (move_shot service test next shot w)
  unfolding move_shot
  move_shot-Quiet false next key shot w found = done-Ensures (same-Quiet w.store w.store refl)
  move_shot-Quiet true next key shot w found = checked-Ensures _ _ _ λ moved step.
      time-Ensures _ _ _ λ now w1 same. write_last-Ensures _ _ λ w2 h2.
        let (same_id, same_accepted) = shot_step shot moved _ step in
        let new : Shot = record moved { updated_at = now } in
        Quiet-trans w.store w1.store w2.store (same-Quiet w.store w1.store same) (
          shot-Quiet new w1.store w2.store
            (record {
              key = key;
              old = shot;
              found = ap (λ s. get key s.shots) same ∙ found;
              same_id = same_id;
              same_accepted = same_accepted;
              written = refl;
            })
            (update_shot-eq-ok new shot.version w1.store w2.store h2))

  pub move_found_shot-Quiet :
      (test : ShotStatus → Bool) (next : ShotStatus) (project_id key : Text) (o : Option Shot)
      (w : World)
      → find_shot project_id key w.store ≡ o
      → Ensures (λ _ w'. Quiet w.store w'.store) (move_found_shot service test next o w)
  unfolding move_found_shot
  move_found_shot-Quiet test next project_id key none w found =
      done-Ensures (same-Quiet w.store w.store refl)
  move_found_shot-Quiet test next project_id key (some shot) w found =
      move_shot-Quiet (test shot.status) next key shot w
        (find_shot-eq-some project_id key w.store shot found)

  move_project-Quiet :
      (test : Bool) (next : ProjectStatus) (project : VideoProject) (w : World)
      → Ensures (λ _ w'. Quiet w.store w'.store) (move_project service test next project w)
  unfolding move_project
  move_project-Quiet false next project w = done-Ensures (same-Quiet w.store w.store refl)
  move_project-Quiet true next project w = checked-Ensures _ _ _ λ moved step.
      time-Ensures _ _ _ λ now w1 same. write_last-Ensures _ _ λ w2 h2.
        let new : VideoProject = record moved { updated_at = now } in
        Quiet-trans w.store w1.store w2.store (same-Quiet w.store w1.store same) (
          project-Quiet new w1.store w2.store (transition_project-fits project moved _ step)
            (update_project-eq-ok new project.version w1.store w2.store h2))

  pub move_found_project-Quiet :
      (next : ProjectStatus) (o : Option VideoProject) (w : World)
      → Ensures (λ _ w'. Quiet w.store w'.store) (move_found_project service next o w)
  unfolding move_found_project
  move_found_project-Quiet next none w = done-Ensures (same-Quiet w.store w.store refl)
  move_found_project-Quiet next (some project) w = move_project-Quiet _ next project w

  submit-Quiet :
      (known : Bool) (current : GenerationAttempt) (prompt_id : Text) (w : World)
      → Ensures (λ _ w'. Quiet w.store w'.store) (submit service known current prompt_id w)
  unfolding submit
  submit-Quiet true current prompt_id w = done-Ensures (same-Quiet w.store w.store refl)
  submit-Quiet false current prompt_id w = checked-Ensures _ _ _ λ moved step.
      time-Ensures _ _ _ λ now w1 same1. time-Ensures _ _ _ λ submitted_at w2 same2.
        call-Ensures _ _ _ λ result w3 h3. append_event-Ensures service _ _ _ λ w4 told.
          done-Ensures (
            Quiet-trans w.store w2.store w4.store (same-Quiet w.store w2.store (same2 ∙ same1)) (
              Quiet-trans w2.store w3.store w4.store
                (moved-Quiet AttemptStatus.submitted current moved _ result current.version w2.store
                  w3.store (λ e. cc) step refl h3)
                (SameEntities-Quiet w3.store w4.store told)))

  pub persist_submitted-Quiet :
      (id prompt_id : Text) (w : World)
      → Ensures (λ _ w'. Quiet w.store w'.store) (persist_submitted service id prompt_id w)
  unfolding persist_submitted
  persist_submitted-Quiet id prompt_id w =
      find_in-Ensures _ _ _
        (require-Ensures _ _ _ _ λ current _. submit-Quiet _ current prompt_id w)

  start-Quiet :
      (test : Bool) (id : Text) (attempt : GenerationAttempt) (w : World)
      → Ensures (λ _ w'. Quiet w.store w'.store) (start service test id attempt w)
  unfolding start
  start-Quiet false id attempt w = done-Ensures (same-Quiet w.store w.store refl)
  start-Quiet true id attempt w = checked-Ensures _ _ _ λ moved step.
      time-Ensures _ _ _ λ now w1 same1. call-Ensures _ _ _ λ result w2 h2. find_in-Ensures _ _ _ (
        go_on-Ensures _ _ λ _ w3 h3.
          Ensures-weaken (append_event-SameEntities service _ w3) λ _ w4 told.
            Quiet-trans w.store w1.store w4.store (same-Quiet w.store w1.store same1) (
              Quiet-trans w1.store w2.store w4.store
                (moved-Quiet AttemptStatus.running attempt moved _ result attempt.version w1.store
                  w2.store (λ e. cc) step refl h2)
                (Quiet-trans w2.store w3.store w4.store
                  (Ensures-eq
                    (move_found_shot-Quiet _ _ attempt.project_id attempt.shot_id _ w2 refl) h3)
                  (SameEntities-Quiet w3.store w4.store told))))

  start_found-Quiet :
      (id : Text) (o : Option GenerationAttempt) (w : World)
      → Ensures (λ _ w'. Quiet w.store w'.store) (start_found service id o w)
  unfolding start_found
  start_found-Quiet id none w = done-Ensures (same-Quiet w.store w.store refl)
  start_found-Quiet id (some attempt) w = start-Quiet _ id attempt w

  pub mark_running-Quiet :
      (id : Text) (w : World) → Ensures (λ _ w'. Quiet w.store w'.store) (mark_running service id w)
  unfolding mark_running
  mark_running-Quiet id w = find_in-Ensures _ _ _ (start_found-Quiet id _ w)

  progress_found-Quiet :
      (value max : JsNumber) (prompt_id id : Text) (o : Option GenerationAttempt) (w : World)
      → Ensures (λ _ w'. Quiet w.store w'.store) (progress_found service value max prompt_id id o w)
  unfolding progress_found
  progress_found-Quiet value max prompt_id id none w =
      done-Ensures (same-Quiet w.store w.store refl)
  progress_found-Quiet value max prompt_id id (some attempt) w =
      elim (Bool-cases (is_terminal attempt.status)) [
        | inl e ↦ rw e (done-Ensures (same-Quiet w.store w.store refl))
        | inr e ↦ rw e (
            Ensures-weaken (append_event-SameEntities service _ w)
              λ _ w' told. SameEntities-Quiet w.store w'.store told)
      ]

  pub mark_progress-Quiet :
      (id : Text) (value max : JsNumber) (prompt_id : Text) (w : World)
      → Ensures (λ _ w'. Quiet w.store w'.store) (mark_progress service id value max prompt_id w)
  unfolding mark_progress
  mark_progress-Quiet id value max prompt_id w =
      find_in-Ensures _ _ _ (progress_found-Quiet value max prompt_id id _ w)

  end_attempt-Quiet :
      (failure : Failure) (code : AttemptFailureCode) (message id : Text)
      (attempt : GenerationAttempt) (w : World)
      → Ensures
          (λ _ w'. Quiet w.store w'.store)
          (end_attempt service failure code message id attempt w)
  unfolding end_attempt
  end_attempt-Quiet failure code message id attempt w = checked-Ensures _ _ _ λ moved step.
      time-Ensures _ _ _ λ now w1 same1. call-Ensures _ _ _ λ result w2 h2. find_in-Ensures _ _ _ (
        go_on-Ensures _ _ λ _ w3 h3. find_in-Ensures _ _ _ (
          go_on-Ensures _ _ λ _ w4 h4.
            Ensures-weaken (append_event-SameEntities service _ w4) λ _ w5 told.
              Quiet-trans w.store w2.store w5.store
                (Quiet-trans w.store w1.store w2.store (same-Quiet w.store w1.store same1) (
                  moved-Quiet (failure_status failure) attempt moved _ result attempt.version
                    w1.store w2.store (failure-not-accepted failure) step refl h2))
                (Quiet-trans w2.store w4.store w5.store
                  (Quiet-trans w2.store w3.store w4.store
                    (Ensures-eq
                      (move_found_shot-Quiet _ _ attempt.project_id attempt.shot_id _ w2 refl) h3)
                    (Ensures-eq (move_found_project-Quiet _ _ w3) h4))
                  (SameEntities-Quiet w4.store w5.store told))))

  end_found-Quiet :
      (failure : Failure) (code : AttemptFailureCode) (message id : Text)
      (o : Option GenerationAttempt) (w : World)
      → Ensures (λ _ w'. Quiet w.store w'.store) (end_found service failure code message id o w)
  unfolding end_found
  end_found-Quiet failure code message id none w = done-Ensures (same-Quiet w.store w.store refl)
  end_found-Quiet failure code message id (some attempt) w =
      elim (Bool-cases (is_terminal attempt.status)) [
        | inl e ↦ rw e (done-Ensures (same-Quiet w.store w.store refl))
        | inr e ↦ rw e (end_attempt-Quiet failure code message id attempt w)
      ]

  pub fail_attempt-Quiet :
      (id : Text) (failure : Failure) (code : AttemptFailureCode) (message : Text) (w : World)
      → Ensures (λ _ w'. Quiet w.store w'.store) (fail_attempt service id failure code message w)
  unfolding fail_attempt
  fail_attempt-Quiet id failure code message w =
      find_in-Ensures _ _ _ (end_found-Quiet failure code message id _ w)
