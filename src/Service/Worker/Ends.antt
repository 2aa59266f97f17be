-- ===== src/Service/Worker/Ends.antt =====
-- How `failAttempt` of `GenerationWorker` in apps/api/src/generation.ts ends an attempt.
use auto_camera.Common.{
  ◌≡◌, refl, ap, ◌∙◌, Bool, true, false, Option, none, some, Text, ok, Bool-cases, inl, inr, ◌⊎◌,
}
use auto_camera.Js.Map.{Map, set}
use auto_camera.Domain.AttemptStatus.{is_terminal}
use auto_camera.Domain.ShotStatus.{ShotStatus}
use auto_camera.Domain.ProjectStatus.{ProjectStatus}
use auto_camera.Domain.Project.{VideoProject}
use auto_camera.Domain.Shot.{Shot}
use auto_camera.Domain.Attempt.{GenerationAttempt, AttemptFailureCode}
use auto_camera.Store.Attempts.{find_by_id}
use auto_camera.Store.Attempts.Updates.{update_iff}
use auto_camera.Store.Projects.Laws.{update_shot-eq-ok, update_project-eq-ok}
use auto_camera.Store.Transaction.{World, with_transaction}
use auto_camera.Store.Transaction.Laws.{
  Ensures, Ensures-eq, Ensures-weaken, done-Ensures, go_on-Ensures, checked-Ensures,
  find_in-Ensures, call-Ensures, write_last-Ensures, time-Ensures, with_transaction-eq-ok,
}
use auto_camera.Service.Events.{GenerationService}
use auto_camera.Service.Events.Laws.{append_event-SameEntities}
use auto_camera.Service.Review.{clear_lease, set_failure}
use auto_camera.Service.Review.Writes.{attempt_step}
use auto_camera.Service.Worker.{
  Failure, failure_status, move_shot, move_found_shot, move_project, move_found_project,
  end_attempt, end_found, fail_attempt,
}

-- The attempts of two worlds are the same.
abbrev pub SameAttempts : {A : Type 0} → World → A → World → Type 0
SameAttempts w _ w' = w'.store.attempts ≡ w.store.attempts

-- What stands in place of an attempt that has ended.
pub record Ended (service : GenerationService) (failure : Failure) (code : AttemptFailureCode)
    (message : Text) (before : GenerationAttempt) (attempts after : Map GenerationAttempt)
    : Type 0 where
  pub ended : GenerationAttempt
  pub same_id : ended.id ≡ before.id
  pub status : ended.status ≡ failure_status failure
  pub failure_code : ended.failure_code ≡ some code
  pub failure_message : ended.failure_message ≡ some (service.redact_failure_message message)
  pub lease_owner : ended.lease_owner ≡ none
  pub lease_expires_at : ended.lease_expires_at ≡ none
  pub written : after ≡ set ended.id ended attempts

module _ (service : GenerationService) where
  move_shot-SameAttempts :
      (test : Bool) (next : ShotStatus) (shot : Shot) (w : World)
      → Ensures (SameAttempts w) (move_shot service test next shot w)
  unfolding move_shot
  move_shot-SameAttempts false next shot w = done-Ensures refl
  move_shot-SameAttempts true next shot w = checked-Ensures _ _ _ λ moved step.
      time-Ensures _ _ _ λ now w1 same. write_last-Ensures _ _ λ w2 h2.
        ap (λ s. s.attempts) (update_shot-eq-ok _ shot.version w1.store w2.store h2)
        ∙ ap (λ s. s.attempts) same

  pub move_found_shot-SameAttempts :
      (test : ShotStatus → Bool) (next : ShotStatus) (o : Option Shot) (w : World)
      → Ensures (SameAttempts w) (move_found_shot service test next o w)
  unfolding move_found_shot
  move_found_shot-SameAttempts test next none w = done-Ensures refl
  move_found_shot-SameAttempts test next (some shot) w = move_shot-SameAttempts _ next shot w

  move_project-SameAttempts :
      (test : Bool) (next : ProjectStatus) (project : VideoProject) (w : World)
      → Ensures (SameAttempts w) (move_project service test next project w)
  unfolding move_project
  move_project-SameAttempts false next project w = done-Ensures refl
  move_project-SameAttempts true next project w = checked-Ensures _ _ _ λ moved step.
      time-Ensures _ _ _ λ now w1 same. write_last-Ensures _ _ λ w2 h2.
        ap (λ s. s.attempts) (update_project-eq-ok _ project.version w1.store w2.store h2)
        ∙ ap (λ s. s.attempts) same

  pub move_found_project-SameAttempts :
      (next : ProjectStatus) (o : Option VideoProject) (w : World)
      → Ensures (SameAttempts w) (move_found_project service next o w)
  unfolding move_found_project
  move_found_project-SameAttempts next none w = done-Ensures refl
  move_found_project-SameAttempts next (some project) w = move_project-SameAttempts _ next project w

  module _ (failure : Failure) (code : AttemptFailureCode) (message id : Text) where
    end_attempt-Ended :
        (before : GenerationAttempt) (w : World)
        → Ensures
            (λ _ w'. Ended service failure code message before w.store.attempts w'.store.attempts)
            (end_attempt service failure code message id before w)
    unfolding end_attempt
    end_attempt-Ended before w = checked-Ensures _ _ _ λ moved step.
        time-Ensures _ _ _ λ now w1 same1. call-Ensures _ _ _ λ result w2 h2.
          find_in-Ensures _ _ _ (
            go_on-Ensures _ _ λ _ w3 h3. find_in-Ensures _ _ _ (
              go_on-Ensures _ _ λ _ w4 h4.
                Ensures-weaken (append_event-SameEntities service _ w4) λ _ w5 told.
                  let (_, moved_to) = attempt_step (failure_status failure) before moved step in
                  let (_, _, _, _, _, _, stored) =
                    (update_iff _ result before.version w1.store w2.store).0 h2 in
                  let kept =
                    told.attempts
                    ∙ (Ensures-eq (move_found_project-SameAttempts _ _ w3) h4
                        ∙ Ensures-eq (move_found_shot-SameAttempts _ _ _ w2) h3) in
                  let ended =
                    set_failure service (clear_lease (record moved { updated_at = now })) code
                      message in
                  record {
                    ended = ended;
                    same_id = ap (λ x. x.id) moved_to;
                    status = ap (λ x. x.status) moved_to;
                    failure_code = refl;
                    failure_message = refl;
                    lease_owner = refl;
                    lease_expires_at = refl;
                    written =
                        kept
                        ∙ (ap (λ s. s.attempts) stored
                            ∙ ap (λ s. set ended.id ended s.attempts) same1);
                  }))

    abbrev Outcomes : Option GenerationAttempt → World → World → Type 0
    Outcomes found w w' =
        ((found ≡ none) × (w' ≡ w))
        ⊎ ((before : GenerationAttempt) × (found ≡ some before)
            × (is_terminal before.status ≡ true)
            × (w' ≡ w))
        ⊎ ((before : GenerationAttempt) × (found ≡ some before)
            × (is_terminal before.status ≡ false)
            × Ended service failure code message before w.store.attempts w'.store.attempts)

    end_found-cases :
        (found : Option GenerationAttempt) (w : World)
        → Ensures (λ _ w'. Outcomes found w w') (end_found service failure code message id found w)
    unfolding end_found
    end_found-cases none w = done-Ensures (inl (refl, refl))
    end_found-cases (some before) w = elim (Bool-cases (is_terminal before.status)) [
      | inl e ↦ rw e (done-Ensures (inr (inl (before, refl, e, refl))))
      | inr e ↦ rw e (
          Ensures-weaken (end_attempt-Ended before w)
            λ _ w' ended. inr (inr (before, refl, e, ended)))
    ]

    fail_attempt-cases :
        (w : World)
        → Ensures
            (λ _ w'. Outcomes (find_by_id service.tenant_id id w.store) w w')
            (fail_attempt service id failure code message w)
    unfolding fail_attempt
    fail_attempt-cases w = find_in-Ensures _ _ _ (end_found-cases _ w)

    -- `failAttempt`, when it returns, leaves the world alone where the attempt is missing or in a
    -- terminal status. Otherwise the store has the attempt in the status of the failure, with the
    -- code and the redacted message and under no lease, and no other attempt changed.
    pub fail_attempt_lem :
        (w w' : World)
        → with_transaction (fail_attempt service id failure code message) w ≡ (ok tt, w')
        → ((find_by_id service.tenant_id id w.store ≡ none) × (w' ≡ w))
          ⊎ ((before : GenerationAttempt) × (find_by_id service.tenant_id id w.store ≡ some before)
              × (is_terminal before.status ≡ true)
              × (w' ≡ w))
          ⊎ ((before : GenerationAttempt) × (find_by_id service.tenant_id id w.store ≡ some before)
              × (is_terminal before.status ≡ false)
              × Ended service failure code message before w.store.attempts w'.store.attempts)
    fail_attempt_lem w w' h =
        Ensures-eq (fail_attempt-cases w)
          (with_transaction-eq-ok (fail_attempt service id failure code message) w h)
