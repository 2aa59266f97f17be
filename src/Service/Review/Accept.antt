-- ===== src/Service/Review/Accept.antt =====
-- What the acceptance of an attempt rests on, and what it leaves.
use auto_camera.Common.{
  ◌⊎◌, ℕ, ◌≡◌, refl, ap, ◌∙◌, Bool, true, false, not, Option, none, some, Text, is_empty,
  Bool-cases, inl, inr,
}
use auto_camera.Js.Map.{Map, get, set}
use auto_camera.Domain.AttemptStatus.{AttemptStatus}
use auto_camera.Domain.Project.Laws.{transition_project-fits}
use auto_camera.Domain.Project.{over_budget, VideoProject}
use auto_camera.Domain.Shot.{Shot}
use auto_camera.Domain.Attempt.{GenerationAttempt, truthy_text}
use auto_camera.Domain.Event.{EvaluationResult, EvaluationStatus}
use auto_camera.Store.Attempts.{find_by_id}
use auto_camera.Store.Events.{find_evaluation}
use auto_camera.Store.Projects.Laws.{update_project-eq-ok, find_shot-eq-some}
use auto_camera.Store.Transaction.{World}
use auto_camera.Store.Transaction.Laws.{
  Ensures, done-Ensures, go_on-Ensures, require-Ensures, checked-Ensures, find_in-Ensures,
  call-Ensures, refuse_if-Ensures, write-Ensures, write_last-Ensures, time-Ensures, Ensures-eq,
}
use auto_camera.Service.Events.{GenerationService}
use auto_camera.Service.Events.Laws.{
  SameEntities, SameEntities-trans, same-SameEntities, append_event-SameEntities,
  append_event-Ensures, require_attempt-Ensures,
}
use auto_camera.Service.Review.Writes.{awaiting-eq-true, attempt_step, shot_step, both_written}
use auto_camera.Service.Review.{
  is_generating, is_passed, project_after_acceptance, write_project, announce_completion,
  accept_attempt_in_transaction,
}

-- The projects stay, or one is written whose spending is within its budget.
abbrev pub Fits : Map VideoProject → Map VideoProject → Type 0
Fits projects after =
    (after ≡ projects)
    ⊎ ((project : VideoProject) × (over_budget project.budget_microusd project.spent_microusd
          ≡ false)
        × (after ≡ set project.id project projects))

abbrev Fitting : Option VideoProject → Type 0
Fitting none = Unit
Fitting (some project) = over_budget project.budget_microusd project.spent_microusd ≡ false

module _ (service : GenerationService) where
  project_after_acceptance-Written :
      (project : VideoProject) (complete : Bool) (w : World)
      → Ensures
          (λ next w'. (w'.store ≡ w.store) × Fitting next)
          (project_after_acceptance service project complete w)
  unfolding project_after_acceptance
  project_after_acceptance-Written project true w = checked-Ensures _ _ _ λ next moved.
      time-Ensures _ _ _
        λ now w' same. done-Ensures (same, transition_project-fits project next _ moved)
  project_after_acceptance-Written project false w =
      elim (Bool-cases (is_generating project.status)) [
        | inl e ↦ rw e (
            checked-Ensures _ _ _ λ next moved.
              time-Ensures _ _ _
                λ now w' same. done-Ensures (same, transition_project-fits project next _ moved))
        | inr e ↦ rw e (done-Ensures (refl, tt))
      ]

  write_project-store :
      (o : Option VideoProject) (version : ℕ) (w : World)
      → Fitting o
      → Ensures
          (λ _ w'.
            (w'.store.attempts ≡ w.store.attempts)
            × (w'.store.shots ≡ w.store.shots)
            × Fits w.store.projects w'.store.projects)
          (write_project service o version w)
  unfolding write_project
  write_project-store none version w fits = done-Ensures (refl, refl, inl refl)
  write_project-store (some project) version w fits = write_last-Ensures _ _ λ w' h.
      let written = update_project-eq-ok project version w.store w'.store h in
      (
        ap (λ s. s.attempts) written,
        ap (λ s. s.shots) written,
        inr (project, fits, ap (λ s. s.projects) written),
      )

  announce_completion-SameEntities :
      (complete : Bool) (project_id : Text) (shot_count : ℕ) (w : World)
      → Ensures
          (λ _ w'. SameEntities w.store w'.store)
          (announce_completion service complete project_id shot_count w)
  unfolding announce_completion
  announce_completion-SameEntities false project_id shot_count w =
      done-Ensures (same-SameEntities w.store w.store refl)
  announce_completion-SameEntities true project_id shot_count w =
      append_event-SameEntities service _ w

  -- What the returned entities are, and what the store then holds.
  abbrev pub Acceptance : World → Text → GenerationAttempt × Shot × VideoProject → World → Type 0
  Acceptance w id (accepted, closed, project) w' =
      (before : GenerationAttempt) × (evaluation : EvaluationResult) × (shot : Shot) × (find_by_id
          service.tenant_id id w.store
        ≡ some before)
      × (before.status ≡ AttemptStatus.awaiting_review)
      × (find_evaluation service.tenant_id id w.store ≡ some evaluation)
      × (evaluation.status ≡ EvaluationStatus.passed)
      × (get before.shot_id w.store.shots ≡ some shot)
      × (truthy_text shot.accepted_attempt_id ≡ false)
      × (is_empty before.id ≡ false)
      × (accepted.status ≡ AttemptStatus.accepted)
      × (accepted.id ≡ before.id)
      × (accepted.shot_id ≡ before.shot_id)
      × (closed.accepted_attempt_id ≡ some before.id)
      × (closed.id ≡ shot.id)
      × (w'.store.attempts ≡ set accepted.id accepted w.store.attempts)
      × (w'.store.shots ≡ set closed.id closed w.store.shots)
      × Fits w.store.projects w'.store.projects

  passed-eq-true : (s : EvaluationStatus) → not (is_passed s) ≡ false → s ≡ EvaluationStatus.passed
  passed-eq-true EvaluationStatus.passed h = refl
  passed-eq-true EvaluationStatus.failed h = cc

  pub accept-Acceptance :
      (id : Text) (w : World)
      → Ensures (Acceptance w id) (accept_attempt_in_transaction service id w)
  unfolding accept_attempt_in_transaction
  accept-Acceptance id w = require_attempt-Ensures service _ _ _ λ before there.
      refuse_if-Ensures _ _ _ _ λ awaiting. find_in-Ensures _ _ _ (
        require-Ensures _ _ _ _ λ evaluation evaluated. refuse_if-Ensures _ _ _ _ λ passing.
          find_in-Ensures _ _ _ (
            find_in-Ensures _ _ _ (
              require-Ensures _ _ _ _ λ shot at_shot. require-Ensures _ _ _ _ λ project at_project.
                refuse_if-Ensures _ _ _ _ λ free. checked-Ensures _ _ _ λ moved step.
                  time-Ensures _ _ _ λ t1 w1 same1. checked-Ensures _ _ _ λ closed closing.
                    time-Ensures _ _ _ λ t2 w2 same2. find_in-Ensures _ _ _ (
                      go_on-Ensures _ _ λ next w3 h3. call-Ensures _ _ _ λ written w4 h4.
                        write-Ensures _ _ _ λ w5 h5. go_on-Ensures _ _ λ _ w6 h6.
                          append_event-Ensures service _ _ _ λ w7 h7. go_on-Ensures _ _ λ _ w8 h8.
                            let (solid, moved_to) =
                              attempt_step AttemptStatus.accepted before moved step in
                            let (closed_id, closed_names) = shot_step _ closed _ closing in
                            let (after_project, fitting) =
                              Ensures-eq (project_after_acceptance-Written project _ w2) h3 in
                            let (kept_attempts, kept_shots, fits) =
                              Ensures-eq (write_project-store next project.version w5 fitting) h6 in
                            let told =
                              SameEntities-trans h7
                                (Ensures-eq (announce_completion-SameEntities _ _ _ w7) h8) in
                            let (in_attempts, in_shots, in_projects) =
                              both_written _ written _ before.version shot.version w.store w3.store
                                w4.store w5.store (after_project ∙ (same2 ∙ same1)) h4 h5 in
                            done-Ensures (
                              before,
                              evaluation,
                              shot,
                              there,
                              awaiting-eq-true before.status awaiting,
                              evaluated,
                              passed-eq-true evaluation.status passing,
                              find_shot-eq-some before.project_id before.shot_id w.store shot
                                  at_shot,
                              free,
                              solid,
                              ap (λ x. x.status) moved_to,
                              ap (λ x. x.id) moved_to,
                              ap (λ x. x.shot_id) moved_to,
                              closed_names,
                              closed_id,
                              told.attempts ∙ (kept_attempts ∙ in_attempts),
                              told.shots ∙ (kept_shots ∙ in_shots),
                              rw (told.projects, ← in_projects) fits,
                            )))))
