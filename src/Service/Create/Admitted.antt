-- ===== src/Service/Create/Admitted.antt =====
-- What a managed attempt rests on, and what it leaves.
use auto_camera.Common.{
  ◌+◌, ◌≡◌, refl, sym, ap, ◌∙◌, Bool, true, false, not, Option, some, Text, leb, length,
}
use auto_camera.Domain.AttemptStatus.{AttemptStatus}
use auto_camera.Domain.Project.{VideoProject, over_budget}
use auto_camera.Domain.Creation.{create_attempt-fields}
use auto_camera.Domain.Money.Laws.{add_microusd-eq-ok}
use auto_camera.Domain.Shot.{Shot}
use auto_camera.Domain.Attempt.{GenerationAttempt}
use auto_camera.Store.State.{MemoryState, WorkflowRevisionRecord, is_validated}
use auto_camera.Store.Listing.{list_by_shot}
use auto_camera.Store.Projects.{find_project, find_shot}
use auto_camera.Store.Revisions.{find_revision}
use auto_camera.Store.Transaction.{World, refuse_if}
use auto_camera.Store.Transaction.Laws.{
  Ensures, Ensures-weaken, throws, done-Ensures, go_on-Ensures, require-Ensures, checked-Ensures,
  find_in-Ensures, refuse_if-Ensures, time-Ensures, next_id-Ensures, Ensures-eq,
}
use auto_camera.Service.Events.{GenerationService}
use auto_camera.Service.Events.Laws.{append_event-Ensures}
use auto_camera.Service.Create.{
  CreateManagedAttemptCommand, managed_execution_parameters, unsafe_execution, is_eligible,
  refuse_attempt_limit, refuse_budget, create_managed_attempt_in_transaction,
}
use auto_camera.Service.Create.Queued.{Queued, queue_attempt-Queued}

managed_execution_parameters-store :
    (revision : WorkflowRevisionRecord) (w : World)
    → Ensures
        (λ p w'. (w' ≡ w) × (unsafe_execution p ≡ false))
        (managed_execution_parameters revision w)
unfolding managed_execution_parameters
managed_execution_parameters-store revision w = require-Ensures _ _ _ _ λ width _.
    require-Ensures _ _ _ _ λ height _. require-Ensures _ _ _ _ λ duration _.
      require-Ensures _ _ _ _ λ seed _.
        require-Ensures _ _ _ _
          λ steps _. refuse_if-Ensures _ _ _ _ λ safe. done-Ensures (refl, safe)

not-eq-false : (b : Bool) → not b ≡ false → b ≡ true
not-eq-false true h = refl
not-eq-false false h = cc

module _ (service : GenerationService) where
  refuse_attempt_limit-passed :
      (test : Bool) (project_id shot_id : Text) (w : World)
      → Ensures
          (λ _ w'. (w' ≡ w) × (test ≡ false))
          (refuse_attempt_limit service test project_id shot_id w)
  unfolding refuse_attempt_limit refuse_if
  refuse_attempt_limit-passed false project_id shot_id w = done-Ensures (refl, refl)
  refuse_attempt_limit-passed true project_id shot_id w =
      append_event-Ensures service _ _ _ λ w' same. throws _ _ refl

  refuse_budget-passed :
      (test : Bool) (project_id shot_id : Text) (w : World)
      → Ensures
          (λ _ w'. (w' ≡ w) × (test ≡ false))
          (refuse_budget service test project_id shot_id w)
  unfolding refuse_budget refuse_if
  refuse_budget-passed false project_id shot_id w = done-Ensures (refl, refl)
  refuse_budget-passed true project_id shot_id w =
      append_event-Ensures service _ _ _ λ w' same. throws _ _ refl

  -- What a managed attempt rests on.
  pub record Admitted (project_id shot_id : Text) (command : CreateManagedAttemptCommand)
      (s : MemoryState) (attempt : GenerationAttempt) (t : MemoryState) : Type 0 where
    pub project : VideoProject
    pub shot : Shot
    pub revision : WorkflowRevisionRecord
    pub project_found : find_project service.tenant_id project_id s ≡ some project
    pub shot_found : find_shot project_id shot_id s ≡ some shot
    pub eligible : is_eligible shot.status ≡ true
    pub revision_found :
        find_revision service.tenant_id project_id shot_id command.workflow_revision_id s
        ≡ some revision
    pub is_valid : is_validated revision.validation_status ≡ true
    pub below_limit :
        leb service.max_attempts_per_shot
          (length (list_by_shot service.locale_compare service.tenant_id shot_id s))
        ≡ false
    pub in_budget :
        over_budget project.budget_microusd
          (project.spent_microusd + service.estimated_attempt_cost_microusd)
        ≡ false
    pub is_queued : attempt.status ≡ AttemptStatus.queued
    pub workflow_hash : attempt.workflow_hash ≡ revision.execution_hash
    pub cost : attempt.estimated_cost_microusd ≡ service.estimated_attempt_cost_microusd
    pub of_tenant : attempt.tenant_id ≡ service.tenant_id
    pub of_project : attempt.project_id ≡ project_id
    pub of_shot : attempt.shot_id ≡ shot_id
    pub same_key : attempt.idempotency_key ≡ command.idempotency_key
    pub written :
        Queued project shot
          (project.spent_microusd + service.estimated_attempt_cost_microusd)
          s
          attempt
          t

  pub create_managed_attempt-Admitted :
      (project_id shot_id : Text) (command : CreateManagedAttemptCommand) (source : Option Text)
      (w : World)
      → Ensures
          (λ attempt w'. Admitted project_id shot_id command w.store attempt w'.store)
          (create_managed_attempt_in_transaction service project_id shot_id command source w)
  unfolding create_managed_attempt_in_transaction
  create_managed_attempt-Admitted project_id shot_id command source w = find_in-Ensures _ _ _ (
      find_in-Ensures _ _ _ (
        require-Ensures _ _ _ _ λ project project_found. require-Ensures _ _ _ _ λ shot shot_found.
          refuse_if-Ensures _ _ _ _ λ eligible. find_in-Ensures _ _ _ (
            require-Ensures _ _ _ _ λ revision revision_found. refuse_if-Ensures _ _ _ _ λ valid.
              go_on-Ensures _ _ λ execution w1 h1. find_in-Ensures _ _ _ (
                go_on-Ensures _ _ λ _ w2 h2. checked-Ensures _ _ _ λ spent sum.
                  go_on-Ensures _ _ λ _ w3 h3. time-Ensures _ _ _ λ now w4 same4.
                    next_id-Ensures _ _ _ λ attempt_id w5 same5.
                      checked-Ensures _ _ _ λ attempt made.
                        let (same1, _) =
                          Ensures-eq (managed_execution_parameters-store revision w) h1 in
                        let (same2, below) =
                          Ensures-eq (refuse_attempt_limit-passed _ project.id shot_id w1) h2 in
                        let (same3, within) =
                          Ensures-eq (refuse_budget-passed _ project.id shot_id w2) h3 in
                        let total =
                          add_microusd-eq-ok project.spent_microusd
                            service.estimated_attempt_cost_microusd spent sum in
                        let (is_queued, hash, cost, of_tenant, of_project, of_shot, same_key) =
                          create_attempt-fields _ attempt made in
                        Ensures-weaken
                          (queue_attempt-Queued service project shot revision attempt spent now
                            source w.store w5
                            (same5 ∙ (same4 ∙ ap (λ x. x.store) (same3 ∙ (same2 ∙ same1)))))
                          λ result w' (same, queued). rw same (record {
                            project = project;
                            shot = shot;
                            revision = revision;
                            project_found = project_found;
                            shot_found = shot_found;
                            eligible = not-eq-false (is_eligible shot.status) eligible;
                            revision_found = revision_found;
                            is_valid = not-eq-false (is_validated revision.validation_status) valid;
                            below_limit =
                                ap
                                  (λ x. leb service.max_attempts_per_shot (
                                    length (
                                      list_by_shot service.locale_compare service.tenant_id shot_id
                                        x.store)))
                                  (sym same1)
                                ∙ below;
                            in_budget =
                                ap (over_budget project.budget_microusd) (sym total) ∙ within;
                            is_queued = is_queued;
                            workflow_hash = hash;
                            cost = cost;
                            of_tenant = of_tenant;
                            of_project = of_project;
                            of_shot = of_shot;
                            same_key = same_key;
                            written = rw⁻¹ total queued;
                          })))))
