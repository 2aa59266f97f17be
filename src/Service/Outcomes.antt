-- ===== src/Service/Outcomes.antt =====
-- `acceptAttempt` and `createManagedAttempt` of apps/api/src/generation.ts: what they promise when
-- they return, and what a refused creation leaves.
use auto_camera.Common.{
  Bool-cases, ℕ, ◌+◌, ◌≡◌, ◌↔◌, refl, sym, ap, ◌∙◌, true, false, ◌||◌, Option, some, Text, Result,
  ok, err, inl, inr, leb, length, arith, ◌==◌, ==_iff, ◌⊎◌,
}
use auto_camera.Js.Map.{get, set, get-set_self}
use auto_camera.Domain.ProjectStatus.{ProjectStatus}
use auto_camera.Domain.Project.{VideoProject, over_budget}
use auto_camera.Domain.Shot.{Shot}
use auto_camera.Domain.Attempt.{GenerationAttempt}
use auto_camera.Store.State.{Stored, MemoryState, optimistic_conflict}
use auto_camera.Store.Listing.{list_by_shot}
use auto_camera.Store.Projects.{find_project, update_project}
use auto_camera.Store.Transaction.{Thrown, World, with_transaction}
use auto_camera.Store.Transaction.Laws.{Ensures-eq, with_transaction-eq-ok, with_transaction-eq-err}
use auto_camera.Service.Events.{GenerationService}
use auto_camera.Service.Review.{accept_attempt_in_transaction}
use auto_camera.Service.Review.Accept.{Acceptance, accept-Acceptance}
use auto_camera.Service.Create.{
  CreateManagedAttemptCommand, create_managed_attempt_in_transaction, admission,
}
use auto_camera.Service.Create.Queued.{raised}
use auto_camera.Service.Create.Admitted.{Admitted, create_managed_attempt-Admitted}

updated_cases :
    (other found : VideoProject) (version : ℕ) (s : MemoryState)
    → get other.id s.projects ≡ some found
    → ((after : MemoryState) × (update_project other version s ≡ ok after))
      ↔ (found.version ≡ version)
unfolding update_project
updated_cases other found version s there = (
  λ (after, h). elim (Bool-cases (found.version == version)) [
    | inl e ↦ (==_iff found.version version).0 e
    | inr e ↦
        let no : ◌≡◌ {A = Stored MemoryState} (err optimistic_conflict) (ok after) =
          rw (there, e) at h in
        cc
  ],
  λ same. (
    record s { projects = set other.id other s.projects },
    rw (there, (==_iff found.version version).1 same) refl,
  ),
)

never : (n : ℕ) → n + 1 ≡ n → false ≡ true
never n h = ground arith

raised_generating :
    (s : ProjectStatus) (version : ℕ)
    → (raised (admission s) version ≡ version) ↔ (s ≡ ProjectStatus.generating)
raised_generating ProjectStatus.generating version = (λ _. refl, λ _. refl)
raised_generating s version = (λ h. let no = never version h in cc, λ h. cc)

outcome_cases :
    {A : Type 0} (r : Result Thrown A × World)
    → ((a : A) × (w : World) × (r ≡ (ok a, w))) ⊎ ((e : Thrown) × (w : World) × (r ≡ (err e, w)))
outcome_cases (ok a, w) = inl (a, w, refl)
outcome_cases (err e, w) = inr (e, w, refl)

module _ (service : GenerationService) where
  -- If `acceptAttempt` returns, the attempt awaited its review, its evaluation had passed, and its
  -- shot had no accepted attempt. The store then has the attempt as accepted, and the shot with the
  -- attempt as its accepted one, each written under its own identifier; no other attempt and no
  -- other shot changed.
  pub accept_attempt_lem :
      (id : Text) (r : GenerationAttempt × Shot × VideoProject) (w w' : World)
      → with_transaction (accept_attempt_in_transaction service id) w ≡ (ok r, w')
      → Acceptance service w id r w'
  accept_attempt_lem id r w w' h =
      Ensures-eq (accept-Acceptance service id w)
        (with_transaction-eq-ok (accept_attempt_in_transaction service id) w h)

  module _ (project_id shot_id : Text) (command : CreateManagedAttemptCommand)
      (source : Option Text) (w w' : World) where
    -- If `createManagedAttempt` returns, the shot was eligible and below its limit of attempts, the
    -- revision was validated, and the project's budget covers the attempt. The store then has the
    -- new attempt of that shot as queued, under an identifier that was free, with the key of the
    -- command, the execution hash of the revision and the estimated cost; the shot is queued at its
    -- next version, and the project is generating and has spent that cost more.
    pub create_managed_attempt_lem :
        (attempt : GenerationAttempt)
        → with_transaction
            (create_managed_attempt_in_transaction service project_id shot_id command source)
            w
          ≡ (ok attempt, w')
        → Admitted service project_id shot_id command w.store attempt w'.store
    create_managed_attempt_lem attempt h =
        Ensures-eq (create_managed_attempt-Admitted service project_id shot_id command source w)
          (with_transaction-eq-ok _ w h)

    -- After `createManagedAttempt` has returned, a write of the project that expects the version that
    -- the project had before still succeeds exactly if the project was in status `generating`.
    pub create_managed_attempt-stale_iff :
        (attempt : GenerationAttempt) (project other : VideoProject)
        → with_transaction
            (create_managed_attempt_in_transaction service project_id shot_id command source)
            w
          ≡ (ok attempt, w')
        → find_project service.tenant_id project_id w.store ≡ some project
        → other.id ≡ project.id
        → ((after : MemoryState) × (update_project other project.version w'.store ≡ ok after))
          ↔ (project.status ≡ ProjectStatus.generating)
    create_managed_attempt-stale_iff attempt project other h found same =
        let admitted = create_managed_attempt_lem attempt h in
        let queued = admitted.written in
        let both : some admitted.project ≡ some project = sym admitted.project_found ∙ found in
        let one : admitted.project ≡ project = cc in
        let there : get other.id w'.store.projects ≡ some queued.next =
          ap (get other.id) queued.projects
          ∙ (ap (λ k. get k (set queued.next.id queued.next w.store.projects))
                (same ∙ (ap (λ p. p.id) (sym one) ∙ sym queued.same_project))
              ∙ get-set_self queued.next.id queued.next w.store.projects) in
        let version : queued.next.version ≡ raised (admission project.status) project.version =
          queued.version ∙ ap (λ p. raised (admission p.status) p.version) one in
        let (to, from) = updated_cases other queued.next project.version w'.store there in
        let (down, up) = raised_generating project.status project.version in
        (λ h. down (sym version ∙ to h), λ g. from (version ∙ up g))

    -- `createManagedAttempt` throws where the shot is at its limit of attempts or the budget of the
    -- project does not cover another one, and the store stays as it was, without the denial event.
    pub create_managed_attempt-denied :
        (project : VideoProject)
        → find_project service.tenant_id project_id w.store ≡ some project
        → (leb service.max_attempts_per_shot
              (length (list_by_shot service.locale_compare service.tenant_id shot_id w.store))
            || over_budget project.budget_microusd
                (project.spent_microusd + service.estimated_attempt_cost_microusd))
          ≡ true
        → (e : Thrown) × (after : World) × (with_transaction
              (create_managed_attempt_in_transaction service project_id shot_id command source)
              w
            ≡ (err e, after))
          × (after.store ≡ w.store)
    create_managed_attempt-denied project found denied =
        elim (outcome_cases (
          with_transaction
            (create_managed_attempt_in_transaction service project_id shot_id command source) w)) [
              | inl (attempt, after, e) ↦
                  let admitted =
                    Ensures-eq
                      (create_managed_attempt-Admitted service project_id shot_id command source w)
                      (with_transaction-eq-ok _ w e) in
                  let both : some admitted.project ≡ some project =
                    sym admitted.project_found ∙ found in
                  let one : admitted.project ≡ project = cc in
                  let within =
                    ap
                      (λ p.
                        over_budget p.budget_microusd
                          (p.spent_microusd + service.estimated_attempt_cost_microusd))
                      (sym one)
                    ∙ admitted.in_budget in
                  let no : false ≡ true = sym (rw (admitted.below_limit, within) refl) ∙ denied in
                  cc
              | inr (thrown, after, e) ↦ (thrown, after, e, with_transaction-eq-err _ w e)
            ]
