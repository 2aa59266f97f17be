-- ===== src/Service/Steps.antt =====
-- Runs of the transactions of the service and of its worker, each under `store.withTransaction`.
use auto_camera.Js.Number.{JsNumber}
use auto_camera.Common.{false, ◌≡◌, sym, ap, ◌∙◌, Option, some, Text, Result, ok, err}
use auto_camera.Js.Map.{get}
use auto_camera.Domain.AttemptStatus.{AttemptStatus}
use auto_camera.Domain.Project.{VideoProject, over_budget}
use auto_camera.Domain.Shot.{Shot}
use auto_camera.Domain.Attempt.{GenerationAttempt, AttemptFailureCode, AttemptReviewDecision}
use auto_camera.Store.State.{MemoryState}
use auto_camera.Store.Projects.Laws.{find_shot-eq-some}
use auto_camera.Store.Transaction.{Thrown, World, Work, with_transaction}
use auto_camera.Store.Transaction.Laws.{
  Ensures, Ensures-eq, with_transaction-eq-ok, with_transaction-eq-err,
}
use auto_camera.Service.Events.{GenerationService}
use auto_camera.Service.Accepted.{AcceptedOnce-unique, attempt-AcceptedOnce}
use auto_camera.Service.Review.{
  accept_attempt_in_transaction, reject_attempt_in_transaction, pin_attempt_in_transaction,
  unpin_attempt_in_transaction, review_attempt_in_transaction,
}
use auto_camera.Service.Review.Accept.{accept-Acceptance}
use auto_camera.Service.Review.Others.{
  Revised, reject-Rejection, pin-Pinning, unpin-Unpinning, review-Noting,
}
use auto_camera.Service.Review.Once.{
  Revised-AcceptedOnce, Acceptance-AcceptedOnce, Rejection-AcceptedOnce, Pinning-AcceptedOnce,
  Unpinning-AcceptedOnce, Noting-AcceptedOnce,
}
use auto_camera.Service.Sound.{Sound, SoundStore, set-WithinBudget, Fits-WithinBudget}
use auto_camera.Service.Finish.{Outcome, finish_success}
use auto_camera.Service.Finish.Kept.{finish_success-Quiet}
use auto_camera.Service.Worker.{
  Failure, persist_submitted, mark_running, mark_progress, fail_attempt,
}
use auto_camera.Service.Worker.Kept.{
  persist_submitted-Quiet, mark_running-Quiet, mark_progress-Quiet, fail_attempt-Quiet,
}
use auto_camera.Service.Create.{CreateManagedAttemptCommand, create_managed_attempt_in_transaction}
use auto_camera.Service.Create.Admitted.{Admitted, create_managed_attempt-Admitted}

-- One transaction, whether it returns or throws.
pub data Step (service : GenerationService) : World → World → Type 0 where
  accepts :
      {w w' : World} (id : Text) (r : Result Thrown (GenerationAttempt × Shot × VideoProject))
      → with_transaction (accept_attempt_in_transaction service id) w ≡ (r, w')
      → Step service w w'
  rejects :
      {w w' : World} (id reason : Text)
      (r : Result Thrown (GenerationAttempt × Shot × VideoProject))
      → with_transaction (reject_attempt_in_transaction service id reason) w ≡ (r, w')
      → Step service w w'
  pins :
      {w w' : World} (id : Text)
      (r : Result Thrown (GenerationAttempt × Shot × VideoProject × Text))
      → with_transaction (pin_attempt_in_transaction service id) w ≡ (r, w')
      → Step service w w'
  unpins :
      {w w' : World} (id : Text) (r : Result Thrown (GenerationAttempt × Shot))
      → with_transaction (unpin_attempt_in_transaction service id) w ≡ (r, w')
      → Step service w w'
  reviews :
      {w w' : World} (id : Text) (decision : AttemptReviewDecision) (remark : Option Text)
      (author : Text) (r : Result Thrown GenerationAttempt)
      → with_transaction (review_attempt_in_transaction service id decision remark author) w
        ≡ (r, w')
      → Step service w w'
  creates :
      {w w' : World} (project_id shot_id : Text) (command : CreateManagedAttemptCommand)
      (source : Option Text) (r : Result Thrown GenerationAttempt)
      → with_transaction
          (create_managed_attempt_in_transaction service project_id shot_id command source)
          w
        ≡ (r, w')
      → Step service w w'
  submits :
      {w w' : World} (id prompt_id : Text) (r : Result Thrown GenerationAttempt)
      → with_transaction (persist_submitted service id prompt_id) w ≡ (r, w')
      → Step service w w'
  starts :
      {w w' : World} (id : Text) (r : Result Thrown (Unit {0}))
      → with_transaction (mark_running service id) w ≡ (r, w')
      → Step service w w'
  progresses :
      {w w' : World} (id : Text) (value max : JsNumber) (prompt_id : Text)
      (r : Result Thrown (Unit {0}))
      → with_transaction (mark_progress service id value max prompt_id) w ≡ (r, w')
      → Step service w w'
  ends :
      {w w' : World} (id : Text) (failure : Failure) (code : AttemptFailureCode) (message : Text)
      (r : Result Thrown (Unit {0}))
      → with_transaction (fail_attempt service id failure code message) w ≡ (r, w')
      → Step service w w'
  finishes :
      {w w' : World} (id : Text) (outcome : Outcome) (r : Result Thrown (Unit {0}))
      → with_transaction (finish_success service id outcome) w ≡ (r, w')
      → Step service w w'

-- A run of any number of transactions.
pub data Run (service : GenerationService) : World → World → Type 0 where
  stop : {w : World} → Run service w w
  go : {w v u : World} → Step service w v → Run service v u → Run service w u

-- What holds of the state that a transaction found, and of one that its work leaves, holds after it.
pub transaction-after :
    {A : Type 0} {P : A → World → Type 0} (Q : MemoryState → Type 0) (work : Work A) (w w' : World)
    (r : Result Thrown A)
    → Ensures P (work w)
    → ((a : A) → P a w' → Q w'.store)
    → Q w.store
    → with_transaction work w ≡ (r, w')
    → Q w'.store
transaction-after Q work w w' (ok a) ensured k start h =
    k a (Ensures-eq ensured (with_transaction-eq-ok work w h))
transaction-after Q work w w' (err e) ensured k start h =
    rw (with_transaction-eq-err work w h) start

module _ (service : GenerationService) where
  pub Admitted-Revised :
      (project_id shot_id : Text) (command : CreateManagedAttemptCommand) (w : World)
      (attempt : GenerationAttempt) (w' : World)
      (admitted : Admitted service project_id shot_id command w.store attempt w'.store)
      → Revised w.store.shots admitted.written.queued w'.store.shots
  Admitted-Revised project_id shot_id command w attempt w' admitted = record {
    key = shot_id;
    old = admitted.shot;
    found = find_shot-eq-some project_id shot_id w.store admitted.shot admitted.shot_found;
    same_id = admitted.written.same_shot;
    same_accepted = admitted.written.same_accepted;
    written = admitted.written.shots;
  }

  Admitted-Sound :
      (project_id shot_id : Text) (command : CreateManagedAttemptCommand) (w : World)
      (attempt : GenerationAttempt) (w' : World)
      → Admitted service project_id shot_id command w.store attempt w'.store
      → Sound w
      → Sound w'
  Admitted-Sound project_id shot_id command w attempt w' admitted (once, within) =
      let queued = admitted.written in
      let fits =
        ap (λ b. over_budget b queued.next.spent_microusd) queued.same_budget
        ∙ (ap (over_budget admitted.project.budget_microusd) queued.spent_microusd
            ∙ admitted.in_budget) in
      (
        Revised-AcceptedOnce
            (rw queued.attempts (
              attempt-AcceptedOnce once attempt λ final.
                let no : AttemptStatus.queued ≡ AttemptStatus.accepted =
                  sym admitted.is_queued ∙ final in
                cc))
            queued.queued (Admitted-Revised project_id shot_id command w attempt w' admitted),
        rw queued.projects (set-WithinBudget w.store.projects queued.next fits within),
      )

  pub Step-Sound : (w w' : World) → Step service w w' → Sound w → Sound w'
  Step-Sound w w' (accepts id r h) (once, within) =
      transaction-after SoundStore _ w w' r (accept-Acceptance service id w)
        (λ a p.
          let (_, _, _, _, _, _, _, _, _, _, _, _, _, _, _, _, _, fits) = p in
          (Acceptance-AcceptedOnce service w w' once id a p, Fits-WithinBudget _ _ fits within))
        (once, within) h
  Step-Sound w w' (rejects id reason r h) (once, within) =
      transaction-after SoundStore _ w w' r (reject-Rejection service id reason w)
        (λ a p.
          let (_, _, _, _, _, same, _, _) = p in
          (Rejection-AcceptedOnce service w w' once id a p, rw same within))
        (once, within) h
  Step-Sound w w' (pins id r h) (once, within) =
      transaction-after SoundStore _ w w' r (pin-Pinning service id w)
        (λ a p.
          let (_, _, same, _, _) = p in
          (Pinning-AcceptedOnce service w w' once id a p, rw same within))
        (once, within) h
  Step-Sound w w' (unpins id r h) (once, within) =
      transaction-after SoundStore _ w w' r (unpin-Unpinning service id w)
        (λ a p.
          let (_, _, same, _, _) = p in
          (Unpinning-AcceptedOnce service w w' once id a p, rw same within))
        (once, within) h
  Step-Sound w w' (reviews id decision remark author r h) (once, within) =
      transaction-after SoundStore _ w w' r (review-Noting service id decision remark author w)
        (λ a p.
          let (_, same, _, _) = p in
          (Noting-AcceptedOnce service w w' once id decision a p, rw same within))
        (once, within) h
  Step-Sound w w' (creates project_id shot_id command source r h) sound =
      transaction-after SoundStore _ w w' r
        (create_managed_attempt-Admitted service project_id shot_id command source w)
        (λ a p. Admitted-Sound project_id shot_id command w a w' p sound) sound h
  Step-Sound w w' (submits id prompt_id r h) sound =
      transaction-after SoundStore _ w w' r (persist_submitted-Quiet service id prompt_id w)
        (λ _ quiet. (quiet sound).0) sound h
  Step-Sound w w' (starts id r h) sound =
      transaction-after SoundStore _ w w' r (mark_running-Quiet service id w)
        (λ _ quiet. (quiet sound).0) sound h
  Step-Sound w w' (progresses id value max prompt_id r h) sound =
      transaction-after SoundStore _ w w' r (mark_progress-Quiet service id value max prompt_id w)
        (λ _ quiet. (quiet sound).0) sound h
  Step-Sound w w' (ends id failure code message r h) sound =
      transaction-after SoundStore _ w w' r (fail_attempt-Quiet service id failure code message w)
        (λ _ quiet. (quiet sound).0) sound h
  Step-Sound w w' (finishes id outcome r h) sound =
      transaction-after SoundStore _ w w' r (finish_success-Quiet service id outcome w)
        (λ _ quiet. (quiet sound).0) sound h

  pub Run-Sound : (w w' : World) → Run service w w' → Sound w → Sound w'
  Run-Sound w w' stop sound = sound
  Run-Sound w w' (go {v = v} step rest) sound = Run-Sound v w' rest (Step-Sound w v step sound)

  -- Along any run of acceptances, rejections, pins, unpins, reviews, creations of managed attempts
  -- and of the worker's reports of a submission, a start, a progress, a failure or a result, each a
  -- transaction that returns or throws: two accepted attempts of one shot stand under one
  -- identifier, and no project has spent more than its budget. At the start the entities stand
  -- under their own identifiers, each accepted attempt is the one its shot names, and no project is
  -- over its budget.
  pub Run-accepted_once :
      (w w' : World) (i j k : Text) (a b : GenerationAttempt) (project : VideoProject)
      → Run service w w'
      → Sound w
      → get i w'.store.attempts ≡ some a
      → get j w'.store.attempts ≡ some b
      → a.status ≡ AttemptStatus.accepted
      → b.status ≡ AttemptStatus.accepted
      → a.shot_id ≡ b.shot_id
      → get k w'.store.projects ≡ some project
      → (i ≡ j) × (over_budget project.budget_microusd project.spent_microusd ≡ false)
  Run-accepted_once w w' i j k a b project run sound at_i at_j final_a final_b same at_k =
      let (once, within) = Run-Sound w w' run sound in
      (AcceptedOnce-unique once i j a b at_i at_j final_a final_b same, within k project at_k)
