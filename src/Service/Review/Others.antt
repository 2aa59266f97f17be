-- ===== src/Service/Review/Others.antt =====
-- What a rejection, a pin, an unpin and a review leave.
use auto_camera.Common.{
  inl, inr, ◌⊎◌, ok, ℕ, ◌+◌, ◌≡◌, refl, sym, ap, ◌∙◌, Bool, true, false, Option, some, Text,
}
use auto_camera.Js.Map.{Map, get, set}
use auto_camera.Domain.AttemptStatus.{AttemptStatus}
use auto_camera.Domain.Project.{VideoProject}
use auto_camera.Domain.Shot.{Shot}
use auto_camera.Domain.Attempt.{GenerationAttempt, AttemptReviewDecision}
use auto_camera.Store.State.{MemoryState, option_eq}
use auto_camera.Store.Attempts.{find_by_id}
use auto_camera.Store.Attempts.Updates.{review_iff}
use auto_camera.Store.Projects.{update_shot, find_shot}
use auto_camera.Store.Projects.Laws.{update_shot-eq-ok, find_shot-eq-some}
use auto_camera.Store.Transaction.{World}
use auto_camera.Store.Transaction.Laws.{
  Ensures, done-Ensures, go_on-Ensures, require-Ensures, checked-Ensures, find_in-Ensures,
  call-Ensures, refuse_if-Ensures, write-Ensures, time-Ensures, Ensures-eq,
}
use auto_camera.Service.Events.{GenerationService}
use auto_camera.Service.Events.Laws.{SameEntities, append_event-Ensures, require_attempt-Ensures}
use auto_camera.Service.Review.Writes.{attempt_step, shot_step, both_written, awaiting-eq-true}
use auto_camera.Service.Review.{
  revise, unpin_shot, reject_attempt_in_transaction, pin_attempt_in_transaction,
  unpin_attempt_in_transaction, review_attempt_in_transaction,
}

-- One shot is written over the one it comes from, whose accepted attempt it keeps.
pub record Revised (shots : Map Shot) (new : Shot) (after : Map Shot) : Type 0 where
  pub key : Text
  pub old : Shot
  pub found : get key shots ≡ some old
  pub same_id : new.id ≡ old.id
  pub same_accepted : new.accepted_attempt_id ≡ old.accepted_attempt_id
  pub written : after ≡ set new.id new shots

-- One attempt is written over the one it comes from, whose status it keeps.
pub record Noted (attempts : Map GenerationAttempt) (new : GenerationAttempt)
    (after : Map GenerationAttempt) : Type 0 where
  pub key : Text
  pub old : GenerationAttempt
  pub found : get key attempts ≡ some old
  pub same_id : new.id ≡ old.id
  pub same_shot : new.shot_id ≡ old.shot_id
  pub same_status : new.status ≡ old.status
  pub written : after ≡ set key new attempts

-- One shot is written, and then events.
one_written :
    (project_id id : Text) (shot new : Shot) (version : ℕ) (s t u v : MemoryState)
    → find_shot project_id id s ≡ some shot
    → t ≡ s
    → update_shot new version t ≡ ok u
    → SameEntities u v
    → new.id ≡ shot.id
    → new.accepted_attempt_id ≡ shot.accepted_attempt_id
    → (v.projects ≡ s.projects) × (v.attempts ≡ s.attempts) × Revised s.shots new v.shots
one_written project_id id shot new version s t u v at_shot same h told same_id same_accepted =
    let two = update_shot-eq-ok new version t u h in
    (
      told.projects ∙ (ap (λ x. x.projects) two ∙ ap (λ x. x.projects) same),
      told.attempts ∙ (ap (λ x. x.attempts) two ∙ ap (λ x. x.attempts) same),
      record {
        key = id;
        old = shot;
        found = find_shot-eq-some project_id id s shot at_shot;
        same_id = same_id;
        same_accepted = same_accepted;
        written = told.shots ∙ (ap (λ x. x.shots) two ∙ ap (λ x. set new.id new x.shots) same);
      },
    )

module _ (service : GenerationService) where
  abbrev pub Rejection : World → Text → GenerationAttempt × Shot × VideoProject → World → Type 0
  Rejection w id (rejected, closed, project) w' =
      (before : GenerationAttempt) × (find_by_id service.tenant_id id w.store ≡ some before)
      × (before.status ≡ AttemptStatus.awaiting_review)
      × (rejected.status ≡ AttemptStatus.rejected)
      × (rejected.id ≡ before.id)
      × (w'.store.projects ≡ w.store.projects)
      × (w'.store.attempts ≡ set rejected.id rejected w.store.attempts)
      × Revised w.store.shots closed w'.store.shots

  pub reject-Rejection :
      (id reason : Text) (w : World)
      → Ensures (Rejection w id) (reject_attempt_in_transaction service id reason w)
  unfolding reject_attempt_in_transaction
  reject-Rejection id reason w = refuse_if-Ensures _ _ _ _ λ good.
      require_attempt-Ensures service _ _ _ λ before there. refuse_if-Ensures _ _ _ _ λ awaiting.
        find_in-Ensures _ _ _ (
          find_in-Ensures _ _ _ (
            require-Ensures _ _ _ _ λ shot at_shot. require-Ensures _ _ _ _ λ project at_project.
              checked-Ensures _ _ _ λ moved step. time-Ensures _ _ _ λ t1 w1 same1.
                checked-Ensures _ _ _ λ closed closing. time-Ensures _ _ _ λ t2 w2 same2.
                  call-Ensures _ _ _ λ written w3 h3. write-Ensures _ _ _ λ w4 h4.
                    append_event-Ensures service _ _ _ λ w5 h5.
                      let (_, moved_to) = attempt_step AttemptStatus.rejected before moved step in
                      let (closed_id, closed_names) = shot_step shot closed _ closing in
                      let (in_attempts, in_shots, in_projects) =
                        both_written _ written _ before.version shot.version w.store w2.store
                          w3.store w4.store (same2 ∙ same1) h3 h4 in
                      done-Ensures (
                        before,
                        there,
                        awaiting-eq-true before.status awaiting,
                        ap (λ x. x.status) moved_to,
                        ap (λ x. x.id) moved_to,
                        h5.projects ∙ in_projects,
                        h5.attempts ∙ in_attempts,
                        record {
                          key = before.shot_id;
                          old = shot;
                          found =
                              find_shot-eq-some before.project_id before.shot_id w.store shot
                                at_shot;
                          same_id = closed_id;
                          same_accepted = closed_names;
                          written = h5.shots ∙ in_shots;
                        },
                      )))

  revise-store :
      (shot : Shot) (w : World)
      → Ensures
          (λ revised w'.
            (now : Text) × (w'.store ≡ w.store)
            × (revised ≡ record shot { version = shot.version + 1; updated_at = now }))
          (revise service shot w)
  unfolding revise
  revise-store shot w = time-Ensures _ _ _ λ now w' same. done-Ensures (now, same, refl)

  -- A pin writes the shot, which names the attempt as its pinned one.
  abbrev pub Pinning :
      World → Text → GenerationAttempt × Shot × VideoProject × Text → World → Type 0
  Pinning w id (attempt, pinned, project, evaluation) w' =
      (find_by_id service.tenant_id id w.store ≡ some attempt)
      × (pinned.pinned_attempt_id ≡ some attempt.id)
      × (w'.store.projects ≡ w.store.projects)
      × (w'.store.attempts ≡ w.store.attempts)
      × Revised w.store.shots pinned w'.store.shots

  pub pin-Pinning :
      (id : Text) (w : World) → Ensures (Pinning w id) (pin_attempt_in_transaction service id w)
  unfolding pin_attempt_in_transaction
  pin-Pinning id w = require_attempt-Ensures service _ _ _ λ attempt there. find_in-Ensures _ _ _ (
      find_in-Ensures _ _ _ (
        require-Ensures _ _ _ _ λ shot at_shot. require-Ensures _ _ _ _ λ project at_project.
          find_in-Ensures _ _ _ (
            go_on-Ensures _ _ λ pinned w1 h1. write-Ensures _ _ _ λ w2 h2.
              append_event-Ensures service _ _ _ λ w3 h3.
                let (now, same, made) = Ensures-eq (revise-store _ w) h1 in
                let (same_projects, kept, revised) =
                  one_written attempt.project_id attempt.shot_id shot pinned shot.version w.store
                    w1.store w2.store w3.store at_shot same h2 h3 (ap (λ x. x.id) made)
                    (ap (λ x. x.accepted_attempt_id) made) in
                done-Ensures
                  (there, ap (λ x. x.pinned_attempt_id) made, same_projects, kept, revised))))

  -- An unpin leaves the shot alone, or writes it without its pinned attempt.
  abbrev pub Unpinning : World → Text → GenerationAttempt × Shot → World → Type 0
  Unpinning w id (attempt, shot) w' =
      (find_by_id service.tenant_id id w.store ≡ some attempt)
      × (option_eq shot.pinned_attempt_id (some attempt.id) ≡ false)
      × (w'.store.projects ≡ w.store.projects)
      × (w'.store.attempts ≡ w.store.attempts)
      × ((w'.store.shots ≡ w.store.shots) ⊎ Revised w.store.shots shot w'.store.shots)

  unpin_shot-Ensures :
      (attempt : GenerationAttempt) (shot : Shot) (pinned : Bool) (w : World)
      → find_shot attempt.project_id attempt.shot_id w.store ≡ some shot
      → option_eq shot.pinned_attempt_id (some attempt.id) ≡ pinned
      → Ensures
          (λ after w'.
            (option_eq after.pinned_attempt_id (some attempt.id) ≡ false)
            × (w'.store.projects ≡ w.store.projects)
            × (w'.store.attempts ≡ w.store.attempts)
            × ((w'.store.shots ≡ w.store.shots) ⊎ Revised w.store.shots after w'.store.shots))
          (unpin_shot service pinned attempt shot w)
  unfolding unpin_shot
  unpin_shot-Ensures attempt shot false w at_shot is_pinned =
      done-Ensures (is_pinned, refl, refl, inl refl)
  unpin_shot-Ensures attempt shot true w at_shot is_pinned = go_on-Ensures _ _ λ unpinned w1 h1.
      write-Ensures _ _ _ λ w2 h2. append_event-Ensures service _ _ _ λ w3 h3.
        let (now, same, made) = Ensures-eq (revise-store _ w) h1 in
        let (same_projects, kept, revised) =
          one_written attempt.project_id attempt.shot_id shot unpinned shot.version w.store w1.store
            w2.store w3.store at_shot same h2 h3 (ap (λ x. x.id) made)
            (ap (λ x. x.accepted_attempt_id) made) in
        done-Ensures (
          ap (λ x. option_eq x.pinned_attempt_id (some attempt.id)) made,
          same_projects,
          kept,
          inr revised,
        )

  pub unpin-Unpinning :
      (id : Text) (w : World) → Ensures (Unpinning w id) (unpin_attempt_in_transaction service id w)
  unfolding unpin_attempt_in_transaction
  unpin-Unpinning id w = require_attempt-Ensures service _ _ _ λ attempt there.
      find_in-Ensures _ _ _ (
        require-Ensures _ _ _ _ λ shot at_shot. go_on-Ensures _ _ λ after w1 h1.
          let (cleared, same_projects, kept, revised) =
            Ensures-eq (unpin_shot-Ensures attempt shot _ w at_shot refl) h1 in
          done-Ensures (there, cleared, same_projects, kept, revised))

  -- A review writes the attempt that it finds.
  abbrev pub Noting : World → Text → AttemptReviewDecision → GenerationAttempt → World → Type 0
  Noting w id decision reviewed w' =
      (reviewed.review_decision ≡ some decision)
      × (w'.store.projects ≡ w.store.projects)
      × (w'.store.shots ≡ w.store.shots)
      × Noted w.store.attempts reviewed w'.store.attempts

  pub review-Noting :
      (id : Text) (decision : AttemptReviewDecision) (note : Option Text) (author : Text)
      (w : World)
      → Ensures
          (Noting w id decision)
          (review_attempt_in_transaction service id decision note author w)
  unfolding review_attempt_in_transaction
  review-Noting id decision note author w = require_attempt-Ensures service _ _ _ λ attempt there.
      time-Ensures _ _ _ λ now w1 same. call-Ensures _ _ _ λ reviewed w2 h2.
        append_event-Ensures service _ _ _ λ w3 h3.
          let (current, found, _, made, written) =
            (review_iff service.tenant_id attempt.id decision note author now reviewed w1.store
                w2.store).0
              h2 in
          done-Ensures (
            ap (λ x. x.review_decision) made,
            h3.projects ∙ (ap (λ x. x.projects) written ∙ ap (λ x. x.projects) same),
            h3.shots ∙ (ap (λ x. x.shots) written ∙ ap (λ x. x.shots) same),
            record {
              key = attempt.id;
              old = current;
              found = sym (ap (λ x. get attempt.id x.attempts) same) ∙ found;
              same_id = ap (λ x. x.id) made;
              same_shot = ap (λ x. x.shot_id) made;
              same_status = ap (λ x. x.status) made;
              written =
                  h3.attempts
                  ∙ (ap (λ x. x.attempts) written
                      ∙ ap (λ x. set attempt.id reviewed x.attempts) same);
            },
          )
