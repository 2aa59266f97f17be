-- ===== src/Service/Review/Once.antt =====
-- The transactions of the reviews in apps/api/src/generation.ts, and the invariant of the accepted
-- attempts.
use auto_camera.Common.{
  [], ◌∷◌, ◌≡◌, refl, sym, ap, ◌∙◌, true, false, some, Option, none, Text, is_empty, inl, inr,
}
use auto_camera.Js.Map.{Map, get, set, get-set_self, get-IsKeyed}
use auto_camera.Domain.AttemptStatus.{AttemptStatus}
use auto_camera.Domain.Project.{VideoProject}
use auto_camera.Domain.Shot.{Shot}
use auto_camera.Domain.Attempt.{GenerationAttempt, AttemptReviewDecision, truthy_text}
use auto_camera.Store.Transaction.{World}
use auto_camera.Service.Events.{GenerationService}
use auto_camera.Service.Accepted.{AcceptedOnce, attempt-AcceptedOnce, shot-AcceptedOnce}
use auto_camera.Service.Review.Accept.{Acceptance}
use auto_camera.Service.Review.Others.{Revised, Noted, Rejection, Pinning, Unpinning, Noting}

free-names :
    (o : Option Text) (id : Text) → truthy_text o ≡ false → o ≡ some id → is_empty id ≡ true
free-names none id h e = cc
free-names (some []) id h e = let same : [] ≡ id = cc in rw (← same) refl
free-names (some (c ∷ key)) id h e = cc

-- A world whose store keeps the invariant.
abbrev pub HasAcceptedOnce : World → Type 0
HasAcceptedOnce w = AcceptedOnce w.store.attempts w.store.shots

module _ {attempts : Map GenerationAttempt} {shots : Map Shot}
    (once : AcceptedOnce attempts shots) where
  pub Revised-AcceptedOnce :
      {after : Map Shot} (new : Shot) → Revised shots new after → AcceptedOnce attempts after
  Revised-AcceptedOnce new revised = rw revised.written (
      shot-AcceptedOnce once new λ old id there names solid.
        let key : revised.key ≡ new.id =
          get-IsKeyed (λ x. x.id) revised.key revised.old shots once.shots_keyed revised.found
          ∙ sym revised.same_id in
        let both : some revised.old ≡ some old =
          sym revised.found ∙ (ap (λ k. get k shots) key ∙ there) in
        let one : revised.old ≡ old = cc in
        revised.same_accepted ∙ (ap (λ x. x.accepted_attempt_id) one ∙ names))

  pub Noted-AcceptedOnce :
      {after : Map GenerationAttempt} (new : GenerationAttempt)
      → Noted attempts new after
      → AcceptedOnce after shots
  Noted-AcceptedOnce new noted =
      let key : noted.key ≡ new.id =
        get-IsKeyed (λ x. x.id) noted.key noted.old attempts once.attempts_keyed noted.found
        ∙ sym noted.same_id in
      rw (noted.written, key)
        (attempt-AcceptedOnce once new λ final.
          let (shot, at_shot, names, solid) =
            once.named noted.key noted.old noted.found (sym noted.same_status ∙ final) in
          (
            shot,
            ap (λ k. get k shots) noted.same_shot ∙ at_shot,
            names ∙ ap some (sym noted.same_id),
            ap is_empty noted.same_id ∙ solid,
          ))

module _ (service : GenerationService) (w w' : World) (once : HasAcceptedOnce w) where
  pub Acceptance-AcceptedOnce :
      (id : Text) (r : GenerationAttempt × Shot × VideoProject)
      → Acceptance service w id r w'
      → HasAcceptedOnce w'
  Acceptance-AcceptedOnce id (accepted, closed, project)
        (
          before, evaluation, shot, _, _, _, _, at_shot, free, solid, _, same_id, same_shot, names,
          closed_id, attempts, shots, _,
        ) =
      let key : before.shot_id ≡ closed.id =
        get-IsKeyed (λ x. x.id) before.shot_id shot w.store.shots once.shots_keyed at_shot
        ∙ sym closed_id in
      let closed_once = shot-AcceptedOnce once closed λ old held there held_by solid_held.
        let both : some shot ≡ some old =
          sym at_shot ∙ (ap (λ k. get k w.store.shots) key ∙ there) in
        let one : shot ≡ old = cc in
        let no : false ≡ true =
          sym solid_held
          ∙ free-names shot.accepted_attempt_id held free
              (ap (λ x. x.accepted_attempt_id) one ∙ held_by) in
        cc in
      rw (attempts, shots)
        (attempt-AcceptedOnce closed_once accepted λ _. (
          closed,
          ap (λ k. get k (set closed.id closed w.store.shots)) (same_shot ∙ key)
              ∙ get-set_self closed.id closed w.store.shots,
          names ∙ ap some (sym same_id),
          ap is_empty same_id ∙ solid,
        ))

  pub Rejection-AcceptedOnce :
      (id : Text) (r : GenerationAttempt × Shot × VideoProject)
      → Rejection service w id r w'
      → HasAcceptedOnce w'
  Rejection-AcceptedOnce id (rejected, closed, project)
        (before, _, _, status, _, _, attempts, revised) =
      Revised-AcceptedOnce
        (rw attempts (
          attempt-AcceptedOnce once rejected λ final.
            let no : AttemptStatus.rejected ≡ AttemptStatus.accepted = sym status ∙ final in cc))
        closed revised

  pub Pinning-AcceptedOnce :
      (id : Text) (r : GenerationAttempt × Shot × VideoProject × Text)
      → Pinning service w id r w'
      → HasAcceptedOnce w'
  Pinning-AcceptedOnce id (attempt, pinned, project, evaluation) (_, _, _, kept, revised) =
      rw kept (Revised-AcceptedOnce once pinned revised)

  pub Unpinning-AcceptedOnce :
      (id : Text) (r : GenerationAttempt × Shot) → Unpinning service w id r w' → HasAcceptedOnce w'
  Unpinning-AcceptedOnce id (attempt, shot) (_, _, _, kept, inl same) = rw (kept, same) once
  Unpinning-AcceptedOnce id (attempt, shot) (_, _, _, kept, inr revised) =
      rw kept (Revised-AcceptedOnce once shot revised)

  pub Noting-AcceptedOnce :
      (id : Text) (decision : AttemptReviewDecision) (reviewed : GenerationAttempt)
      → Noting service w id decision reviewed w'
      → HasAcceptedOnce w'
  Noting-AcceptedOnce id decision reviewed (_, _, kept, noted) =
      rw kept (Noted-AcceptedOnce once reviewed noted)
