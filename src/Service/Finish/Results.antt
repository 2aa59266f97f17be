-- ===== src/Service/Finish/Results.antt =====
-- The transaction of `finishSuccess` of `GenerationWorker` in apps/api/src/generation.ts.
use auto_camera.Common.{
  ◌≡◌, ◌⊎◌, refl, sym, ap, ◌∙◌, Bool, true, false, not, ◌||◌, Option, none, some, Text, text_eq, ok,
  Bool-cases, inl, inr,
}
use auto_camera.Js.Map.{Map, get, set, get-set, get-set_self}
use auto_camera.Domain.AttemptStatus.{is_terminal}
use auto_camera.Domain.Attempt.{GenerationAttempt}
use auto_camera.Store.Attempts.{find_by_id}
use auto_camera.Store.Attempts.Updates.{update_iff}
use auto_camera.Store.Transaction.{World, with_transaction}
use auto_camera.Store.Transaction.Laws.{
  Ensures, Ensures-eq, Ensures-weaken, done-Ensures, go_on-Ensures, checked-Ensures,
  find_in-Ensures, call-Ensures, time-Ensures, with_transaction-eq-ok,
}
use auto_camera.Service.Events.{GenerationService}
use auto_camera.Service.Review.{is_awaiting_review}
use auto_camera.Service.Finish.{Outcome, evaluate, finish, finish_found, finish_success}
use auto_camera.Service.Finish.Advance.{advanced-SameRun, advanced-cases}
use auto_camera.Service.Finish.Recorded.{
  result_status, finish_as-Recorded, keep_artifact-SameAttempts, keep_evaluation-SameAttempts,
  finish_time-SameAttempts, evaluation_id-SameAttempts, announce_evaluation-SameAttempts,
  announce_artifact-SameAttempts, announce_result-SameAttempts,
}

-- The attempt `before` stands in `after` with its artifact in the status that its evaluation leads
-- to, without a lease, and the other attempts are those of `attempts`.
pub record Concluded (outcome : Outcome) (before : GenerationAttempt)
    (attempts after : Map GenerationAttempt) : Type 0 where
  pub concluded : GenerationAttempt
  pub same_id : concluded.id ≡ before.id
  pub artifact : concluded.artifact_id ≡ some outcome.artifact.id
  pub is_status : concluded.status ≡ result_status outcome.evaluation.status
  pub no_owner : concluded.lease_owner ≡ none
  pub no_expiry : concluded.lease_expires_at ≡ none
  pub there : get before.id after ≡ some concluded
  pub others : (j : Text) → text_eq before.id j ≡ false → get j after ≡ get j attempts

get-set_apart :
    (key j : Text) (new : GenerationAttempt) (m : Map GenerationAttempt)
    → text_eq key j ≡ false
    → get j (set key new m) ≡ get j m
get-set_apart key j new m apart = get-set key j new m ∙ rw apart refl

-- Two writes under one identifier leave the others alone.
written_twice :
    (id key last_key j : Text) (one two : GenerationAttempt) (m n after : Map GenerationAttempt)
    → key ≡ id
    → last_key ≡ id
    → n ≡ set key one m
    → after ≡ set last_key two n
    → text_eq id j ≡ false
    → get j after ≡ get j m
written_twice id key last_key j one two m n after k l first last apart =
    ap (get j) last
    ∙ (get-set_apart last_key j two n (ap (λ i. text_eq i j) l ∙ apart)
        ∙ (ap (get j) first ∙ get-set_apart key j one m (ap (λ i. text_eq i j) k ∙ apart)))

-- What `finish` leaves of the attempts, by whether the attempt awaits its review.
abbrev Finished :
    Outcome → Bool → GenerationAttempt → Map GenerationAttempt → Map GenerationAttempt → Type 0
Finished outcome awaits before attempts after =
    ((awaits ≡ true) × (after ≡ attempts))
    ⊎ ((awaits ≡ false) × Concluded outcome before attempts after)

turned : {c : Bool} (a b : Bool) → a ≡ not b → not a ≡ c → b ≡ c
turned a true h k = rw h at k
turned a false h k = rw h at k

module _ (service : GenerationService) (outcome : Outcome) where
  evaluate-Finished :
      (reached : Bool) (current working : GenerationAttempt) (w : World)
      → working.artifact_id ≡ some outcome.artifact.id
      → Ensures
          (λ _ w'. Finished outcome (not reached) working w.store.attempts w'.store.attempts)
          (evaluate service reached outcome current working w)
  unfolding evaluate
  evaluate-Finished false current working w artifact = done-Ensures (inl (refl, refl))
  evaluate-Finished true current working w artifact = time-Ensures _ _ _ λ now w1 same1.
      go_on-Ensures _ _ λ id w2 h2. time-Ensures _ _ _ λ evaluated_at w3 same3.
        call-Ensures _ _ _ λ written w4 h4. go_on-Ensures _ _ λ _ w5 h5.
          go_on-Ensures _ _ λ _ w6 h6. go_on-Ensures _ _ λ _ w7 h7. go_on-Ensures _ _ λ _ w8 h8.
            Ensures-weaken (announce_result-SameAttempts service _ current _ w8) λ _ w9 last.
              let evaluating : GenerationAttempt = record working { updated_at = now } in
              let (_, _, _, _, _, _, stored) =
                (update_iff _ written current.version w3.store w4.store).0 h4 in
              let read =
                ap (λ s. s.attempts) same3
                ∙ (Ensures-eq (evaluation_id-SameAttempts service outcome.existing_evaluation w1) h2
                    ∙ ap (λ s. s.attempts) same1) in
              let first =
                Ensures-eq (keep_evaluation-SameAttempts service _ _ w5) h6
                ∙ (Ensures-eq (announce_evaluation-SameAttempts service _ current _ _ w4) h5
                    ∙ (ap (λ s. s.attempts) stored ∙ ap (set evaluating.id evaluating) read)) in
              let ended =
                Ensures-eq (finish_as-Recorded service outcome.evaluation _ current _ w6) h7 in
              let kept =
                last ∙ Ensures-eq (announce_artifact-SameAttempts service _ current _ w7) h8 in
              inr (
                refl,
                record {
                  concluded = ended.recorded;
                  same_id = ended.same_id;
                  artifact = ended.same_artifact ∙ artifact;
                  is_status = ended.is_status;
                  no_owner = ended.no_owner;
                  no_expiry = ended.no_expiry;
                  there =
                      ap (λ i. get i w9.store.attempts) (sym ended.same_id)
                      ∙ (ap (get ended.recorded.id) (kept ∙ ended.written)
                          ∙ get-set_self ended.recorded.id ended.recorded w6.store.attempts);
                  others = λ j apart.
                      written_twice working.id evaluating.id ended.recorded.id j evaluating
                        ended.recorded w.store.attempts w6.store.attempts w9.store.attempts refl
                        ended.same_id first (kept ∙ ended.written) apart;
                },
              )

  finish-Finished :
      (current : GenerationAttempt) (w : World)
      → is_terminal current.status ≡ false
      → Ensures
          (λ _ w'.
            Finished outcome
              (is_awaiting_review current.status)
              current
              w.store.attempts
              w'.store.attempts)
          (finish service outcome current w)
  unfolding finish
  finish-Finished current w unfinished = go_on-Ensures _ _ λ _ w1 h1.
      go_on-Ensures _ _ λ finished_at w2 h2. checked-Ensures _ _ _ λ working reached.
        let ((same_id, same_artifact), _) = advanced-SameRun _ working reached in
        let awaits = advanced-cases _ working unfinished reached in
        let kept =
          Ensures-eq (finish_time-SameAttempts service current.finished_at w1) h2
          ∙ Ensures-eq (keep_artifact-SameAttempts service _ outcome.artifact w) h1 in
        Ensures-weaken (evaluate-Finished _ current working w2 same_artifact) λ _ w3 last.
          elim last [
            | inl (missed, same) ↦ inl (turned _ _ awaits missed, same ∙ kept)
            | inr (missed, done) ↦ inr (
              turned _ _ awaits missed,
              record {
                concluded = done.concluded;
                same_id = done.same_id ∙ same_id;
                artifact = done.artifact;
                is_status = done.is_status;
                no_owner = done.no_owner;
                no_expiry = done.no_expiry;
                there = ap (λ i. get i w3.store.attempts) (sym same_id) ∙ done.there;
                others = λ j apart.
                    done.others j (ap (λ i. text_eq i j) same_id ∙ apart) ∙ ap (get j) kept;
              },
            )
          ]

  finish_found-cases :
      (found : Option GenerationAttempt) (w : World)
      → Ensures
          (λ _ w'.
            ((found ≡ none) × (w'.store.attempts ≡ w.store.attempts))
            ⊎ ((before : GenerationAttempt) × (found ≡ some before)
                × ((is_terminal before.status || is_awaiting_review before.status) ≡ true)
                × (w'.store.attempts ≡ w.store.attempts))
            ⊎ ((before : GenerationAttempt) × (found ≡ some before)
                × ((is_terminal before.status || is_awaiting_review before.status) ≡ false)
                × Concluded outcome before w.store.attempts w'.store.attempts))
          (finish_found service outcome found w)
  unfolding finish_found
  finish_found-cases none w = done-Ensures (inl (refl, refl))
  finish_found-cases (some before) w = elim (Bool-cases (is_terminal before.status)) [
    | inl e ↦ rw e (done-Ensures (inr (inl (before, refl, rw e refl, refl))))
    | inr e ↦ rw e (
        Ensures-weaken (finish-Finished before w e) λ _ w' cases. elim cases [
          | inl (awaits, same) ↦ inr (inl (before, refl, rw e awaits, same))
          | inr (apart, concluded) ↦ inr (inr (before, refl, rw e apart, concluded))
        ])
  ]

  -- When the transaction of `finishSuccess` returns, one of three holds. The attempt is not there,
  -- and no attempt changed; or it is in a terminal status or awaits its review already, and no
  -- attempt changed; or it is in another status, and the attempt now stands under its identifier
  -- with the artifact and without a lease, awaits its review if its evaluation passed and has failed
  -- if not, and no other attempt changed.
  pub finish_success_lem :
      (id : Text) (w w' : World)
      → with_transaction (finish_success service id outcome) w ≡ (ok tt, w')
      → ((find_by_id service.tenant_id id w.store ≡ none) × (w'.store.attempts ≡ w.store.attempts))
        ⊎ ((before : GenerationAttempt) × (find_by_id service.tenant_id id w.store ≡ some before)
            × ((is_terminal before.status || is_awaiting_review before.status) ≡ true)
            × (w'.store.attempts ≡ w.store.attempts))
        ⊎ ((before : GenerationAttempt) × (find_by_id service.tenant_id id w.store ≡ some before)
            × ((is_terminal before.status || is_awaiting_review before.status) ≡ false)
            × Concluded outcome before w.store.attempts w'.store.attempts)
  unfolding finish_success
  finish_success_lem id w w' h =
      Ensures-eq
        (find_in-Ensures _ _ _ (finish_found-cases (find_by_id service.tenant_id id w.store) w))
        (with_transaction-eq-ok (finish_success service id outcome) w h)
