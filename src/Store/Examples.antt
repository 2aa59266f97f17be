-- ===== src/Store/Examples.antt =====
-- The theorems on the store of attempts at a store with two attempts.
use mathlib.Core.List.{Memᴰ}
use auto_camera.Store.Listing.{list_by_shot, list_by_project, lists_iff}
use auto_camera.Common.{
  ◌+◌, ◌≡◌, ◌≢◌, ◌↔◌, ◌⊎◌, inl, inr, refl, true, false, not, ◌&&◌, none, some, [], ◌∷◌, Text, text,
  ok, err, any, arith, sym, ◌∙◌, Bool-cases, text_eq_iff, Option, if◌then◌else◌, text_eq,
}
use auto_camera.Domain.AttemptStatus.{AttemptStatus, is_terminal}
use auto_camera.Domain.Attempt.{GenerationAttempt, AttemptReviewDecision, truthy_text}
use auto_camera.Domain.Samples.{some_id}
use auto_camera.Js.Map.{get, set, values}
use auto_camera.Store.State.{empty_memory_state, MemoryState, optimistic_conflict}
use auto_camera.Store.Attempts.{update, review, same_execution}
use auto_camera.Store.Attempts.Updates.{update_iff, update-conflict, review_iff}
use auto_camera.Store.Attempts.Creation.{create-KeysApart, KeysApart}
use auto_camera.Store.Leases.{
  has_active_claim, claimable, lease_free, claim_next, claim_for_recovery,
}
use auto_camera.Store.Leases.Claims.{WellKeyed, claim_next_lem, claim_next-none_iff}
use auto_camera.Store.Leases.Exclusive.{claims-leased, claim_next-once, claim_next-apart}
use auto_camera.Store.Steps.{Run, claims, go, stop, Keeps, Run-Keeps}
use auto_camera.Store.Samples.{
  code_compare, other_id, early, late, later, second_attempt, two_queued, claimed_attempt,
  other_claimed, one_claimed, two_claimed, store_runs, two_queued-WellKeyed, one_claimed-WellKeyed,
  first_claim, second_claim, one_queued,
}

claim_next_lem_example :
    (has_active_claim (text "w1") early (values two_queued.attempts) ≡ false)
    × (candidate : GenerationAttempt) × (get candidate.id two_queued.attempts ≡ some candidate)
    × (candidate.status ≡ AttemptStatus.queued)
    × (lease_free early candidate.lease_expires_at ≡ true)
    × (claimed_attempt ≡ record candidate {
      status = AttemptStatus.claimed;
      lease_owner = some (text "w1");
      lease_expires_at = some late;
      version = candidate.version + 1;
      updated_at = early;
    })
    × ((j : Text)
        → get j one_claimed.attempts
          ≡ (if text_eq candidate.id j then some claimed_attempt else get j two_queued.attempts))
claim_next_lem_example =
    claim_next_lem code_compare (text "w1") early late two_queued one_claimed claimed_attempt
      two_queued-WellKeyed first_claim

claim_next-none_iff_example :
    (claim_next code_compare (text "w1") early late one_claimed ≡ (none, one_claimed)) ↔ (
      (one_claimed ≡ one_claimed)
      × ((has_active_claim (text "w1") early (values one_claimed.attempts) ≡ true)
          ⊎ (any (claimable early) (values one_claimed.attempts) ≡ false)))
claim_next-none_iff_example =
    claim_next-none_iff code_compare (text "w1") early late one_claimed one_claimed

claims-leased_example : other_id ≢ some_id
unfolding store_runs
claims-leased_example =
    claims-leased code_compare (text "w2") early late one_claimed two_claimed other_claimed
      claimed_attempt some_id one_claimed-WellKeyed refl refl (inl second_claim)

claim_next-once_example :
    (claim_next code_compare (text "w1") late later one_claimed ≡ (none, one_claimed))
    × (claim_for_recovery code_compare (text "w1") late later one_claimed ≡ (none, one_claimed))
claim_next-once_example =
    claim_next-once code_compare (text "w1") early late two_queued one_claimed claimed_attempt late
      later two_queued-WellKeyed refl first_claim

claim_next-apart_example : other_id ≢ some_id
claim_next-apart_example =
    claim_next-apart code_compare (text "w1") (text "w2") early early late late two_queued
      one_claimed two_claimed claimed_attempt other_claimed two_queued-WellKeyed first_claim
      second_claim

abbrev submitting_attempt : GenerationAttempt
submitting_attempt = record claimed_attempt { status = AttemptStatus.submitting; version = 3 }

abbrev one_submitting : MemoryState
one_submitting = record empty_memory_state {
  attempts = (some_id, submitting_attempt) ∷ (other_id, second_attempt) ∷ [];
}

submitted_update : update submitting_attempt 2 one_claimed ≡ ok (submitting_attempt, one_submitting)
unfolding store_runs
submitted_update = refl

update_iff_example :
    (update submitting_attempt 2 one_claimed ≡ ok (submitting_attempt, one_submitting)) ↔ (
      (current : GenerationAttempt) × (get some_id one_claimed.attempts ≡ some current)
      × (current.version ≡ 2)
      × (is_terminal current.status ≡ false)
      × ((truthy_text current.workflow_revision_id
            && not (same_execution submitting_attempt current))
          ≡ false)
      × (submitting_attempt ≡ submitting_attempt)
      × (one_submitting
          ≡ record one_claimed { attempts = set some_id submitting_attempt one_claimed.attempts }))
update_iff_example = update_iff submitting_attempt submitting_attempt 2 one_claimed one_submitting

update-conflict_example :
    update (record claimed_attempt { status = AttemptStatus.failed; version = 3 }) 2 one_submitting
    ≡ err optimistic_conflict
update-conflict_example =
    update-conflict submitting_attempt
      (record claimed_attempt { status = AttemptStatus.failed; version = 3 }) submitting_attempt 2
      one_claimed one_submitting submitted_update (λ e. omega (arith, e)) refl

abbrev reviewed_attempt : GenerationAttempt
reviewed_attempt = record claimed_attempt {
  review_decision = some AttemptReviewDecision.rejected;
  review_note = none;
  review_author = some (text "ann");
  reviewed_at = some late;
  version = 3;
  updated_at = late;
}

abbrev one_reviewed : MemoryState
one_reviewed = record empty_memory_state {
  attempts = (some_id, reviewed_attempt) ∷ (other_id, second_attempt) ∷ [];
}

reviewed_review :
    review some_id some_id AttemptReviewDecision.rejected none (text "ann") late one_claimed
    ≡ ok (reviewed_attempt, one_reviewed)
unfolding store_runs review
reviewed_review = refl

review_iff_example :
    (review some_id some_id AttemptReviewDecision.rejected none (text "ann") late one_claimed
      ≡ ok (reviewed_attempt, one_reviewed))
    ↔ ((current : GenerationAttempt) × (get some_id one_claimed.attempts ≡ some current)
        × (current.tenant_id ≡ some_id)
        × (reviewed_attempt ≡ record current {
          review_decision = some AttemptReviewDecision.rejected;
          review_note = none;
          review_author = some (text "ann");
          reviewed_at = some late;
          version = current.version + 1;
          updated_at = late;
        })
        × (one_reviewed
            ≡ record one_claimed { attempts = set some_id reviewed_attempt one_claimed.attempts }))
review_iff_example =
    review_iff some_id some_id AttemptReviewDecision.rejected none (text "ann") late
      reviewed_attempt one_claimed one_reviewed

one_key : (i : Text) (a : GenerationAttempt) → get i one_queued.attempts ≡ some a → i ≡ some_id
unfolding get
one_key i a h = elim (Bool-cases (text_eq some_id i)) [
  | inl e ↦ sym ((text_eq_iff some_id i).0 e)
  | inr e ↦ let q : Path (Option GenerationAttempt) none (some a) = rw e at h in cc q
]

one_apart : KeysApart one_queued
one_apart i j a b there_a there_b tenant shared = one_key i a there_a ∙ sym (one_key j b there_b)

create-KeysApart_example :
    (get other_id one_queued.attempts ≡ none)
    × (get other_id two_queued.attempts ≡ some second_attempt)
    × KeysApart two_queued
unfolding store_runs
create-KeysApart_example = create-KeysApart second_attempt one_queued two_queued one_apart refl

abbrev failed_attempt : GenerationAttempt
failed_attempt = record claimed_attempt { status = AttemptStatus.failed; version = 3 }

abbrev one_failed : MemoryState
one_failed = record empty_memory_state {
  attempts = (some_id, failed_attempt) ∷ (other_id, second_attempt) ∷ [];
}

abbrev other_working : MemoryState
other_working = record empty_memory_state {
  attempts = (some_id, failed_attempt) ∷ (other_id, other_claimed) ∷ [];
}

one_failed-WellKeyed : WellKeyed one_failed
unfolding store_runs
one_failed-WellKeyed = (refl, refl, (refl, refl, tt))

worked_on : Run code_compare one_failed other_working
unfolding store_runs
worked_on = go (claims (text "w2") early late (some other_claimed) refl) stop

Run-Keeps_example : WellKeyed other_working × Keeps one_failed other_working
Run-Keeps_example = Run-Keeps code_compare one_failed other_working one_failed-WellKeyed worked_on

lists_iff_example :
    (Memᴰ claimed_attempt (list_by_shot code_compare some_id some_id one_claimed) ↔ (
      Memᴰ claimed_attempt (values one_claimed.attempts)
      × (some_id ≡ some_id)
      × (some_id ≡ some_id)))
    × (Memᴰ claimed_attempt (list_by_project code_compare some_id some_id one_claimed) ↔ (
        Memᴰ claimed_attempt (values one_claimed.attempts)
        × (some_id ≡ some_id)
        × (some_id ≡ some_id)))
lists_iff_example = lists_iff code_compare some_id some_id one_claimed claimed_attempt
