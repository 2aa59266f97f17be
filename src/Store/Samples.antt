-- ===== src/Store/Samples.antt =====
-- A sample store with two queued attempts, and what two workers do with it.
use auto_camera.Common.{◌≡◌, refl, some, [], ◌∷◌, Text, text, if◌then◌else◌}
use auto_camera.Domain.AttemptStatus.{AttemptStatus}
use auto_camera.Domain.Uuid.{Uuid}
use auto_camera.Domain.Attempt.{GenerationAttempt}
use auto_camera.Domain.Samples.{some_id, queued_attempt}
use auto_camera.Js.Map.{get, set}
use auto_camera.Js.Sort.{insert_sorted, sort}
use auto_camera.Store.State.{empty_memory_state, MemoryState, text_lt}
use auto_camera.Store.Attempts.{create, update, review}
use auto_camera.Store.Leases.{Sign, claim_next, claim_for_recovery, release, recover_stale}
use auto_camera.Store.Leases.Claims.{WellKeyed}

-- A comparison by code units.
abbrev pub code_compare : Text → Text → Sign
code_compare s t =
    if text_lt s t then Sign.negative else if text_lt t s then Sign.positive else Sign.same

abbrev pub other_id : Uuid
other_id = text "0198a1b2-c3d4-7f01-bf03-040506070810"

abbrev pub early : Text
early = text "2026-01-02T03:05:00.000Z"

abbrev pub late : Text
late = text "2026-01-02T03:10:00.000Z"

abbrev pub later : Text
later = text "2026-01-02T03:15:00.000Z"

abbrev pub second_attempt : GenerationAttempt
second_attempt = record queued_attempt {
  id = other_id;
  idempotency_key = text "key-2";
  correlation_id = text "h3-2";
}

abbrev pub one_queued : MemoryState
one_queued = record empty_memory_state { attempts = (some_id, queued_attempt) ∷ [] }

abbrev pub two_queued : MemoryState
two_queued = record empty_memory_state {
  attempts = (some_id, queued_attempt) ∷ (other_id, second_attempt) ∷ [];
}

abbrev pub claimed_attempt : GenerationAttempt
claimed_attempt = record queued_attempt {
  status = AttemptStatus.claimed;
  lease_owner = some (text "w1");
  lease_expires_at = some late;
  version = 2;
  updated_at = early;
}

abbrev pub other_claimed : GenerationAttempt
other_claimed = record second_attempt {
  status = AttemptStatus.claimed;
  lease_owner = some (text "w2");
  lease_expires_at = some late;
  version = 2;
  updated_at = early;
}

abbrev pub one_claimed : MemoryState
one_claimed = record empty_memory_state {
  attempts = (some_id, claimed_attempt) ∷ (other_id, second_attempt) ∷ [];
}

abbrev pub two_claimed : MemoryState
two_claimed = record empty_memory_state {
  attempts = (some_id, claimed_attempt) ∷ (other_id, other_claimed) ∷ [];
}

-- What the tests compute with.
unfoldable pub store_runs : Unit {0}
unfolding get set insert_sorted sort claim_next claim_for_recovery release recover_stale create
    update review
store_runs = tt

pub two_queued-WellKeyed : WellKeyed two_queued
unfolding store_runs
two_queued-WellKeyed = (refl, refl, (refl, refl, tt))

pub one_claimed-WellKeyed : WellKeyed one_claimed
unfolding store_runs
one_claimed-WellKeyed = (refl, refl, (refl, refl, tt))

pub first_claim :
    claim_next code_compare (text "w1") early late two_queued ≡ (some claimed_attempt, one_claimed)
unfolding store_runs
first_claim = refl

pub second_claim :
    claim_next code_compare (text "w2") early late one_claimed ≡ (some other_claimed, two_claimed)
unfolding store_runs
second_claim = refl
