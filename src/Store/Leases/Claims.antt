-- ===== src/Store/Leases/Claims.antt =====
-- What `claimNext` of the attempts in packages/db/src/index.ts takes, and when it takes nothing.
use mathlib.Core.List.{Memᴰ}
use auto_camera.Common.{
  ◌+◌, ◌≡◌, ◌↔◌, ◌⊎◌, inl, inr, refl, Bool, true, false, Option, none, some, List, Text, text_eq,
  keep, any, if◌then◌else◌, arith,
}
use auto_camera.Domain.AttemptStatus.{AttemptStatus}
use auto_camera.Domain.Attempt.{GenerationAttempt}
use auto_camera.Js.Map.{get, set, values, get-set, IsKeyed, get-of-mem}
use auto_camera.Js.Sort.{sort, first, mem-sort, mem-first, mem-keep, first-sort-none}
use auto_camera.Store.State.{MemoryState}
use auto_camera.Store.Leases.{
  Sign, has_active_claim, claimable, recoverable, take_candidate, claimed_by, recovered_by,
  queued_before, updated_before, claim_next, claim_for_recovery, lease_free, is_queued,
}

-- Every attempt of the state stands under its own identifier.
abbrev pub WellKeyed : MemoryState → Type 0
WellKeyed state = IsKeyed (λ attempt. attempt.id) state.attempts

first-chosen :
    (before : GenerationAttempt → GenerationAttempt → Bool) (p : GenerationAttempt → Bool)
    (l : List GenerationAttempt) (a : GenerationAttempt)
    → first (sort before (keep p l)) ≡ some a
    → Memᴰ a l × (p a ≡ true)
first-chosen before p l a h =
    mem-keep p a l (mem-sort before a (keep p l) (mem-first a (sort before (keep p l)) h))

-- What one claim does, `p` being the test of a candidate and `taken` what becomes of it.
abbrev pub claim :
    (GenerationAttempt → GenerationAttempt → Bool)
    → (GenerationAttempt → Bool)
    → (GenerationAttempt → GenerationAttempt)
    → Bool
    → MemoryState
    → Option GenerationAttempt × MemoryState
claim before p taken busy state =
    if busy
    then (none, state)
    else take_candidate taken (first (sort before (keep p (values state.attempts)))) state

take_candidate-eq-some :
    (taken : GenerationAttempt → GenerationAttempt) (o : Option GenerationAttempt)
    (state after : MemoryState) (a : GenerationAttempt)
    → take_candidate taken o state ≡ (some a, after)
    → (candidate : GenerationAttempt) × (o ≡ some candidate)
      × (a ≡ taken candidate)
      × (after ≡ record state { attempts = set candidate.id (taken candidate) state.attempts })
take_candidate-eq-some taken none state after a h = cc
take_candidate-eq-some taken (some c) state after a h = (c, refl, cc, cc)

take_candidate-eq-none :
    (taken : GenerationAttempt → GenerationAttempt) (o : Option GenerationAttempt)
    (state after : MemoryState)
    → take_candidate taken o state ≡ (none, after)
    → (o ≡ none) × (after ≡ state)
take_candidate-eq-none taken none state after h = (refl, cc)
take_candidate-eq-none taken (some c) state after h = cc

pub is_queued-eq-true : (s : AttemptStatus) → is_queued s ≡ true → s ≡ AttemptStatus.queued
is_queued-eq-true AttemptStatus.queued h = refl
is_queued-eq-true _ h = cc

abbrev pub Taken :
    (GenerationAttempt → Bool)
    → (GenerationAttempt → GenerationAttempt)
    → MemoryState
    → MemoryState
    → GenerationAttempt
    → Type 0
Taken p taken state after a =
    (candidate : GenerationAttempt) × (get candidate.id state.attempts ≡ some candidate)
    × (p candidate ≡ true)
    × (a ≡ taken candidate)
    × (after ≡ record state { attempts = set candidate.id (taken candidate) state.attempts })

pub claim-Taken :
    (before : GenerationAttempt → GenerationAttempt → Bool) (p : GenerationAttempt → Bool)
    (taken : GenerationAttempt → GenerationAttempt) (busy : Bool) (state after : MemoryState)
    (a : GenerationAttempt)
    → WellKeyed state
    → claim before p taken busy state ≡ (some a, after)
    → (busy ≡ false) × Taken p taken state after a
claim-Taken before p taken true state after a keyed h = cc
claim-Taken before p taken false state after a keyed h =
    let (c, e, same_a, same_after) =
      take_candidate-eq-some taken (first (sort before (keep p (values state.attempts)))) state
        after a h in
    let (m, t) = first-chosen before p (values state.attempts) c e in
    (refl, (c, get-of-mem (λ attempt. attempt.id) c state.attempts keyed m, t, same_a, same_after))

module _ (locale_compare : Text → Text → Sign) (worker_id now lease_expires_at : Text)
    (state after : MemoryState) (a : GenerationAttempt) where
  pub claim_next-Taken :
      WellKeyed state
      → claim_next locale_compare worker_id now lease_expires_at state ≡ (some a, after)
      → (has_active_claim worker_id now (values state.attempts) ≡ false)
        × Taken (claimable now) (claimed_by worker_id now lease_expires_at) state after a
  unfolding claim_next
  claim_next-Taken keyed h =
      claim-Taken (queued_before locale_compare) (claimable now)
        (claimed_by worker_id now lease_expires_at)
        (has_active_claim worker_id now (values state.attempts)) state after a keyed h

  pub claim_for_recovery-Taken :
      WellKeyed state
      → claim_for_recovery locale_compare worker_id now lease_expires_at state ≡ (some a, after)
      → (has_active_claim worker_id now (values state.attempts) ≡ false)
        × Taken (recoverable now) (recovered_by worker_id now lease_expires_at) state after a
  unfolding claim_for_recovery
  claim_for_recovery-Taken keyed h =
      claim-Taken (updated_before locale_compare) (recoverable now)
        (recovered_by worker_id now lease_expires_at)
        (has_active_claim worker_id now (values state.attempts)) state after a keyed h

  -- What `claimNext` takes was queued and under no lease that still holds, and its worker holds no
  -- other attempt. It is marked as claimed by the worker for the new lease with the next version,
  -- and no other attempt of the store changes. Every attempt has to stand under its own identifier.
  pub claim_next_lem :
      WellKeyed state
      → claim_next locale_compare worker_id now lease_expires_at state ≡ (some a, after)
      → (has_active_claim worker_id now (values state.attempts) ≡ false)
        × (candidate : GenerationAttempt) × (get candidate.id state.attempts ≡ some candidate)
        × (candidate.status ≡ AttemptStatus.queued)
        × (lease_free now candidate.lease_expires_at ≡ true)
        × (a ≡ record candidate {
          status = AttemptStatus.claimed;
          lease_owner = some worker_id;
          lease_expires_at = some lease_expires_at;
          version = candidate.version + 1;
          updated_at = now;
        })
        × ((j : Text)
            → get j after.attempts
              ≡ (if text_eq candidate.id j then some a else get j state.attempts))
  claim_next_lem keyed h =
      let (idle, (c, there, free, same_a, same_after)) = claim_next-Taken keyed h in
      (
        idle,
        c,
        there,
        is_queued-eq-true c.status (ground (arith, free)),
        ground (arith, free),
        same_a,
        λ j. rw same_after (
            rw same_a
              (get-set c.id j (claimed_by worker_id now lease_expires_at c) state.attempts)),
      )

claim-eq-none :
    (before : GenerationAttempt → GenerationAttempt → Bool) (p : GenerationAttempt → Bool)
    (taken : GenerationAttempt → GenerationAttempt) (busy : Bool) (state after : MemoryState)
    → (claim before p taken busy state ≡ (none, after))
      ↔ ((after ≡ state) × ((busy ≡ true) ⊎ (any p (values state.attempts) ≡ false)))
claim-eq-none before p taken true state after = (λ h. (cc, inl refl), λ (same, _). cc)
claim-eq-none before p taken false state after = (
  λ h.
      let (nothing, same) =
        take_candidate-eq-none taken (first (sort before (keep p (values state.attempts)))) state
          after h in
      (same, inr ((first-sort-none before p (values state.attempts)).0 nothing)),
  λ (same, why). elim why [
    | inl e ↦ cc
    | inr e ↦ rw ((first-sort-none before p (values state.attempts)).1 e) cc
  ],
)

-- `claimNext` takes nothing exactly if its worker holds an attempt or no attempt can be claimed,
-- and the store stays as it is then.
pub claim_next-none_iff :
    (locale_compare : Text → Text → Sign) (worker_id now lease_expires_at : Text)
    (state after : MemoryState)
    → (claim_next locale_compare worker_id now lease_expires_at state ≡ (none, after)) ↔ (
        (after ≡ state)
        × ((has_active_claim worker_id now (values state.attempts) ≡ true)
            ⊎ (any (claimable now) (values state.attempts) ≡ false)))
unfolding claim_next
claim_next-none_iff locale_compare worker_id now lease_expires_at state after =
    claim-eq-none (queued_before locale_compare) (claimable now)
      (claimed_by worker_id now lease_expires_at)
      (has_active_claim worker_id now (values state.attempts)) state after

-- The same of `claimForRecovery`.
pub claim_for_recovery-none_iff :
    (locale_compare : Text → Text → Sign) (worker_id now lease_expires_at : Text)
    (state after : MemoryState)
    → (claim_for_recovery locale_compare worker_id now lease_expires_at state ≡ (none, after)) ↔ (
        (after ≡ state)
        × ((has_active_claim worker_id now (values state.attempts) ≡ true)
            ⊎ (any (recoverable now) (values state.attempts) ≡ false)))
unfolding claim_for_recovery
claim_for_recovery-none_iff locale_compare worker_id now lease_expires_at state after =
    claim-eq-none (updated_before locale_compare) (recoverable now)
      (recovered_by worker_id now lease_expires_at)
      (has_active_claim worker_id now (values state.attempts)) state after
