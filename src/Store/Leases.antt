-- ===== src/Store/Leases.antt =====
-- The leases of `MemoryRepository.attempts` in packages/db/src/index.ts: `claimNext`,
-- `claimForRecovery`, `heartbeat`, `release` and `recoverStale`. `localeCompare` is a parameter.
pub mod Claims
pub mod Exclusive
pub mod Recovery
use auto_camera.Common.{
  ℕ, suc, ◌+◌, Bool, true, false, not, ◌&&◌, ◌||◌, Option, none, some, List, [], ◌∷◌, Text, text_eq,
  any, keep, if◌then◌else◌,
}
use auto_camera.Domain.AttemptStatus
use auto_camera.Domain.AttemptStatus.{AttemptStatus}
use auto_camera.Domain.Uuid.{Uuid}
use auto_camera.Domain.Assert.{IsoUtcTimestamp}
use auto_camera.Domain.Attempt.{GenerationAttempt, truthy_text}
use auto_camera.Js.Map.{Map, get, set, values}
use auto_camera.Js.Sort.{sort, first}
use auto_camera.Store.State.{MemoryState, option_eq, text_lt}

-- `activeStatuses`
abbrev pub is_active : AttemptStatus → Bool
is_active AttemptStatus.claimed = true
is_active AttemptStatus.submitting = true
is_active AttemptStatus.submitted = true
is_active AttemptStatus.running = true
is_active AttemptStatus.generated = true
is_active AttemptStatus.evaluating = true
is_active _ = false

-- The statuses in which `claimForRecovery` looks for work.
abbrev pub is_recoverable : AttemptStatus → Bool
is_recoverable AttemptStatus.submitting = true
is_recoverable AttemptStatus.submitted = true
is_recoverable AttemptStatus.running = true
is_recoverable AttemptStatus.generated = true
is_recoverable AttemptStatus.evaluating = true
is_recoverable _ = false

abbrev pub is_queued : AttemptStatus → Bool
is_queued AttemptStatus.queued = true
is_queued _ = false

abbrev pub is_claimed : AttemptStatus → Bool
is_claimed AttemptStatus.claimed = true
is_claimed _ = false

-- `leaseExpiresAt !== undefined && leaseExpiresAt >= now`
abbrev pub lease_holds : IsoUtcTimestamp → Option IsoUtcTimestamp → Bool
lease_holds now none = false
lease_holds now (some expires) = not (text_lt expires now)

-- `leaseExpiresAt === undefined || leaseExpiresAt < now`
abbrev pub lease_free : IsoUtcTimestamp → Option IsoUtcTimestamp → Bool
lease_free now none = true
lease_free now (some expires) = text_lt expires now

-- `hasActiveClaim`
abbrev pub has_active_claim : Text → IsoUtcTimestamp → List GenerationAttempt → Bool
has_active_claim worker_id now = any (λ attempt.
    option_eq attempt.lease_owner (some worker_id)
    && lease_holds now attempt.lease_expires_at
    && is_active attempt.status)

abbrev pub claimable : IsoUtcTimestamp → GenerationAttempt → Bool
claimable now attempt = is_queued attempt.status && lease_free now attempt.lease_expires_at

abbrev pub recoverable : IsoUtcTimestamp → GenerationAttempt → Bool
recoverable now attempt = is_recoverable attempt.status && lease_free now attempt.lease_expires_at

-- The sign of what `localeCompare` returns.
pub data Sign : Type 0 where
  negative same positive : Sign

-- `left || right < 0`
abbrev pub negative_first : Sign → Sign → Bool
negative_first negative second = true
negative_first positive second = false
negative_first same negative = true
negative_first same _ = false

abbrev claimed_by : Text → IsoUtcTimestamp → IsoUtcTimestamp → GenerationAttempt → GenerationAttempt
claimed_by worker_id now lease_expires_at candidate = record candidate {
  status = AttemptStatus.claimed;
  lease_owner = some worker_id;
  lease_expires_at = some lease_expires_at;
  version = candidate.version + 1;
  updated_at = now;
}

abbrev recovered_by :
    Text → IsoUtcTimestamp → IsoUtcTimestamp → GenerationAttempt → GenerationAttempt
recovered_by worker_id now lease_expires_at candidate = record candidate {
  lease_owner = some worker_id;
  lease_expires_at = some lease_expires_at;
  version = candidate.version + 1;
  updated_at = now;
}

-- `if (!candidate) return null; …; this.state.attempts.set(candidate.id, taken); return taken;`
abbrev take_candidate :
    (GenerationAttempt → GenerationAttempt)
    → Option GenerationAttempt
    → MemoryState
    → Option GenerationAttempt × MemoryState
take_candidate taken none state = (none, state)
take_candidate taken (some candidate) state = (
  some (taken candidate),
  record state { attempts = set candidate.id (taken candidate) state.attempts },
)

module _ (locale_compare : Text → Text → Sign) where
  abbrev pub queued_before : GenerationAttempt → GenerationAttempt → Bool
  queued_before left right =
      negative_first (locale_compare left.queued_at right.queued_at)
        (locale_compare left.id right.id)

  abbrev pub updated_before : GenerationAttempt → GenerationAttempt → Bool
  updated_before left right =
      negative_first (locale_compare left.updated_at right.updated_at)
        (locale_compare left.id right.id)

  unfoldable pub claim_next :
      Text
      → IsoUtcTimestamp
      → IsoUtcTimestamp
      → MemoryState
      → Option GenerationAttempt × MemoryState
  claim_next worker_id now lease_expires_at state =
      if has_active_claim worker_id now (values state.attempts)
      then (none, state)
      else take_candidate (claimed_by worker_id now lease_expires_at)
          (first (sort queued_before (keep (claimable now) (values state.attempts)))) state

  unfoldable pub claim_for_recovery :
      Text
      → IsoUtcTimestamp
      → IsoUtcTimestamp
      → MemoryState
      → Option GenerationAttempt × MemoryState
  claim_for_recovery worker_id now lease_expires_at state =
      if has_active_claim worker_id now (values state.attempts)
      then (none, state)
      else take_candidate (recovered_by worker_id now lease_expires_at)
          (first (sort updated_before (keep (recoverable now) (values state.attempts)))) state

-- The attempt, if the worker holds it in an active status.
abbrev pub held_by : Text → Option GenerationAttempt → Option GenerationAttempt
held_by worker_id none = none
held_by worker_id (some current) =
    if option_eq current.lease_owner (some worker_id) && is_active current.status
    then some current
    else none

abbrev pub put_back :
    (GenerationAttempt → GenerationAttempt)
    → Uuid
    → Option GenerationAttempt
    → MemoryState
    → Option GenerationAttempt × MemoryState
put_back changed attempt_id none state = (none, state)
put_back changed attempt_id (some current) state = (
  some (changed current),
  record state { attempts = set attempt_id (changed current) state.attempts },
)

-- It writes the end of the lease into `updatedAt`.
abbrev pub extended : IsoUtcTimestamp → GenerationAttempt → GenerationAttempt
extended lease_expires_at current = record current {
  lease_expires_at = some lease_expires_at;
  version = current.version + 1;
  updated_at = lease_expires_at;
}

unfoldable pub heartbeat :
    Uuid → Text → IsoUtcTimestamp → MemoryState → Option GenerationAttempt × MemoryState
heartbeat attempt_id worker_id lease_expires_at state =
    put_back (extended lease_expires_at) attempt_id
      (held_by worker_id (get attempt_id state.attempts)) state

abbrev pub released : IsoUtcTimestamp → GenerationAttempt → GenerationAttempt
released updated_at current = record current {
  lease_owner = none;
  lease_expires_at = none;
  status = if is_claimed current.status then AttemptStatus.queued else current.status;
  version = current.version + 1;
  updated_at = updated_at;
}

unfoldable pub release :
    Uuid → Text → IsoUtcTimestamp → MemoryState → Option GenerationAttempt × MemoryState
release attempt_id worker_id updated_at state =
    put_back (released updated_at) attempt_id (held_by worker_id (get attempt_id state.attempts))
      state

-- The attempts that `recoverStale` does not skip.
abbrev pub is_stale : IsoUtcTimestamp → GenerationAttempt → Bool
is_stale now current =
    truthy_text current.lease_expires_at
    && lease_free now current.lease_expires_at
    && is_claimed current.status

abbrev pub requeued : IsoUtcTimestamp → GenerationAttempt → GenerationAttempt
requeued now current = record current {
  lease_owner = none;
  lease_expires_at = none;
  status = AttemptStatus.queued;
  version = current.version + 1;
  updated_at = now;
}

-- The loop of `recoverStale` over the values. It sets no new key and no entry that it has yet to
-- visit, as every attempt stands under its own identifier.
abbrev pub recover_from :
    IsoUtcTimestamp
    → List GenerationAttempt
    → Map GenerationAttempt
    → List GenerationAttempt × Map GenerationAttempt
recover_from now [] m = ([], m)
recover_from now (current ∷ rest) m =
    let (recovered, m_end) =
      recover_from now rest
        (if is_stale now current then set current.id (requeued now current) m else m) in
    (if is_stale now current then requeued now current ∷ recovered else recovered, m_end)

unfoldable pub recover_stale : IsoUtcTimestamp → MemoryState → List GenerationAttempt × MemoryState
recover_stale now state =
    let (recovered, m) = recover_from now (values state.attempts) state.attempts in
    (recovered, record state { attempts = m })
