-- ===== src/Store/Events.antt =====
-- `MemoryRepository.evaluations`, `events` and `outbox` of packages/db/src/index.ts.
use auto_camera.Common.{
  ◌+◌, Bool, true, false, not, ◌&&◌, ◌||◌, Option, none, some, Text, text_eq, ok, ◌>>◌, throw_if,
  any, find, keep, take, if◌then◌else◌,
}
use auto_camera.Js.Map.{get, set, has, values}
use auto_camera.Js.Sort.{sort, first}
use auto_camera.Domain.Uuid.{Uuid}
use auto_camera.Domain.Event.{DomainEvent, EvaluationResult}
use auto_camera.Store.State.{Stored, MemoryState, StoredMessage, unique_violation, text_lt}
use auto_camera.Store.Leases.{Sign, negative_first}

-- The identifier or the attempt has an evaluation.
abbrev pub evaluated : EvaluationResult → MemoryState → Bool
evaluated result state =
    has result.id state.evaluations
    || any (λ current. text_eq current.attempt_id result.attempt_id) (values state.evaluations)

unfoldable pub create_evaluation : EvaluationResult → MemoryState → Stored MemoryState
create_evaluation result state = do
  throw_if (evaluated result state) unique_violation
  ok (record state { evaluations = set result.id result state.evaluations })

unfoldable pub find_evaluation : Uuid → Uuid → MemoryState → Option EvaluationResult
find_evaluation tenant_id attempt_id state =
    find (λ current. text_eq current.tenant_id tenant_id && text_eq current.attempt_id attempt_id)
      (values state.evaluations)

unfoldable pub append : DomainEvent → MemoryState → Stored MemoryState
append event state = do
  throw_if (has event.id state.events) unique_violation
  ok (record state {
    events =
        set event.id (record event { event_sequence = some state.next_event_sequence })
          state.events;
    next_event_sequence = state.next_event_sequence + 1;
  })

unfoldable pub enqueue : DomainEvent → MemoryState → Stored MemoryState
enqueue event state = do
  throw_if (has event.id state.outbox) unique_violation
  let message : StoredMessage = record {
    id = event.id;
    event = event;
    available_at = event.observed_at;
    attempt_count = 0;
    delivered_at = none;
    last_error = none;
  }
  ok (record state { outbox = set event.id message state.outbox })

abbrev pub is_missing : Option Text → Bool
is_missing none = true
is_missing (some value) = false

-- `message.deliveredAt === null && message.availableAt <= now`
abbrev pub is_pending : Text → StoredMessage → Bool
is_pending now message = is_missing message.delivered_at && not (text_lt now message.available_at)

abbrev pub available_before : (Text → Text → Sign) → StoredMessage → StoredMessage → Bool
available_before locale_compare left right =
    negative_first (locale_compare left.available_at right.available_at)
      (locale_compare left.id right.id)

abbrev pub tried : StoredMessage → StoredMessage
tried message = record message { attempt_count = message.attempt_count + 1 }

abbrev pub claim_message : Option StoredMessage → MemoryState → Option StoredMessage × MemoryState
claim_message none state = (none, state)
claim_message (some message) state =
    (some (tried message), record state { outbox = set message.id (tried message) state.outbox })

-- `outbox.claimNext`
unfoldable pub claim_outbox :
    (Text → Text → Sign) → Text → MemoryState → Option StoredMessage × MemoryState
claim_outbox locale_compare now state =
    claim_message
      (first (sort (available_before locale_compare) (keep (is_pending now) (values state.outbox))))
      state

abbrev pub settled :
    (StoredMessage → StoredMessage) → Uuid → Option StoredMessage → MemoryState → MemoryState
settled change id none state = state
settled change id (some message) state =
    if is_missing message.delivered_at
    then record state { outbox = set id (change message) state.outbox }
    else state

unfoldable pub mark_delivered : Uuid → Text → MemoryState → MemoryState
mark_delivered id delivered_at state =
    settled (λ message. record message { delivered_at = some delivered_at }) id
      (get id state.outbox) state

unfoldable pub mark_failed : Uuid → Text → MemoryState → MemoryState
mark_failed id error_message state =
    settled (λ message. record message { last_error = some (take 500 error_message) }) id
      (get id state.outbox) state
