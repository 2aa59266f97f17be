-- ===== src/Service/Events.antt =====
-- The options of `GenerationApplicationService` in apps/api/src/generation.ts, and the methods that
-- all others share: `appendEvent` and `requireAttempt`. Telemetry and metrics, which change nothing
-- else, are left out.
pub mod Laws
use auto_camera.Common.{ℕ, ◌+◌, Bool, true, false, Option, none, some, Text, if◌then◌else◌}
use auto_camera.Js.Date.{JsDate}
use auto_camera.Js.Json.{Members}
use auto_camera.Domain.Money.{MicroUsd}
use auto_camera.Domain.Uuid.{Uuid}
use auto_camera.Domain.Assert.{IsoUtcTimestamp}
use auto_camera.Domain.Attempt.{GenerationAttempt, if_truthy, truthy_text}
use auto_camera.Domain.Event.{DomainEventType, create_domain_event}
use auto_camera.Store.State.{MemoryState}
use auto_camera.Store.Attempts.{find_by_id}
use auto_camera.Store.Events.{append, enqueue}
use auto_camera.Store.Leases.{Sign}
use auto_camera.Store.Transaction.{
  World, Work, ◌>>=◌, ◌>>◌, done, require, checked, find_in, write, read_clock, next_id,
  attempt_not_found,
}

-- The `n`th reading of the clock and the `n`th identifier are parameters, and so are
-- `String.prototype.toUpperCase`, `localeCompare`, and the redaction of a message by
-- apps/api/src/redact.ts.
pub record GenerationService : Type 0 where
  pub tenant_id : Uuid
  pub producer : Text
  pub max_attempts_per_shot : ℕ
  pub estimated_attempt_cost_microusd : MicroUsd
  pub clock : ℕ → JsDate
  pub ids : ℕ → Uuid
  pub to_upper_case : Text → Text
  pub redact_failure_message : Text → Text
  pub locale_compare : Text → Text → Sign

pub record EventInput : Type 0 where
  pub type : DomainEventType
  pub project_id : Option Uuid
  pub shot_id : Option Uuid
  pub attempt_id : Option Uuid
  pub prompt_id : Option Text
  pub trace_id : Option Text
  pub payload : Members

abbrev trace_of : Option GenerationAttempt → Option Text
trace_of none = none
trace_of (some attempt) = attempt.trace_id

-- `input.attemptId ? (await attempts.findById(…))?.traceId : undefined`
abbrev pub attempt_trace : Uuid → Option Uuid → MemoryState → Option Text
attempt_trace tenant_id none state = none
attempt_trace tenant_id (some attempt_id) state =
    if truthy_text (some attempt_id) then trace_of (find_by_id tenant_id attempt_id state) else none

abbrev pub first_trace : Option Text → Option Text → Option Text
first_trace given found = if truthy_text given then given else if_truthy found

module _ (service : GenerationService) where
  unfoldable pub append_event : EventInput → Work (Unit {0})
  append_event input = do
    found ← find_in (attempt_trace service.tenant_id input.attempt_id)
    id ← next_id service.ids
    now ← read_clock service.clock
    event ← checked (
        create_domain_event
          (record {
            id = id;
            type = input.type;
            producer = service.producer;
            tenant_id = service.tenant_id;
            project_id = input.project_id;
            shot_id = input.shot_id;
            attempt_id = input.attempt_id;
            prompt_id = input.prompt_id;
            trace_id = first_trace input.trace_id found;
            payload = input.payload;
          })
          now)
    write (append event)
    write (enqueue event)

  unfoldable pub require_attempt : Uuid → Work GenerationAttempt
  require_attempt attempt_id = do
    found ← find_in (find_by_id service.tenant_id attempt_id)
    require found attempt_not_found
