-- ===== src/Store/Transaction.antt =====
-- Work on the in-memory store, and `InMemoryStore.withTransaction` of packages/db/src/index.ts. The
-- promise chain `transactionTail` lets one transaction run at a time, so that a transaction is a
-- function of the state. What a piece of work has written before it throws is part of its outcome.
pub mod Laws
use auto_camera.Common.{ℕ, ◌+◌, Bool, true, false, Option, none, some, Result, ok, err}
use auto_camera.Js.Date.{JsDate}
use auto_camera.Domain.Error.{DomainErrorCode, Checked}
use auto_camera.Domain.Uuid.{Uuid}
use auto_camera.Domain.Assert.{IsoUtcTimestamp, to_iso_utc}
use auto_camera.Store.State.{RepositoryErrorCode, Stored, MemoryState}

-- `GenerationApplicationErrorCode`
pub data GenerationApplicationErrorCode : Type 0 where
  shot_not_found attempt_not_found shot_not_ready_for_generation attempt_limit_reached
        budget_exceeded attempt_not_reviewable evaluation_required evaluation_failed
        attempt_not_rejected workflow_revision_not_found workflow_revision_invalid
        submission_uncertain invalid_review_reason invalid_review_decision persistence_unavailable
        generation_failed :
      GenerationApplicationErrorCode

-- What a piece of work may throw.
pub data Thrown : Type 0 where
  application : GenerationApplicationErrorCode → Thrown
  domain : DomainErrorCode → Thrown
  repository : RepositoryErrorCode → Thrown

-- The store, and how often the clock and the generator of identifiers have been asked.
pub record World : Type 0 where
  pub store : MemoryState
  pub clock_reads : ℕ
  pub ids_used : ℕ

abbrev pub Work : Type 0 → Type 0
Work A = World → Result Thrown A × World

unfoldable pub go_on :
    {A B : Type 0} → Result Thrown A × World → (A → Work B) → Result Thrown B × World
go_on (err thrown, w) rest = (err thrown, w)
go_on (ok value, w) rest = rest value w

infixl 5 ◌>>=◌ ◌>>◌
abbrev pub ◌>>=◌ : {A B : Type 0} → Work A → (A → Work B) → Work B
◌>>=◌ first rest w = go_on (first w) rest

abbrev pub ◌>>◌ : {B : Type 0} → Work (Unit {0}) → Work B → Work B
◌>>◌ first rest w = go_on (first w) (λ _. rest)

abbrev pub done : {A : Type 0} → A → Work A
done value w = (ok value, w)

abbrev pub fails_with : {A : Type 0} → GenerationApplicationErrorCode → Work A
fails_with code w = (err (application code), w)

-- `if (test) throw new GenerationApplicationError(code)`
unfoldable pub refuse_if : Bool → GenerationApplicationErrorCode → Work (Unit {0})
refuse_if true code w = (err (application code), w)
refuse_if false code w = (ok tt, w)

-- `if (!value) throw new GenerationApplicationError(code)`
unfoldable pub require : {A : Type 0} → Option A → GenerationApplicationErrorCode → Work A
require none code w = (err (application code), w)
require (some value) code w = (ok value, w)

-- A call of a function of the domain package.
unfoldable pub checked : {A : Type 0} → Checked A → Work A
checked (err code) w = (err (domain code), w)
checked (ok value) w = (ok value, w)

-- A look-up in the store.
unfoldable pub find_in : {A : Type 0} → (MemoryState → A) → Work A
find_in look w = (ok (look w.store), w)

abbrev pub outcome : Stored MemoryState → World → Result Thrown (Unit {0}) × World
outcome (err code) w = (err (repository code), w)
outcome (ok state) w = (ok tt, record w { store = state })

-- A call of a repository that writes.
unfoldable pub write : (MemoryState → Stored MemoryState) → Work (Unit {0})
write call w = outcome (call w.store) w

abbrev pub answered : {A : Type 0} → Stored (A × MemoryState) → World → Result Thrown A × World
answered (err code) w = (err (repository code), w)
answered (ok (value, state)) w = (ok value, record w { store = state })

-- A call of a repository that writes and returns.
unfoldable pub call : {A : Type 0} → (MemoryState → Stored (A × MemoryState)) → Work A
call operation w = answered (operation w.store) w

-- `clock.now()`
unfoldable pub read_clock : (ℕ → JsDate) → Work JsDate
read_clock clock w = (ok (clock w.clock_reads), record w { clock_reads = w.clock_reads + 1 })

-- `toIsoUtc(clock.now())`
unfoldable pub time : (ℕ → JsDate) → Work IsoUtcTimestamp
unfolding go_on read_clock checked
time clock = do date ← read_clock clock; checked (to_iso_utc date)

-- `idGenerator.next()`
unfoldable pub next_id : (ℕ → Uuid) → Work Uuid
next_id ids w = (ok (ids w.ids_used), record w { ids_used = w.ids_used + 1 })

abbrev pub settled_by :
    {A : Type 0} → MemoryState → Result Thrown A × World → Result Thrown A × World
settled_by snapshot (ok value, w) = (ok value, w)
settled_by snapshot (err thrown, w) = (err thrown, record w { store = snapshot })

unfoldable pub with_transaction : {A : Type 0} → Work A → Work A
with_transaction work w = settled_by w.store (work w)
