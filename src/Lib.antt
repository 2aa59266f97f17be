-- ===== src/Lib.antt =====
-- AutoCamera (H3 VideoOps) is a control plane for video generation: it keeps projects, their shots
-- and the generation attempts of each shot, lets a worker claim and run the attempts on ComfyUI,
-- evaluates what comes back, and records the review by a person. This library models the decisions
-- of that program and proves what they guarantee.
--
-- The program's parts, and the files that model them:
-- - packages/domain/src/index.ts is the vocabulary of the whole program: statuses and their tables
--   of transitions, money, identifiers, timestamps, and the checks that an entity passes before
--   and after each change. Domain/Status, Domain/ProjectStatus, Domain/ShotStatus and
--   Domain/AttemptStatus have the enumerations (PROJECT_STATUSES …), their tables
--   (PROJECT_STATUS_TRANSITIONS …), the parsers and `transition`; Domain/Money, Domain/Uuid and
--   Domain/Assert the values and their checks; Domain/Event and Domain/Artifact what is recorded
--   of a run; Domain/Project, Domain/Shot and Domain/Attempt the records with `assertProject` …,
--   `transitionProject` … and `createVideoProject` …. A thrown DomainError is its code.
-- - packages/db/src/index.ts keeps the entities for the API and the worker. Store models its
--   in-memory repositories (`MemoryRepositories`), which state the contract of the PostgreSQL
--   ones: Store/State has the state, Store/Attempts `create`, the look-ups, `update` and `review`
--   of the attempts, Store/Leases `claimNext`, `claimForRecovery`, `heartbeat`, `release` and
--   `recoverStale`, by which the workers share them, Store/Listing the lists, and Store/Steps the
--   runs of all of these; Store/Projects has the projects and the shots, Store/Revisions the
--   look-up of a workflow revision, Store/Artifacts the artifacts, and Store/Events the
--   evaluations, the events and the outbox. Each method runs to its end in one turn of the event
--   loop, so that it is one step from a state to the next. `localeCompare` is a parameter.
-- - `InMemoryStore.withTransaction` of the same file queues the transactions, one after another,
--   and puts the state back where one throws. Store/Transaction has it and the monad in which the
--   services run: a world (the state, and how often the clock and the generator of identifiers
--   were asked), and an outcome that is a value or what was thrown. Store/Transaction/Laws has the
--   rules by which the proofs walk through such a piece of work.
-- - apps/api/src/generation.ts runs the attempts. Service/Events has `appendEvent` and
--   `requireAttempt`; Service/Review the transactions by which a person accepts, rejects, pins,
--   unpins and reviews an attempt; Service/Create the one that makes an attempt from a workflow
--   revision, and the record of a denied budget. Service/Worker has the transactions of the worker
--   (`persistSubmitted`, `markRunning`, `markProgress`, `failAttempt`), and Service/Finish the one
--   of `finishSuccess`, with what the artifact store and the evaluator gave as an argument.
--   Service/Steps has the runs of all these transactions, and Service/Sound what they keep.
--   Service/Slot compares them with a register that is written once, and Service/Outcomes says
--   what they promise. Service/Message and Service/Observer have how the service reads what
--   ComfyUI reports: `outputFromMessage`, `normalizeComfyMessage` and the class `ComfyObserver`,
--   which drops what it has seen and what comes after the end of a prompt. `Number`, `String`,
--   `JSON.stringify` and `toUpperCase` are parameters, and so is the redaction of the message of a
--   failure.
-- - Js models what the code uses of the JavaScript runtime. A `Map` is the list of its entries in
--   their order (Js/Map), and `sort` a stable insertion (Js/Sort), which gives what any stable
--   sort gives when the comparator is an order. Js/Json has the values of JSON that the code looks
--   into. A string is the list of its UTF-16 code units (Common/Texts), so that `length`, `trim`
--   and `===` are those of the language. A number that the code tests is a `JsNumber`: a whole
--   number, another finite number by its floor and a code of what is above it, or a value that is
--   not finite. Versions and amounts of money are natural numbers: a version starts at 1 and is
--   only incremented, and the branded type of an amount is for numbers that are not negative. Both
--   are still tested against the safe range where the code tests them. A date is the text that
--   `toISOString` gives for it, or the invalid date.
--
-- Bounds: `digits_fuel` of Domain/Money has `n + 1` rounds for the digits of `n`, and needs fewer;
-- the round trip of Domain/Money/RoundTrip shows that none is missing.
--
-- Not modelled: the repositories of workflow versions, agent runs, recommendations and idempotency
-- records; of apps/api/src/generation.ts the attempts that are not made from a workflow revision,
-- the retries, and of the worker its loop, its calls of ComfyUI and the check of a managed
-- revision; metrics and telemetry, which no decision reads; the PostgreSQL repositories (the
-- database runs their SQL; the in-memory store of packages/db/src/index.ts states the same
-- contracts), the HTTP routes, the language model and its tools, configuration, and the user
-- interface.
pub mod Common
pub mod Js
pub mod Domain
pub mod Store
pub mod Service
