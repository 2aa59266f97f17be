-- ===== src/Domain/Lifecycle.antt =====
-- The diagrams of the three transition tables: which statuses are final, and what a generation
-- attempt has gone through when it is accepted.
use mathlib.Core.List.{Memᴰ}
use auto_camera.Common.{
  true, false, List, [], ◌∷◌, ◌≡◌, ◌≢◌, ◌↔◌, ◌⊎◌, refl, sym, some, ok, inl, inr,
}
use auto_camera.Domain.Unknown.{Unknown, string}
use auto_camera.Domain.Status.{spelled, allows}
use auto_camera.Domain.Status.Laws.{parse_status_iff}
use auto_camera.Domain.ProjectStatus
use auto_camera.Domain.ProjectStatus.{
  ProjectStatus, project_statuses, parse_project_status, ProjectStatus-discrete,
}
use auto_camera.Domain.ShotStatus
use auto_camera.Domain.ShotStatus.{
  ShotStatus, shot_statuses, parse_shot_status, ShotStatus-discrete,
}
use auto_camera.Domain.AttemptStatus
use auto_camera.Domain.AttemptStatus.{
  AttemptStatus, attempt_statuses, parse_generation_attempt_status, AttemptStatus-discrete,
  is_terminal,
}

pub project_listed : (s : ProjectStatus) → spelled project_statuses (ProjectStatus.name s) ≡ some s
unfolding spelled
project_listed ProjectStatus.draft = refl
project_listed _ = refl

pub shot_listed : (s : ShotStatus) → spelled shot_statuses (ShotStatus.name s) ≡ some s
unfolding spelled
shot_listed ShotStatus.draft = refl
shot_listed _ = refl

pub attempt_listed : (s : AttemptStatus) → spelled attempt_statuses (AttemptStatus.name s) ≡ some s
unfolding spelled
attempt_listed AttemptStatus.queued = refl
attempt_listed _ = refl

-- `parseProjectStatus`, `parseShotStatus` and `parseGenerationAttemptStatus` return a status for
-- exactly one value, the text of that status; they throw for every other value.
pub parse_statuses_iff :
    (u : Unknown)
    → ((s : ProjectStatus) → (parse_project_status u ≡ ok s) ↔ (u ≡ string (ProjectStatus.name s)))
      × ((s : ShotStatus) → (parse_shot_status u ≡ ok s) ↔ (u ≡ string (ShotStatus.name s)))
      × ((s : AttemptStatus)
          → (parse_generation_attempt_status u ≡ ok s) ↔ (u ≡ string (AttemptStatus.name s)))
unfolding parse_project_status parse_shot_status parse_generation_attempt_status
parse_statuses_iff u = (
  parse_status_iff project_statuses project_listed _ u,
  parse_status_iff shot_statuses shot_listed _ u,
  parse_status_iff attempt_statuses attempt_listed _ u,
)

abbrev pub AllowsNone : AttemptStatus → Type 0
AllowsNone s = (t : AttemptStatus) → allows attempt_statuses s t ≡ false

-- `isTerminalGenerationAttempt` answers yes for exactly the statuses from which the table of
-- transitions allows none.
pub is_terminal_iff : (s : AttemptStatus) → (is_terminal s ≡ true) ↔ AllowsNone s
unfolding AttemptStatus-discrete
is_terminal_iff AttemptStatus.accepted = (λ _ _. refl, λ _. refl)
is_terminal_iff AttemptStatus.rejected = (λ _ _. refl, λ _. refl)
is_terminal_iff AttemptStatus.failed = (λ _ _. refl, λ _. refl)
is_terminal_iff AttemptStatus.timed_out = (λ _ _. refl, λ _. refl)
is_terminal_iff AttemptStatus.cancelled = (λ _ _. refl, λ _. refl)
is_terminal_iff AttemptStatus.awaiting_review = (λ h. cc, λ h. cc (h AttemptStatus.accepted))
is_terminal_iff _ = (λ h. cc, λ h. cc (h AttemptStatus.failed))

-- The statuses that an attempt goes through, one allowed transition after another.
pub data History : AttemptStatus → List AttemptStatus → Type 0 where
  start : {s : AttemptStatus} → s ≡ AttemptStatus.queued → History s (s ∷ [])
  step :
      {s t : AttemptStatus} {past : List AttemptStatus}
      → History s past
      → allows attempt_statuses s t ≡ true
      → History t (t ∷ past)

came_from :
    {t : AttemptStatus} {past : List AttemptStatus}
    → History t past
    → t ≢ AttemptStatus.queued
    → (s : AttemptStatus) × (earlier : List AttemptStatus) × (past ≡ t ∷ earlier)
      × History s earlier
      × (allows attempt_statuses s t ≡ true)
came_from (start e) n = absurd (n e)
came_from (step {s} {past} h a) n = (s, past, refl, h, a)

before_accepted :
    (s : AttemptStatus)
    → allows attempt_statuses s AttemptStatus.accepted ≡ true
    → s ≡ AttemptStatus.awaiting_review
unfolding AttemptStatus-discrete
before_accepted AttemptStatus.awaiting_review h = refl
before_accepted _ h = cc

before_review :
    (s : AttemptStatus)
    → allows attempt_statuses s AttemptStatus.awaiting_review ≡ true
    → s ≡ AttemptStatus.evaluating
unfolding AttemptStatus-discrete
before_review AttemptStatus.evaluating h = refl
before_review _ h = cc

before_evaluating :
    (s : AttemptStatus)
    → allows attempt_statuses s AttemptStatus.evaluating ≡ true
    → (s ≡ AttemptStatus.running) ⊎ (s ≡ AttemptStatus.generated)
unfolding AttemptStatus-discrete
before_evaluating AttemptStatus.running h = inl refl
before_evaluating AttemptStatus.generated h = inr refl
before_evaluating _ h = cc

before_generated :
    (s : AttemptStatus)
    → allows attempt_statuses s AttemptStatus.generated ≡ true
    → s ≡ AttemptStatus.running
unfolding AttemptStatus-discrete
before_generated AttemptStatus.running h = refl
before_generated _ h = cc

head-Memᴰ : {t : AttemptStatus} {past : List AttemptStatus} → History t past → Memᴰ t past
head-Memᴰ (start e) = Memᴰ.head refl
head-Memᴰ (step h a) = Memᴰ.head refl

-- The status before the last one has been gone through.
earlier-Memᴰ :
    {s t u : AttemptStatus} {past earlier : List AttemptStatus}
    → past ≡ t ∷ earlier
    → u ≡ s
    → History s earlier
    → Memᴰ u past
earlier-Memᴰ e same h = rw (e, same) (Memᴰ.tail (head-Memᴰ h))

older-Memᴰ :
    {t u : AttemptStatus} {past earlier : List AttemptStatus}
    → past ≡ t ∷ earlier
    → Memᴰ u earlier
    → Memᴰ u past
older-Memᴰ e m = rw e (Memᴰ.tail m)

generated_ran :
    {s : AttemptStatus} {past : List AttemptStatus}
    → s ≡ AttemptStatus.generated
    → History s past
    → Memᴰ AttemptStatus.running past
generated_ran e h =
    let (s, earlier, shape, before, allowed) = came_from h (λ q. cc) in
    earlier-Memᴰ shape (sym (before_generated s (rw e at allowed))) before

evaluating_ran :
    {s : AttemptStatus} {past : List AttemptStatus}
    → s ≡ AttemptStatus.evaluating
    → History s past
    → Memᴰ AttemptStatus.running past
evaluating_ran e h =
    let (s, earlier, shape, before, allowed) = came_from h (λ q. cc) in
    elim (before_evaluating s (rw e at allowed)) [
      | inl ran ↦ earlier-Memᴰ shape (sym ran) before
      | inr done ↦ older-Memᴰ shape (generated_ran done before)
    ]

review_evaluated :
    {s : AttemptStatus} {past : List AttemptStatus}
    → s ≡ AttemptStatus.awaiting_review
    → History s past
    → Memᴰ AttemptStatus.running past × Memᴰ AttemptStatus.evaluating past
review_evaluated e h =
    let (s, earlier, shape, before, allowed) = came_from h (λ q. cc) in
    let was : s ≡ AttemptStatus.evaluating = before_review s (rw e at allowed) in
    (older-Memᴰ shape (evaluating_ran was before), earlier-Memᴰ shape (sym was) before)

-- An attempt that reaches `accepted` by the table has been `running`, `evaluating` and
-- `awaiting_review` before.
pub accepted-History :
    (past : List AttemptStatus)
    → History AttemptStatus.accepted past
    → Memᴰ AttemptStatus.running past
      × Memᴰ AttemptStatus.evaluating past
      × Memᴰ AttemptStatus.awaiting_review past
accepted-History past h =
    let (s, earlier, shape, before, allowed) = came_from h (λ q. cc) in
    let was = before_accepted s allowed in
    let (ran, evaluated) = review_evaluated was before in
    (older-Memᴰ shape ran, older-Memᴰ shape evaluated, earlier-Memᴰ shape (sym was) before)

-- The status of an entity parses to itself.
pub parse_project_status-name :
    (s : ProjectStatus) → parse_project_status (string (ProjectStatus.name s)) ≡ ok s
parse_project_status-name s = ((parse_statuses_iff (string (ProjectStatus.name s))).0 s).1 refl

pub parse_shot_status-name :
    (s : ShotStatus) → parse_shot_status (string (ShotStatus.name s)) ≡ ok s
parse_shot_status-name s = ((parse_statuses_iff (string (ShotStatus.name s))).1 s).1 refl

pub parse_attempt_status-name :
    (s : AttemptStatus) → parse_generation_attempt_status (string (AttemptStatus.name s)) ≡ ok s
parse_attempt_status-name s = ((parse_statuses_iff (string (AttemptStatus.name s))).2 s).1 refl
