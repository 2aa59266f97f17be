-- ===== src/Service/Sound.antt =====
-- What the transactions of the service keep, and the steps that leave the accepted attempts alone.
use auto_camera.Common.{
  if◌then◌else◌, ◌≡◌, ◌≢◌, ◌⊎◌, refl, sym, ap, ◌∙◌, false, Option, none, some, Text, text_eq,
  text_eq_iff, inl, inr, Bool-cases,
}
use auto_camera.Js.Map.{Map, get, set, get-set, get-set_cases, get-IsKeyed}
use auto_camera.Domain.AttemptStatus.{AttemptStatus}
use auto_camera.Domain.Project.{VideoProject, over_budget}
use auto_camera.Domain.Shot.{Shot}
use auto_camera.Domain.Attempt.{GenerationAttempt}
use auto_camera.Store.State.{MemoryState}
use auto_camera.Store.Transaction.{World}
use auto_camera.Service.Accepted.{AcceptedOnce, attempt-AcceptedOnce}
use auto_camera.Service.Events.Laws.{SameEntities}
use auto_camera.Service.Review.Accept.{Fits}
use auto_camera.Service.Review.Others.{Revised}
use auto_camera.Service.Review.Once.{Revised-AcceptedOnce}

-- No project has spent more than its budget.
abbrev pub WithinBudget : Map VideoProject → Type 0
WithinBudget projects =
    (k : Text) (project : VideoProject)
    → get k projects ≡ some project
    → over_budget project.budget_microusd project.spent_microusd ≡ false

-- What every transaction keeps.
abbrev pub SoundStore : MemoryState → Type 0
SoundStore s = AcceptedOnce s.attempts s.shots × WithinBudget s.projects

abbrev pub Sound : World → Type 0
Sound w = SoundStore w.store

-- `shot?.acceptedAttemptId`
abbrev pub accepted_of : Option Shot → Option Text
accepted_of none = none
accepted_of (some shot) = shot.accepted_attempt_id

abbrev pub slot : Text → MemoryState → Option Text
slot k s = accepted_of (get k s.shots)

pub set-WithinBudget :
    (projects : Map VideoProject) (new : VideoProject)
    → over_budget new.budget_microusd new.spent_microusd ≡ false
    → WithinBudget projects
    → WithinBudget (set new.id new projects)
set-WithinBudget projects new fits within k project there =
    elim (get-set_cases new.id k new project projects there) [
      | inl (_, same) ↦ rw same fits
      | inr old ↦ within k project old
    ]

pub Fits-WithinBudget :
    (projects after : Map VideoProject)
    → Fits projects after
    → WithinBudget projects
    → WithinBudget after
Fits-WithinBudget projects after (inl same) within = rw same within
Fits-WithinBudget projects after (inr (new, fits, written)) within =
    rw written (set-WithinBudget projects new fits within)

-- A shot that is written keeps the slots of all, if its own stays.
pub slot-set :
    (k : Text) (new : Shot) (s t : MemoryState)
    → t.shots ≡ set new.id new s.shots
    → (slot k t ≡ slot k s) ⊎ ((new.id ≡ k) × (slot k t ≡ new.accepted_attempt_id))
slot-set k new s t written =
    let there : get k t.shots ≡ (if text_eq new.id k then some new else get k s.shots) =
      ap (get k) written ∙ get-set new.id k new s.shots in
    elim (Bool-cases (text_eq new.id k)) [
      | inl e ↦ inr (
        (text_eq_iff new.id k).0 e,
        let own : get k t.shots ≡ some new = there ∙ rw e refl in ap accepted_of own,
      )
      | inr e ↦
          let old : get k t.shots ≡ get k s.shots = there ∙ rw e refl in inl (ap accepted_of old)
    ]

pub slot-Revised :
    (k : Text) (new : Shot) (s t : MemoryState)
    → AcceptedOnce s.attempts s.shots
    → Revised s.shots new t.shots
    → slot k t ≡ slot k s
slot-Revised k new s t once revised = elim (slot-set k new s t revised.written) [
  | inl same ↦ same
  | inr (own, filled) ↦
      let key : revised.key ≡ k =
        get-IsKeyed (λ x. x.id) revised.key revised.old s.shots once.shots_keyed revised.found
        ∙ (sym revised.same_id ∙ own) in
      let there : get k s.shots ≡ some revised.old =
        ap (λ j. get j s.shots) (sym key) ∙ revised.found in
      filled ∙ (revised.same_accepted ∙ ap accepted_of (sym there))
]

-- A change that keeps what is sound and every accepted attempt of a shot.
abbrev pub Quiet : MemoryState → MemoryState → Type 0
Quiet s t = SoundStore s → SoundStore t × ((k : Text) → slot k t ≡ slot k s)

pub Quiet-trans : (s t u : MemoryState) → Quiet s t → Quiet t u → Quiet s u
Quiet-trans s t u first second sound =
    let (middle, same) = first sound in
    let (last, kept) = second middle in (last, λ k. kept k ∙ same k)

pub same-Quiet : (s t : MemoryState) → t ≡ s → Quiet s t
same-Quiet s t same sound = rw same (sound, λ k. refl)

pub SameEntities-Quiet : (s t : MemoryState) → SameEntities s t → Quiet s t
SameEntities-Quiet s t same (once, within) = (
  (rw (same.attempts, same.shots) once, rw same.projects within),
  λ k. ap (λ x. accepted_of (get k x)) same.shots,
)

pub attempt-Quiet :
    (new : GenerationAttempt) (s t : MemoryState)
    → new.status ≢ AttemptStatus.accepted
    → t ≡ record s { attempts = set new.id new s.attempts }
    → Quiet s t
attempt-Quiet new s t other written (once, within) =
    rw written ((attempt-AcceptedOnce once new λ final. elim (other final) [ ], within), λ k. refl)

pub shot-Quiet :
    (new : Shot) (s t : MemoryState)
    → Revised s.shots new (set new.id new s.shots)
    → t ≡ record s { shots = set new.id new s.shots }
    → Quiet s t
shot-Quiet new s t revised written (once, within) = rw written (
  (Revised-AcceptedOnce once new revised, within),
  λ k. slot-Revised k new s (record s { shots = set new.id new s.shots }) once revised,
)

pub project-Quiet :
    (new : VideoProject) (s t : MemoryState)
    → over_budget new.budget_microusd new.spent_microusd ≡ false
    → t ≡ record s { projects = set new.id new s.projects }
    → Quiet s t
project-Quiet new s t fits written (once, within) =
    rw written ((once, set-WithinBudget s.projects new fits within), λ k. refl)
