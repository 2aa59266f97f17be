-- ===== src/Service/Events/Laws.antt =====
-- What an event leaves: the entities of the store.
use auto_camera.Common.{Text, ◌≡◌, refl, some, ok, err, ◌∙◌, Bool-cases, Option-cases, inl, inr}
use auto_camera.Js.Map.{has}
use auto_camera.Domain.Event.{DomainEvent}
use auto_camera.Domain.Attempt.{GenerationAttempt}
use auto_camera.Store.State.{Stored, MemoryState, unique_violation}
use auto_camera.Store.Attempts.{find_by_id}
use auto_camera.Store.Events.{append, enqueue}
use auto_camera.Store.Transaction.{World, Work, go_on, find_in, require}
use auto_camera.Store.Transaction.Laws.{
  Ensures, find_in-Ensures, next_id-Ensures, read_clock-Ensures, checked-Ensures, write-Ensures,
  go_on-Ensures, write_last-Ensures, Ensures-eq, throws,
}
use auto_camera.Service.Events.{GenerationService, EventInput, append_event, require_attempt}

-- Two states with the same entities, which may differ in events and messages.
pub record SameEntities (s t : MemoryState) : Type 0 where
  pub attempts : t.attempts ≡ s.attempts
  pub workflow_revisions : t.workflow_revisions ≡ s.workflow_revisions
  pub projects : t.projects ≡ s.projects
  pub shots : t.shots ≡ s.shots
  pub evaluations : t.evaluations ≡ s.evaluations

pub same-SameEntities : (s t : MemoryState) → t ≡ s → SameEntities s t
same-SameEntities s t e = rw e (record {
  attempts = refl;
  workflow_revisions = refl;
  projects = refl;
  shots = refl;
  evaluations = refl;
})

pub SameEntities-trans :
    {s t u : MemoryState} → SameEntities s t → SameEntities t u → SameEntities s u
SameEntities-trans a b = record {
  attempts = b.attempts ∙ a.attempts;
  workflow_revisions = b.workflow_revisions ∙ a.workflow_revisions;
  projects = b.projects ∙ a.projects;
  shots = b.shots ∙ a.shots;
  evaluations = b.evaluations ∙ a.evaluations;
}

append-SameEntities :
    (event : DomainEvent) (s t : MemoryState) → append event s ≡ ok t → SameEntities s t
unfolding append
append-SameEntities event s t h = elim (Bool-cases (has event.id s.events)) [
  | inl e ↦ let no : ◌≡◌ {A = Stored MemoryState} (err unique_violation) (ok t) = rw e at h in cc
  | inr e ↦
      let written : ◌≡◌ {A = Stored MemoryState} (ok _) (ok t) = rw e at h in
      record { attempts = cc; workflow_revisions = cc; projects = cc; shots = cc; evaluations = cc }
]

enqueue-SameEntities :
    (event : DomainEvent) (s t : MemoryState) → enqueue event s ≡ ok t → SameEntities s t
unfolding enqueue
enqueue-SameEntities event s t h = elim (Bool-cases (has event.id s.outbox)) [
  | inl e ↦ let no : ◌≡◌ {A = Stored MemoryState} (err unique_violation) (ok t) = rw e at h in cc
  | inr e ↦
      let written : ◌≡◌ {A = Stored MemoryState} (ok _) (ok t) = rw e at h in
      record { attempts = cc; workflow_revisions = cc; projects = cc; shots = cc; evaluations = cc }
]

pub append_event-SameEntities :
    (service : GenerationService) (input : EventInput) (w : World)
    → Ensures (λ _ w'. SameEntities w.store w'.store) (append_event service input w)
unfolding append_event
append_event-SameEntities service input w = find_in-Ensures _ _ _ (
    next_id-Ensures _ _ _ λ id w1 e1. read_clock-Ensures _ _ _ λ date w2 e2.
      checked-Ensures _ _ _ λ event made. write-Ensures _ _ _ λ w3 appended.
        write_last-Ensures _ _ λ w4 queued.
          let before : w2.store ≡ w.store = e2 ∙ e1 in
          SameEntities-trans (same-SameEntities w.store w2.store before) (
            SameEntities-trans (append-SameEntities event w2.store w3.store appended)
              (enqueue-SameEntities event w3.store w4.store queued)))

module _ (service : GenerationService) {B : Type 0} {P : B → World → Type 0} where
  pub append_event-Ensures :
      (rest : Unit {0} → Work B) (input : EventInput) (w : World)
      → ((w' : World) → SameEntities w.store w'.store → Ensures P (rest tt w'))
      → Ensures P (go_on (append_event service input w) rest)
  append_event-Ensures rest input w k =
      go_on-Ensures rest _ λ _ w' h. k w' (Ensures-eq (append_event-SameEntities service input w) h)

  pub require_attempt-Ensures :
      (rest : GenerationAttempt → Work B) (id : Text) (w : World)
      → ((a : GenerationAttempt)
          → find_by_id service.tenant_id id w.store ≡ some a
          → Ensures P (rest a w))
      → Ensures P (go_on (require_attempt service id w) rest)
  unfolding require_attempt find_in go_on require
  require_attempt-Ensures rest id w k =
      elim (Option-cases (find_by_id service.tenant_id id w.store)) [
        | inl e ↦ rw e (throws _ _ refl)
        | inr (a, e) ↦ rw e (k a e)
      ]
