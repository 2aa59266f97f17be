-- ===== src/Service/Slot.antt =====
-- The accepted attempt of a shot as a register that is written once, and how the transactions of the
-- service refine it.
use auto_camera.Common.{
  Bool-cases, ◌⊎◌, ◌≡◌, refl, sym, ap, ◌∙◌, true, false, Option, some, Text, inl, inr,
}
use auto_camera.Js.Map.{get, set, get-IsKeyed}
use auto_camera.Domain.Shot.{Shot}
use auto_camera.Domain.Attempt.{truthy_text}
use auto_camera.Store.State.{MemoryState}
use auto_camera.Store.Transaction.{World}
use auto_camera.Service.Events.{GenerationService}
use auto_camera.Service.Accepted.{AcceptedOnce}
use auto_camera.Service.Review.Accept.{accept-Acceptance}
use auto_camera.Service.Review.Others.{
  Revised, reject-Rejection, pin-Pinning, unpin-Unpinning, review-Noting,
}
use auto_camera.Service.Sound.{Sound, SoundStore, Quiet, slot, slot-set, slot-Revised}
use auto_camera.Service.Finish.Kept.{finish_success-Quiet}
use auto_camera.Service.Worker.Kept.{
  persist_submitted-Quiet, mark_running-Quiet, mark_progress-Quiet, fail_attempt-Quiet,
}
use auto_camera.Service.Create.Admitted.{create_managed_attempt-Admitted}
use auto_camera.Service.Steps.{
  Step, Run, stop, go, accepts, rejects, pins, unpins, reviews, creates, submits, starts,
  progresses, ends, finishes, Step-Sound, transaction-after, Admitted-Revised,
}

-- The register: it is empty or holds an identifier, and it is filled only while it is empty.
pub data Write : Option Text → Option Text → Type 0 where
  keeps : {o : Option Text} → Write o o
  fills : {o : Option Text} (id : Text) → truthy_text o ≡ false → Write o (some id)

pub data Writes : Option Text → Option Text → Type 0 where
  nothing : {o : Option Text} → Writes o o
  next : {a b c : Option Text} → Write a b → Writes b c → Writes a c

-- A register that is full stays as it is.
full_stays : (o p : Option Text) → Writes o p → truthy_text o ≡ true → p ≡ o
full_stays o p nothing full = refl
full_stays o p (next keeps rest) full = full_stays o p rest full
full_stays o p (next (fills id empty) rest) full = let no : false ≡ true = sym empty ∙ full in cc

-- A shot is written: its slot is filled while it is empty, and all others stay.
set-Write :
    (k : Text) (new : Shot) (s t : MemoryState)
    → Write (slot new.id s) new.accepted_attempt_id
    → t.shots ≡ set new.id new s.shots
    → Write (slot k s) (slot k t)
set-Write k new s t step written = elim (slot-set k new s t written) [
  | inl same ↦ rw same keeps
  | inr (own, filled) ↦ rw (filled, ← own) step
]

Revised-Write :
    (k : Text) (s t : MemoryState) (new : Shot)
    → AcceptedOnce s.attempts s.shots
    → Revised s.shots new t.shots
    → Write (slot k s) (slot k t)
Revised-Write k s t new once revised = rw (slot-Revised k new s t once revised) keeps

same-Write : (k : Text) (s t : MemoryState) → t.shots ≡ s.shots → Write (slot k s) (slot k t)
same-Write k s t same = rw same keeps

Quiet-Write :
    (k : Text) (s t : MemoryState) → Quiet s t → SoundStore s → Write (slot k s) (slot k t)
Quiet-Write k s t quiet sound = rw ((quiet sound).1 k) keeps

module _ (service : GenerationService) where
  Step-Write :
      (k : Text) (w w' : World)
      → Step service w w'
      → Sound w
      → Write (slot k w.store) (slot k w'.store)
  Step-Write k w w' (accepts id r h) (once, _) =
      transaction-after (λ s. Write (slot k w.store) (slot k s)) _ w w' r
        (accept-Acceptance service id w)
        (λ (accepted, closed, project)
            (before, _, shot, _, _, _, _, at_shot, free, _, _, _, _, names, closed_id, _, shots, _).
          let key =
            get-IsKeyed (λ x. x.id) before.shot_id shot w.store.shots once.shots_keyed at_shot
            ∙ sym closed_id in
          let there : get closed.id w.store.shots ≡ some shot =
            ap (λ j. get j w.store.shots) (sym key) ∙ at_shot in
          set-Write k closed w.store w'.store (rw (there, names) (fills before.id free)) shots)
        keeps h
  Step-Write k w w' (rejects id reason r h) (once, _) =
      transaction-after (λ s. Write (slot k w.store) (slot k s)) _ w w' r
        (reject-Rejection service id reason w)
        (λ (rejected, closed, project) (_, _, _, _, _, _, _, revised).
          Revised-Write k w.store w'.store closed once revised)
        keeps h
  Step-Write k w w' (pins id r h) (once, _) =
      transaction-after (λ s. Write (slot k w.store) (slot k s)) _ w w' r (pin-Pinning service id w)
        (λ (attempt, pinned, project, evaluation) (_, _, _, _, revised).
          Revised-Write k w.store w'.store pinned once revised)
        keeps h
  Step-Write k w w' (unpins id r h) (once, _) =
      transaction-after (λ s. Write (slot k w.store) (slot k s)) _ w w' r
        (unpin-Unpinning service id w)
        (λ (attempt, shot) (_, _, _, _, shots). elim shots [
          | inl same ↦ same-Write k w.store w'.store same
          | inr revised ↦ Revised-Write k w.store w'.store shot once revised
        ])
        keeps h
  Step-Write k w w' (reviews id decision remark author r h) sound =
      transaction-after (λ s. Write (slot k w.store) (slot k s)) _ w w' r
        (review-Noting service id decision remark author w)
        (λ reviewed (_, _, same, _). same-Write k w.store w'.store same) keeps h
  Step-Write k w w' (creates project_id shot_id command source r h) (once, _) =
      transaction-after (λ s. Write (slot k w.store) (slot k s)) _ w w' r
        (create_managed_attempt-Admitted service project_id shot_id command source w)
        (λ attempt admitted.
          Revised-Write k w.store w'.store admitted.written.queued once
            (Admitted-Revised service project_id shot_id command w attempt w' admitted))
        keeps h
  Step-Write k w w' (submits id prompt_id r h) sound =
      transaction-after (λ s. Write (slot k w.store) (slot k s)) _ w w' r
        (persist_submitted-Quiet service id prompt_id w)
        (λ _ quiet. Quiet-Write k w.store w'.store quiet sound) keeps h
  Step-Write k w w' (starts id r h) sound =
      transaction-after (λ s. Write (slot k w.store) (slot k s)) _ w w' r
        (mark_running-Quiet service id w) (λ _ quiet. Quiet-Write k w.store w'.store quiet sound)
        keeps h
  Step-Write k w w' (progresses id value max prompt_id r h) sound =
      transaction-after (λ s. Write (slot k w.store) (slot k s)) _ w w' r
        (mark_progress-Quiet service id value max prompt_id w)
        (λ _ quiet. Quiet-Write k w.store w'.store quiet sound) keeps h
  Step-Write k w w' (ends id failure code message r h) sound =
      transaction-after (λ s. Write (slot k w.store) (slot k s)) _ w w' r
        (fail_attempt-Quiet service id failure code message w)
        (λ _ quiet. Quiet-Write k w.store w'.store quiet sound) keeps h
  Step-Write k w w' (finishes id outcome r h) sound =
      transaction-after (λ s. Write (slot k w.store) (slot k s)) _ w w' r
        (finish_success-Quiet service id outcome w)
        (λ _ quiet. Quiet-Write k w.store w'.store quiet sound) keeps h

  Run-Writes :
      (k : Text) (w w' : World)
      → Run service w w'
      → Sound w
      → Writes (slot k w.store) (slot k w'.store)
  Run-Writes k w w' stop sound = nothing
  Run-Writes k w w' (go {v = v} step rest) sound =
      next (Step-Write k w v step sound)
        (Run-Writes k v w' rest (Step-Sound service w v step sound))

  -- Along any run of the transactions of Service/Steps, the accepted attempt of each shot does what
  -- a register that is written once does: it changes only while it is empty, by taking an
  -- identifier, and one that is full at the start is the same at the end. At the start the entities
  -- stand under their own identifiers, each accepted attempt is the one its shot names, and no
  -- project is over its budget.
  pub Run-refines_register :
      (k : Text) (w w' : World)
      → Run service w w'
      → Sound w
      → Writes (slot k w.store) (slot k w'.store)
        × ((truthy_text (slot k w.store) ≡ false) ⊎ (slot k w'.store ≡ slot k w.store))
  Run-refines_register k w w' run sound =
      let writes = Run-Writes k w w' run sound in
      (
        writes,
        elim (Bool-cases (truthy_text (slot k w.store))) [
          | inl full ↦ inr (full_stays _ _ writes full)
          | inr vacant ↦ inl vacant
        ],
      )
