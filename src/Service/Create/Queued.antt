-- ===== src/Service/Create/Queued.antt =====
-- What the writes of a new attempt leave.
use auto_camera.Common.{
  Result-cases, inl, inr, ℕ, ◌+◌, ◌≡◌, refl, sym, ap, ◌∙◌, Bool, true, false, Option, none, Text,
  text,
}
use auto_camera.Js.Map.{get, set}
use auto_camera.Domain.Money.{MicroUsd}
use auto_camera.Domain.Project.{VideoProject, transition_project}
use auto_camera.Domain.Unknown.{string}
use auto_camera.Domain.Project.Laws.{transition_project_iff}
use auto_camera.Domain.Shot.{Shot}
use auto_camera.Domain.Attempt.{GenerationAttempt}
use auto_camera.Store.State.{MemoryState, WorkflowRevisionRecord}
use auto_camera.Store.Attempts.Creation.{create-eq-ok}
use auto_camera.Store.Projects.Laws.{update_shot-eq-ok, update_project-eq-ok}
use auto_camera.Store.Transaction.{World, checked}
use auto_camera.Store.Transaction.Laws.{
  Ensures, throws, done-Ensures, go_on-Ensures, checked-Ensures, refuse_if-Ensures, write-Ensures,
  time-Ensures, Ensures-eq,
}
use auto_camera.Service.Events.{GenerationService}
use auto_camera.Domain.ProjectStatus.{ProjectStatus}
use auto_camera.Domain.ShotStatus.{ShotStatus}
use auto_camera.Service.Review.Writes.{project_step, shot_step, shot_step_to}
use auto_camera.Service.Events.Laws.{
  SameEntities, same-SameEntities, SameEntities-trans, append_event-SameEntities,
  append_event-Ensures,
}
use auto_camera.Service.Create.{
  admission, Admission, starts, stays, refused, project_for_attempt, announce_regeneration,
  queue_attempt,
}

-- The version of a project that an attempt is made in.
abbrev pub raised : Admission → ℕ → ℕ
raised starts version = version + 1
raised stays version = version
raised refused version = version + 1

stays_generating : (s : ProjectStatus) → stays ≡ admission s → s ≡ ProjectStatus.generating
stays_generating ProjectStatus.generating h = refl
stays_generating _ h = cc

project_for_attempt-kept :
    (how : Admission) (project : VideoProject) (w : World)
    → Ensures
        (λ next w'.
          (w' ≡ w)
          × (next.id ≡ project.id)
          × (next.budget_microusd ≡ project.budget_microusd)
          × (next.version ≡ raised how project.version)
          × (how ≡ admission project.status → next.status ≡ ProjectStatus.generating))
        (project_for_attempt how project w)
unfolding project_for_attempt checked
project_for_attempt-kept starts project w =
    elim (Result-cases (transition_project project (string (text "generating")))) [
      | inl (code, e) ↦ rw e (throws _ w refl)
      | inr (next, e) ↦
          let (_, _, _, _, same) = (transition_project_iff project next _).0 e in
          rw e (
            done-Ensures (
              refl,
              ap (λ x. x.id) same,
              ap (λ x. x.budget_microusd) same,
              ap (λ x. x.version) same,
              λ _. project_step ProjectStatus.generating project next e,
            ))
    ]
project_for_attempt-kept stays project w =
    done-Ensures (refl, refl, refl, refl, stays_generating project.status)
project_for_attempt-kept refused project w = refuse_if-Ensures _ _ _ _ λ no. cc

-- What the writes of a new attempt leave.
pub record Queued (project : VideoProject) (shot : Shot) (spent : MicroUsd) (s : MemoryState)
    (attempt : GenerationAttempt) (t : MemoryState) : Type 0 where
  pub next : VideoProject
  pub queued : Shot
  pub fresh : get attempt.id s.attempts ≡ none
  pub attempts : t.attempts ≡ set attempt.id attempt s.attempts
  pub same_shot : queued.id ≡ shot.id
  pub same_accepted : queued.accepted_attempt_id ≡ shot.accepted_attempt_id
  pub is_queued : queued.status ≡ ShotStatus.queued
  pub shot_version : queued.version ≡ shot.version + 1
  pub shots : t.shots ≡ set queued.id queued s.shots
  pub same_project : next.id ≡ project.id
  pub same_budget : next.budget_microusd ≡ project.budget_microusd
  pub version : next.version ≡ raised (admission project.status) project.version
  pub is_generating : next.status ≡ ProjectStatus.generating
  pub spent_microusd : next.spent_microusd ≡ spent
  pub projects : t.projects ≡ set next.id next s.projects

all_written :
    (r s t u v x y : MemoryState) (attempt : GenerationAttempt) (shot : Shot)
    (project : VideoProject)
    → s ≡ r
    → t ≡ record s { attempts = set attempt.id attempt s.attempts }
    → u ≡ t
    → v ≡ record u { shots = set shot.id shot u.shots }
    → x ≡ v
    → y ≡ record x { projects = set project.id project x.projects }
    → y ≡ record r {
      attempts = set attempt.id attempt r.attempts;
      shots = set shot.id shot r.shots;
      projects = set project.id project r.projects;
    }
all_written r s t u v x y attempt shot project h0 h1 h2 h3 h4 h5 = rw (h5, h4, h3, h2, h1, h0) refl

module _ (service : GenerationService) where
  announce_regeneration-SameEntities :
      (again : Bool) (source_id project_id shot_id attempt_id : Text) (w : World)
      → Ensures
          (λ _ w'. SameEntities w.store w'.store)
          (announce_regeneration service again source_id project_id shot_id attempt_id w)
  unfolding announce_regeneration
  announce_regeneration-SameEntities false source_id project_id shot_id attempt_id w =
      done-Ensures (same-SameEntities w.store w.store refl)
  announce_regeneration-SameEntities true source_id project_id shot_id attempt_id w =
      append_event-SameEntities service _ w

  pub queue_attempt-Queued :
      (project : VideoProject) (shot : Shot) (revision : WorkflowRevisionRecord)
      (attempt : GenerationAttempt) (spent : MicroUsd) (now : Text) (source : Option Text)
      (s : MemoryState) (w : World)
      → w.store ≡ s
      → Ensures
          (λ result w'. (result ≡ attempt) × Queued project shot spent s attempt w'.store)
          (queue_attempt service project shot revision attempt spent now source w)
  unfolding queue_attempt
  queue_attempt-Queued project shot revision attempt spent now source s w start =
      write-Ensures _ _ _ λ w1 h1. checked-Ensures _ _ _ λ queued step.
        time-Ensures _ _ _ λ shot_time w2 same2. write-Ensures _ _ _ λ w3 h3.
          go_on-Ensures _ _ λ next w4 h4. write-Ensures _ _ _ λ w5 h5.
            append_event-Ensures service _ _ _ λ w6 h6. go_on-Ensures _ _ λ _ w7 h7.
              let (fresh, _, _, created) = create-eq-ok attempt w.store w1.store h1 in
              let (queued_id, queued_names) = shot_step shot queued _ step in
              let (is_queued, shot_version) = shot_step_to ShotStatus.queued shot queued step in
              let shot_written = update_shot-eq-ok _ shot.version w2.store w3.store h3 in
              let (same4, next_id', next_budget, next_version, goes_on) =
                Ensures-eq (project_for_attempt-kept (admission project.status) project w3) h4 in
              let project_written = update_project-eq-ok _ project.version w4.store w5.store h5 in
              let told =
                SameEntities-trans h6
                  (Ensures-eq (announce_regeneration-SameEntities _ _ _ _ _ w6) h7) in
              let charged : VideoProject = record next {
                spent_microusd = spent;
                updated_at = now;
              } in
              let closed : Shot = record queued { updated_at = shot_time } in
              let stored =
                all_written s w.store w1.store w2.store w3.store w4.store w5.store attempt closed
                  charged start created same2 shot_written (ap (λ x. x.store) same4)
                  project_written in
              done-Ensures (
                refl,
                record {
                  next = charged;
                  queued = closed;
                  fresh = ap (λ x. get attempt.id x.attempts) (sym start) ∙ fresh;
                  attempts = told.attempts ∙ ap (λ x. x.attempts) stored;
                  same_shot = queued_id;
                  same_accepted = queued_names;
                  is_queued = is_queued;
                  shot_version = shot_version;
                  shots = told.shots ∙ ap (λ x. x.shots) stored;
                  same_project = next_id';
                  same_budget = next_budget;
                  version = next_version;
                  is_generating = goes_on refl;
                  spent_microusd = refl;
                  projects = told.projects ∙ ap (λ x. x.projects) stored;
                },
              )
