-- ===== src/Service/Decisions.antt =====
-- The transactions of the service at the sample worlds.
use auto_camera.Common.{
  text, sym, ap, ◌∙◌, ◌+◌, ◌≡◌, ◌↔◌, refl, ◌⊎◌, false, true, none, some, ok, err, length, leb, ◌||◌,
}
use auto_camera.Js.Map.{get, get-one}
use auto_camera.Store.Attempts.{find_by_id}
use auto_camera.Domain.AttemptStatus.{is_terminal, AttemptStatus}
use auto_camera.Domain.ProjectStatus.{ProjectStatus}
use auto_camera.Domain.Project.{over_budget}
use auto_camera.Domain.Attempt.{generation_timeout, GenerationAttempt, truthy_text}
use auto_camera.Domain.Samples.{some_id}
use auto_camera.Store.State.{MemoryState}
use auto_camera.Store.Projects.{find_project, update_project}
use auto_camera.Store.Transaction.{Thrown, World, with_transaction}
use auto_camera.Store.Listing.{list_by_shot}
use auto_camera.Service.Review.{
  accept_attempt_in_transaction, pin_attempt_in_transaction, is_awaiting_review,
}
use auto_camera.Service.Review.Accept.{Acceptance}
use auto_camera.Service.Create.{create_managed_attempt_in_transaction}
use auto_camera.Service.Create.Admitted.{Admitted}
use auto_camera.Service.Steps.{Run, stop, go, pins, accepts, Run-accepted_once}
use auto_camera.Service.Sound.{Sound, WithinBudget, slot}
use auto_camera.Service.Slot.{Writes, Run-refines_register}
use auto_camera.Service.Outcomes.{
  accept_attempt_lem, create_managed_attempt_lem, create_managed_attempt-stale_iff,
  create_managed_attempt-denied,
}
use auto_camera.Service.Worker.{timed_out}
use auto_camera.Service.Finish.Results.{Concluded, finish_success_lem}
use auto_camera.Service.Worker.Ends.{Ended, fail_attempt_lem}
use auto_camera.Service.Samples.{
  service_runs, sample_service, reviewing, accepted_attempt, accepted_shot, completed_project,
  after_acceptance, acceptance, creating, sample_command, new_attempt, after_creation, creation,
  final_project, running, after_timeout, timeout, sample_outcome, after_result, result,
  busy_project, spent_project, exhausted, shown_attempt,
}

abbrev pinned : World
pinned = (with_transaction (pin_attempt_in_transaction sample_service some_id) reviewing).1

abbrev finished : World
finished = (with_transaction (accept_attempt_in_transaction sample_service some_id) pinned).1

-- A pin and then the acceptance.
run : Run sample_service reviewing finished
run = go (pins some_id _ refl) (go (accepts some_id _ refl) stop)

-- The run does accept.
run_accepts : slot some_id finished.store ≡ some some_id
unfolding service_runs
run_accepts = refl

within_budget : WithinBudget reviewing.store.projects
within_budget k project h = rw (get-one k some_id final_project project h) refl

reviewing-Sound : Sound reviewing
unfolding service_runs
reviewing-Sound = (
  record {
    attempts_keyed = (refl, refl, tt);
    shots_keyed = (refl, refl, tt);
    named = λ j a there final.
        let same = get-one j some_id shown_attempt a there in
        let no : AttemptStatus.awaiting_review ≡ AttemptStatus.accepted =
          ap (λ x. x.status) (sym same) ∙ final in
        cc;
  },
  within_budget,
)

there : get some_id finished.store.attempts ≡ some accepted_attempt
unfolding service_runs
there = refl

project_there : get some_id finished.store.projects ≡ some completed_project
unfolding service_runs
project_there = refl

Run-accepted_once_example :
    (some_id ≡ some_id)
    × (over_budget completed_project.budget_microusd completed_project.spent_microusd ≡ false)
Run-accepted_once_example =
    Run-accepted_once sample_service reviewing finished some_id some_id some_id accepted_attempt
      accepted_attempt completed_project run reviewing-Sound there there refl refl refl
      project_there

Run-refines_register_example :
    Writes (slot some_id reviewing.store) (slot some_id finished.store)
    × ((truthy_text (slot some_id reviewing.store) ≡ false)
        ⊎ (slot some_id finished.store ≡ slot some_id reviewing.store))
Run-refines_register_example =
    Run-refines_register sample_service some_id reviewing finished run reviewing-Sound

accept_attempt_lem_example :
    Acceptance sample_service reviewing some_id
      (accepted_attempt, accepted_shot, completed_project)
      after_acceptance
accept_attempt_lem_example =
    accept_attempt_lem sample_service some_id (accepted_attempt, accepted_shot, completed_project)
      reviewing after_acceptance acceptance

create_managed_attempt_lem_example :
    Admitted sample_service some_id some_id sample_command creating.store new_attempt
      after_creation.store
create_managed_attempt_lem_example =
    create_managed_attempt_lem sample_service some_id some_id sample_command none creating
      after_creation new_attempt creation

busy_found : find_project some_id some_id creating.store ≡ some busy_project
unfolding service_runs
busy_found = refl

create_managed_attempt-stale_iff_example :
    ((after : MemoryState) × (update_project busy_project busy_project.version after_creation.store
        ≡ ok after))
    ↔ (busy_project.status ≡ ProjectStatus.generating)
create_managed_attempt-stale_iff_example =
    create_managed_attempt-stale_iff sample_service some_id some_id sample_command none creating
      after_creation new_attempt busy_project busy_project creation busy_found refl

spent_found : find_project some_id some_id exhausted.store ≡ some spent_project
unfolding service_runs
spent_found = refl

spent_denied :
    (leb sample_service.max_attempts_per_shot
        (length (list_by_shot sample_service.locale_compare some_id some_id exhausted.store))
      || over_budget spent_project.budget_microusd
          (spent_project.spent_microusd + sample_service.estimated_attempt_cost_microusd))
    ≡ true
unfolding service_runs
spent_denied = refl

create_managed_attempt-denied_example :
    (e : Thrown) × (after : World) × (with_transaction
        (create_managed_attempt_in_transaction sample_service some_id some_id sample_command none)
        exhausted
      ≡ (err e, after))
    × (after.store ≡ exhausted.store)
create_managed_attempt-denied_example =
    create_managed_attempt-denied sample_service some_id some_id sample_command none exhausted
      after_creation spent_project spent_found spent_denied

fail_attempt_lem_example :
    ((find_by_id some_id some_id running.store ≡ none) × (after_timeout ≡ running))
    ⊎ ((before : GenerationAttempt) × (find_by_id some_id some_id running.store ≡ some before)
        × (is_terminal before.status ≡ true)
        × (after_timeout ≡ running))
    ⊎ ((before : GenerationAttempt) × (find_by_id some_id some_id running.store ≡ some before)
        × (is_terminal before.status ≡ false)
        × Ended sample_service timed_out generation_timeout
            (text "too late")
            before
            running.store.attempts
            after_timeout.store.attempts)
fail_attempt_lem_example =
    fail_attempt_lem sample_service timed_out generation_timeout (text "too late") some_id running
      after_timeout timeout

finish_success_lem_example :
    ((find_by_id some_id some_id running.store ≡ none)
      × (after_result.store.attempts ≡ running.store.attempts))
    ⊎ ((before : GenerationAttempt) × (find_by_id some_id some_id running.store ≡ some before)
        × ((is_terminal before.status || is_awaiting_review before.status) ≡ true)
        × (after_result.store.attempts ≡ running.store.attempts))
    ⊎ ((before : GenerationAttempt) × (find_by_id some_id some_id running.store ≡ some before)
        × ((is_terminal before.status || is_awaiting_review before.status) ≡ false)
        × Concluded sample_outcome before running.store.attempts after_result.store.attempts)
finish_success_lem_example =
    finish_success_lem sample_service sample_outcome some_id running after_result result
