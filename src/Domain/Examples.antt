-- ===== src/Domain/Examples.antt =====
-- The theorems about the domain package at concrete inputs.
use mathlib.Core.List.{Memᴰ}
use auto_camera.Common.{
  ℕ, ◌+◌, ◌≤◌, ◌<◌, ◌≡◌, ◌↔◌, refl, true, false, none, some, List, ◌&&◌, [], ◌∷◌, Text, text, ok,
  err, arith, trim,
}
use auto_camera.Js.Number.{int, pos, max_safe_integer}
use auto_camera.Domain.Error.{invalid_attempt_transition, money_overflow, negative_money}
use auto_camera.Domain.Unknown.{string}
use auto_camera.Domain.Status.{allows}
use auto_camera.Domain.ProjectStatus
use auto_camera.Domain.ProjectStatus.{
  ProjectStatus-discrete, parse_project_status, project_statuses,
}
use auto_camera.Domain.ShotStatus
use auto_camera.Domain.ShotStatus.{ShotStatus-discrete, shot_statuses, parse_shot_status}
use auto_camera.Domain.AttemptStatus
use auto_camera.Domain.AttemptStatus.{
  AttemptStatus, AttemptStatus-discrete, parse_generation_attempt_status, is_terminal,
  attempt_statuses,
}
use auto_camera.Domain.Lifecycle.{
  History, start, step, AllowsNone, is_terminal_iff, accepted-History, parse_statuses_iff,
}
use auto_camera.Domain.Money.{
  add_microusd, subtract_microusd, parse_usd_to_microusd, format_microusd_to_usd, print_decimal,
  pad_start, trim_zeros, string as usd_string, assert_microusd,
}
use auto_camera.Domain.Money.Laws.{add-subtract_iff, money_errors_iff, parse_usd-safe}
use auto_camera.Domain.Money.RoundTrip.{parse-format}
use auto_camera.Domain.Uuid.{Uuid, create_uuid_v7, is_uuid_v7}
use auto_camera.Domain.Uuid.Laws.{create_uuid_v7-is_uuid_v7, uuid_time}
use auto_camera.Domain.Project.{assert_project, transition_project, status_or_draft}
use auto_camera.Domain.Project.Laws.{transition_project_iff, transition_project-valid}
use auto_camera.Domain.Shot.{is_accepted, falsy, assert_shot, transition_shot}
use auto_camera.Domain.Shot.Laws.{transition_shot_iff, transition_shot-valid}
use auto_camera.Domain.Attempt.{assert_attempt, transition_generation_attempt}
use auto_camera.Domain.Attempt.Laws.{transition_attempt_iff, transition_attempt-valid}
use auto_camera.Domain.Creation.{create_project-valid, create_shot-valid, create_attempt-valid}
use auto_camera.Domain.Samples.{
  project_input, draft_project, project_created, planning_project, planned, shot_input,
  approved_shot, queued_shot, shot_created, shot_queued, attempt_input, queued_attempt,
  claimed_attempt, attempt_created, attempt_claimed,
}

create_project-valid_example :
    (assert_project draft_project ≡ ok tt)
    × (draft_project.title ≡ trim project_input.title)
    × (draft_project.brief ≡ trim project_input.brief)
    × (draft_project.spent_microusd ≡ 0)
    × (draft_project.version ≡ 1)
    × (draft_project.budget_microusd ≡ project_input.budget_microusd)
    × (draft_project.status ≡ status_or_draft project_input.status)
create_project-valid_example = create_project-valid project_input draft_project project_created

transition_project_iff_example :
    (transition_project draft_project (string (text "planning")) ≡ ok planning_project) ↔ (
      (next : ProjectStatus.ProjectStatus) × (assert_project draft_project ≡ ok tt)
      × (string (text "planning") ≡ string (ProjectStatus.name next))
      × (allows project_statuses draft_project.status next ≡ true)
      × (planning_project
          ≡ record draft_project { status = next; version = draft_project.version + 1 }))
transition_project_iff_example =
    transition_project_iff draft_project planning_project (string (text "planning"))

transition_project-valid_example : assert_project planning_project ≡ ok tt
transition_project-valid_example =
    transition_project-valid draft_project planning_project (string (text "planning")) (omega arith)
      planned

create_shot-valid_example :
    (assert_shot approved_shot ≡ ok tt)
    × (approved_shot.status ≡ ShotStatus.approved_for_generation)
    × (approved_shot.accepted_attempt_id ≡ none)
    × (shot_input.implicit ≡ some true)
    × (approved_shot.definition ≡ shot_input.definition)
create_shot-valid_example = create_shot-valid shot_input approved_shot shot_created

transition_shot-valid_example : assert_shot queued_shot ≡ ok tt
transition_shot-valid_example =
    transition_shot-valid approved_shot queued_shot (string (text "queued")) (omega arith)
      shot_queued

transition_shot_iff_example :
    (transition_shot approved_shot (string (text "queued")) ≡ ok queued_shot) ↔ (
      (next : ShotStatus.ShotStatus) × (assert_shot approved_shot ≡ ok tt)
      × (string (text "queued") ≡ string (ShotStatus.name next))
      × (allows shot_statuses approved_shot.status next ≡ true)
      × ((is_accepted next && falsy approved_shot.accepted_attempt_id) ≡ false)
      × (queued_shot ≡ record approved_shot { status = next; version = approved_shot.version + 1 }))
transition_shot_iff_example = transition_shot_iff approved_shot queued_shot (string (text "queued"))

create_attempt-valid_example :
    (assert_attempt queued_attempt ≡ ok tt)
    × (transition_generation_attempt queued_attempt
          (string (AttemptStatus.name AttemptStatus.claimed))
        ≡ ok (record queued_attempt { status = AttemptStatus.claimed; version = 2 }))
    × (transition_generation_attempt queued_attempt
          (string (AttemptStatus.name AttemptStatus.accepted))
        ≡ err invalid_attempt_transition)
create_attempt-valid_example = create_attempt-valid attempt_input queued_attempt attempt_created

transition_attempt_iff_example :
    (transition_generation_attempt queued_attempt (string (text "claimed")) ≡ ok claimed_attempt)
    ↔ ((next : AttemptStatus) × (assert_attempt queued_attempt ≡ ok tt)
        × (string (text "claimed") ≡ string (AttemptStatus.name next))
        × (allows attempt_statuses queued_attempt.status next ≡ true)
        × (claimed_attempt
            ≡ record queued_attempt { status = next; version = queued_attempt.version + 1 }))
transition_attempt_iff_example =
    transition_attempt_iff queued_attempt claimed_attempt (string (text "claimed"))

transition_attempt-valid_example : assert_attempt claimed_attempt ≡ ok tt
transition_attempt-valid_example =
    transition_attempt-valid queued_attempt claimed_attempt (string (text "claimed")) (omega arith)
      attempt_claimed

parse_statuses_iff_example :
    let u = string (text "failed") in
    ((s : ProjectStatus.ProjectStatus)
      → (parse_project_status u ≡ ok s) ↔ (u ≡ string (ProjectStatus.name s)))
    × ((s : ShotStatus.ShotStatus)
        → (parse_shot_status u ≡ ok s) ↔ (u ≡ string (ShotStatus.name s)))
    × ((s : AttemptStatus)
        → (parse_generation_attempt_status u ≡ ok s) ↔ (u ≡ string (AttemptStatus.name s)))
parse_statuses_iff_example = parse_statuses_iff (string (text "failed"))

is_terminal_iff_example :
    (is_terminal AttemptStatus.timed_out ≡ true) ↔ AllowsNone AttemptStatus.timed_out
is_terminal_iff_example = is_terminal_iff AttemptStatus.timed_out

abbrev accepted_path : List AttemptStatus
accepted_path =
    AttemptStatus.accepted ∷ AttemptStatus.awaiting_review ∷ AttemptStatus.evaluating
    ∷ AttemptStatus.running ∷ AttemptStatus.queued ∷ []

reviewed_run : History AttemptStatus.accepted accepted_path
unfolding AttemptStatus-discrete
reviewed_run = step (step (step (step (start refl) refl) refl) refl) refl

accepted-History_example :
    Memᴰ AttemptStatus.running accepted_path
    × Memᴰ AttemptStatus.evaluating accepted_path
    × Memᴰ AttemptStatus.awaiting_review accepted_path
accepted-History_example = accepted-History accepted_path reviewed_run

add-subtract_iff_example :
    (add_microusd (7 ∷ 5 ∷ []) ≡ ok 12) ↔ (subtract_microusd (some 12) 5 ≡ ok (some 7))
add-subtract_iff_example = add-subtract_iff 7 5 12 (omega arith)

money_errors_iff_example :
    ((add_microusd (3 ∷ 8 ∷ []) ≡ err money_overflow) ↔ (max_safe_integer < 3 + 8))
    × ((subtract_microusd (some 3) 8 ≡ err negative_money) ↔ (3 < 8))
money_errors_iff_example = money_errors_iff 3 8

parsed_usd : parse_usd_to_microusd (usd_string (text " 12.34 ")) ≡ ok 12340000
unfolding parse_usd_to_microusd
parsed_usd = refl

parse_usd-safe_example : 12340000 ≤ max_safe_integer
parse_usd-safe_example = parse_usd-safe (usd_string (text " 12.34 ")) 12340000 parsed_usd

parse-format_example :
    (printed : Text) × (format_microusd_to_usd (some 1050000) ≡ ok (some printed))
    × (parse_usd_to_microusd (usd_string printed) ≡ ok 1050000)
parse-format_example = parse-format 1050000 (omega arith)

printed_usd : format_microusd_to_usd (some 1050000) ≡ ok (some (text "1.05"))
unfolding format_microusd_to_usd print_decimal pad_start trim_zeros assert_microusd
printed_usd = refl

abbrev random_bytes : List ℕ
random_bytes = 255 ∷ 1 ∷ 255 ∷ 3 ∷ 4 ∷ 5 ∷ 6 ∷ 7 ∷ 8 ∷ 9 ∷ []

create_uuid_v7-is_uuid_v7_example :
    (id : Uuid) × (create_uuid_v7 (int (pos 1756000000000)) random_bytes ≡ ok id)
    × (is_uuid_v7 id ≡ true)
    × (uuid_time id ≡ 1756000000000)
create_uuid_v7-is_uuid_v7_example =
    create_uuid_v7-is_uuid_v7 1756000000000 random_bytes (omega arith) (omega arith) (omega arith)
