-- ===== src/Domain/Samples.antt =====
-- Sample entities of the domain package, and what its functions make of them.
use auto_camera.Common.{◌^◌, ◌≡◌, refl, true, none, some, [], ◌∷◌, Text, text, ok, trim, is_blank}
use auto_camera.Js.Number.{int, pos, fraction}
use auto_camera.Js.Date.{is_canonical_date}
use auto_camera.Domain.Unknown.{string}
use auto_camera.Domain.Status.{transition}
use auto_camera.Domain.ProjectStatus
use auto_camera.Domain.ProjectStatus.{
  ProjectStatus-discrete, parse_project_status, project_statuses,
}
use auto_camera.Domain.ShotStatus
use auto_camera.Domain.ShotStatus.{ShotStatus-discrete, parse_shot_status}
use auto_camera.Domain.AttemptStatus.{
  AttemptStatus, AttemptStatus-discrete, parse_generation_attempt_status,
}
use auto_camera.Domain.Money.{assert_microusd, assert_safe_integer}
use auto_camera.Domain.Uuid.{Uuid, assert_uuid}
use auto_camera.Domain.Assert.{
  assert_utc_timestamp, assert_uuid_if_present, assert_iso_if_present, assert_bounded_string_array,
}
use auto_camera.Domain.Project.{
  VideoProject, CreateProjectInput, assert_project, transition_project, create_video_project,
  assert_budget, checked_budget,
}
use auto_camera.Domain.Shot.{
  ShotDefinition, Shot, CreateShotInput, assert_shot, assert_shot_definition, transition_shot,
  create_shot,
}
use auto_camera.Domain.Attempt.{
  GenerationAttempt, CreateGenerationAttemptInput, assert_attempt, assert_attempt_request,
  assert_attempt_outcome, transition_generation_attempt, create_generation_attempt,
}

-- What the tests below compute with.
unfoldable pub runs : Unit {0}
unfolding assert_project assert_shot assert_shot_definition assert_attempt assert_attempt_request
    assert_attempt_outcome assert_budget checked_budget assert_microusd assert_safe_integer
    assert_uuid assert_utc_timestamp assert_uuid_if_present assert_iso_if_present
    assert_bounded_string_array is_blank trim is_canonical_date parse_project_status
    parse_shot_status parse_generation_attempt_status ProjectStatus-discrete ShotStatus-discrete
    AttemptStatus-discrete transition create_video_project create_shot create_generation_attempt
    transition_project transition_shot transition_generation_attempt
runs = tt

abbrev pub some_id : Uuid
some_id = text "0198a1b2-c3d4-7f01-bf03-040506070809"

abbrev pub some_time : Text
some_time = text "2026-01-02T03:04:05.678Z"

abbrev pub project_input : CreateProjectInput
project_input = record {
  id = some_id;
  tenant_id = some_id;
  title = text " Trailer ";
  brief = text "A short film";
  target_duration_seconds = fraction (pos 15) (2 ^ 1073);
  budget_microusd = some 500000;
  status = none;
  auto_created = some true;
  now = some_time;
}

abbrev pub draft_project : VideoProject
draft_project = record {
  id = some_id;
  tenant_id = some_id;
  title = text "Trailer";
  brief = text "A short film";
  status = ProjectStatus.draft;
  target_duration_seconds = fraction (pos 15) (2 ^ 1073);
  budget_microusd = some 500000;
  spent_microusd = 0;
  auto_created = some true;
  version = 1;
  created_at = some_time;
  updated_at = some_time;
}

pub project_created : create_video_project project_input ≡ ok draft_project
unfolding runs
project_created = refl

pub draft_valid : assert_project draft_project ≡ ok tt
unfolding runs
draft_valid = refl

abbrev pub planning_project : VideoProject
planning_project = record draft_project { status = ProjectStatus.planning; version = 2 }

pub planned : transition_project draft_project (string (text "planning")) ≡ ok planning_project
unfolding runs
planned = refl

abbrev pub preview_definition : ShotDefinition
preview_definition = record {
  ordinal = int (pos 1);
  purpose = text "Opening";
  prompt = text "A lighthouse at dusk";
  duration_seconds = int (pos 5);
  mode = text "t2v";
  quality_tier = text "preview";
  visual_description = none;
  camera_direction = some (text "slow pan");
  audio_direction = none;
  dialogue = none;
  acceptance_criteria = some (text "in focus" ∷ []);
  required_asset_ids = none;
}

abbrev pub shot_input : CreateShotInput
shot_input = record {
  id = some_id;
  project_id = some_id;
  implicit = some true;
  definition = preview_definition;
  now = some_time;
}

abbrev pub approved_shot : Shot
approved_shot = record {
  id = some_id;
  project_id = some_id;
  definition = preview_definition;
  status = ShotStatus.approved_for_generation;
  accepted_attempt_id = none;
  pinned_attempt_id = none;
  implicit = some true;
  version = 1;
  created_at = some_time;
  updated_at = some_time;
}

abbrev pub queued_shot : Shot
queued_shot = record approved_shot { status = ShotStatus.queued; version = 2 }

pub shot_created : create_shot shot_input ≡ ok approved_shot
unfolding runs
shot_created = refl

pub shot_queued : transition_shot approved_shot (string (text "queued")) ≡ ok queued_shot
unfolding runs
shot_queued = refl

abbrev pub attempt_input : CreateGenerationAttemptInput
attempt_input = record {
  id = some_id;
  tenant_id = some_id;
  project_id = some_id;
  shot_id = some_id;
  idempotency_key = text "key-1";
  seed = int (pos 7);
  steps = int (pos 8);
  requested_width = int (pos 960);
  requested_height = int (pos 544);
  requested_duration_seconds = int (pos 5);
  workflow_version_id = some some_id;
  workflow_revision_id = none;
  workflow_hash = text "abc";
  correlation_id = text "h3-1";
  trace_id = none;
  scenario = none;
  estimated_cost_microusd = 100000;
  source_attempt_id = none;
  now = some_time;
}

abbrev pub queued_attempt : GenerationAttempt
queued_attempt = record {
  id = some_id;
  tenant_id = some_id;
  project_id = some_id;
  shot_id = some_id;
  idempotency_key = text "key-1";
  status = AttemptStatus.queued;
  seed = int (pos 7);
  steps = int (pos 8);
  requested_width = int (pos 960);
  requested_height = int (pos 544);
  requested_duration_seconds = int (pos 5);
  workflow_version_id = some some_id;
  workflow_revision_id = none;
  workflow_hash = text "abc";
  correlation_id = text "h3-1";
  trace_id = none;
  scenario = none;
  comfy_prompt_id = none;
  lease_owner = none;
  lease_expires_at = none;
  queued_at = some_time;
  submitted_at = none;
  finished_at = none;
  compute_seconds = none;
  estimated_cost_microusd = 100000;
  failure_code = none;
  failure_message = none;
  source_attempt_id = none;
  artifact_id = none;
  review_decision = none;
  review_note = none;
  review_author = none;
  reviewed_at = none;
  version = 1;
  created_at = some_time;
  updated_at = some_time;
}

abbrev pub claimed_attempt : GenerationAttempt
claimed_attempt = record queued_attempt { status = AttemptStatus.claimed; version = 2 }

pub attempt_created : create_generation_attempt attempt_input ≡ ok queued_attempt
unfolding runs
attempt_created = refl

pub attempt_claimed :
    transition_generation_attempt queued_attempt (string (text "claimed")) ≡ ok claimed_attempt
unfolding runs
attempt_claimed = refl
