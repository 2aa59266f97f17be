-- ===== src/Domain/Shot.antt =====
-- `Shot` of packages/domain/src/index.ts: `assertShot`, `transitionShot` and `createShot`.
-- Where a field has one literal type (`mode`, `qualityTier`) the model has a text, since the code
-- tests it.
pub mod Laws
use auto_camera.Common.{
  ℕ, suc, ◌+◌, Bool, true, false, not, ◌&&◌, ◌||◌, Option, none, some, List, [], ◌∷◌, Text, text,
  text_eq, ltb, length, is_empty, any, is_blank, Result, ok, err, ◌>>=◌, ◌>>◌, throw_if,
}
use auto_camera.Js.Number.{JsNumber, int, pos, is_finite, is_integer, num_lt, num_le}
use auto_camera.Domain.Error.{
  Checked, invalid_shot, accepted_shot_requires_attempt, invalid_shot_transition,
  unknown_shot_status,
}
use auto_camera.Domain.Unknown.{Unknown, string}
use auto_camera.Domain.Status.{transition}
use auto_camera.Domain.ShotStatus
use auto_camera.Domain.ShotStatus.{ShotStatus, shot_statuses, parse_shot_status}
use auto_camera.Domain.Money.{assert_safe_integer}
use auto_camera.Domain.Uuid.{Uuid, assert_uuid}
use auto_camera.Domain.Assert.{
  IsoUtcTimestamp, assert_utc_timestamp, assert_uuid_if_present, assert_bounded_string_array,
}

pub record ShotDefinition : Type 0 where
  pub ordinal : JsNumber
  pub purpose : Text
  pub prompt : Text
  pub duration_seconds : JsNumber
  pub mode : Text
  pub quality_tier : Text
  pub visual_description : Option Text
  pub camera_direction : Option Text
  pub audio_direction : Option Text
  pub dialogue : Option Text
  pub acceptance_criteria : Option (List Text)
  pub required_asset_ids : Option (List Text)

-- The source's `Shot` repeats the fields of its definition, and is handed to
-- `assertShotDefinition` as one; here they are the field `definition`.
pub record Shot : Type 0 where
  pub id : Uuid
  pub project_id : Uuid
  pub definition : ShotDefinition
  pub status : ShotStatus
  pub accepted_attempt_id : Option Uuid
  pub pinned_attempt_id : Option Uuid
  pub implicit : Option Bool
  pub version : ℕ
  pub created_at : IsoUtcTimestamp
  pub updated_at : IsoUtcTimestamp

abbrev bad_direction : Option Text → Bool
bad_direction none = false
bad_direction (some value) = is_blank value || ltb 2000 (length value)

abbrev assert_bounded_if_present : Option (List Text) → ℕ → ℕ → Checked (Unit {0})
assert_bounded_if_present none max_items max_item_length = ok tt
assert_bounded_if_present (some value) max_items max_item_length =
    assert_bounded_string_array value max_items max_item_length

-- `requiredAssetIds?.length`
abbrev has_items : Option (List Text) → Bool
has_items none = false
has_items (some value) = not (is_empty value)

unfoldable pub assert_shot_definition : ShotDefinition → Checked (Unit {0})
assert_shot_definition definition = do
  throw_if (not (is_finite definition.duration_seconds) || num_le definition.duration_seconds 0)
      invalid_shot
  throw_if (is_blank definition.purpose || is_blank definition.prompt) invalid_shot
  throw_if
      (not (text_eq definition.mode (text "t2v"))
        || not (text_eq definition.quality_tier (text "preview")))
      invalid_shot
  throw_if
      (any bad_direction (
        definition.visual_description ∷ definition.camera_direction ∷ definition.audio_direction
        ∷ definition.dialogue ∷ []))
      invalid_shot
  assert_bounded_if_present definition.acceptance_criteria 8 280
  assert_bounded_if_present definition.required_asset_ids 32 200
  throw_if (has_items definition.required_asset_ids) invalid_shot

-- `implicit !== true`. The test by `typeof` that follows in the source finds a Boolean here.
abbrev not_implicit : Option Bool → Bool
not_implicit (some true) = false
not_implicit _ = true

-- An optional identifier as the source's truth test sees it: absent, or the empty text.
abbrev pub falsy : Option Text → Bool
falsy none = true
falsy (some value) = is_empty value

-- `if (value) assertUuid(value)`
abbrev assert_uuid_if_truthy : Option Uuid → Checked (Unit {0})
assert_uuid_if_truthy none = ok tt
assert_uuid_if_truthy (some []) = ok tt
assert_uuid_if_truthy (some (c ∷ s)) = do assert_uuid (c ∷ s); ok tt

abbrev pub is_accepted : ShotStatus → Bool
is_accepted ShotStatus.accepted = true
is_accepted _ = false

unfoldable pub assert_shot : Shot → Checked (Unit {0})
assert_shot shot = do
  parse_shot_status (string (ShotStatus.name shot.status))
  assert_uuid shot.id
  assert_uuid shot.project_id
  throw_if (not_implicit shot.implicit) invalid_shot
  throw_if (not (is_integer shot.definition.ordinal) || num_lt shot.definition.ordinal 1)
      invalid_shot
  assert_shot_definition shot.definition
  assert_uuid_if_truthy shot.accepted_attempt_id
  assert_uuid_if_truthy shot.pinned_attempt_id
  assert_safe_integer (int (pos shot.version)) invalid_shot
  throw_if (ltb shot.version 1) invalid_shot
  assert_utc_timestamp shot.created_at
  assert_utc_timestamp shot.updated_at
  throw_if (is_accepted shot.status && falsy shot.accepted_attempt_id)
      accepted_shot_requires_attempt

unfoldable pub transition_shot : Shot → Unknown → Checked Shot
transition_shot shot next_status = do
  assert_shot shot
  current ← parse_shot_status (string (ShotStatus.name shot.status))
  parsed ← parse_shot_status next_status
  next ←
      transition shot_statuses (record shot { status = parsed; version = shot.version + 1 }) parsed
        current invalid_shot_transition unknown_shot_status
  throw_if (is_accepted parsed && falsy next.accepted_attempt_id) accepted_shot_requires_attempt
  ok next

pub record CreateShotInput : Type 0 where
  pub id : Uuid
  pub project_id : Uuid
  pub implicit : Option Bool
  pub definition : ShotDefinition
  pub now : IsoUtcTimestamp

abbrev truthy : Option Bool → Option Bool
truthy (some true) = some true
truthy _ = none

unfoldable pub create_shot : CreateShotInput → Checked Shot
create_shot input = do
  let shot : Shot = record {
    id = input.id;
    project_id = input.project_id;
    definition = input.definition;
    status = ShotStatus.approved_for_generation;
    accepted_attempt_id = none;
    pinned_attempt_id = none;
    implicit = truthy input.implicit;
    version = 1;
    created_at = input.now;
    updated_at = input.now;
  }
  assert_shot shot
  ok shot
