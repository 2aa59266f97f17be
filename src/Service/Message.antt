-- ===== src/Service/Message.antt =====
-- `outputFromMessage` and `normalizeComfyMessage` of apps/api/src/generation.ts, with the messages of
-- packages/comfy-client/src/index.ts. `Number(…)` and `String(…)` of a JSON value are parameters.
use auto_camera.Common.{Option, none, some, List, [], ◌∷◌, Text, text, is_empty, if◌then◌else◌}
use auto_camera.Js.Number.{JsNumber, int, pos}
use auto_camera.Domain.Attempt.{AttemptFailureCode, comfy_execution_failed}
use auto_camera.Js.Json.{
  Json, Members, string, number, object, lookup, or_else, string_or, object_values, flat_elements,
}

pub data ComfyMessageType : Type 0 where
  status feature_flags execution_start execution_cached executing progress executed
        execution_success execution_error execution_interrupted :
      ComfyMessageType

abbrev pub type_text : ComfyMessageType → Text
type_text status = text "status"
type_text feature_flags = text "feature_flags"
type_text execution_start = text "execution_start"
type_text execution_cached = text "execution_cached"
type_text executing = text "executing"
type_text progress = text "progress"
type_text executed = text "executed"
type_text execution_success = text "execution_success"
type_text execution_error = text "execution_error"
type_text execution_interrupted = text "execution_interrupted"

pub record ComfyMessage : Type 0 where
  pub type : ComfyMessageType
  pub data_members : Members

pub record ComfyOutputReference : Type 0 where
  pub filename : Text
  pub subfolder : Text
  pub output_type : Text
  pub mime_type : Text

-- What differs between the events, `kind` and all but `promptId`.
pub data Kind : Type 0 where
  started : Kind
  at_node : Option Text → Kind
  progressed : JsNumber → JsNumber → Kind
  produced : Option ComfyOutputReference → Kind
  succeeded : Kind
  failed : AttemptFailureCode → Text → Kind
  interrupted : Kind

-- `CanonicalComfyEvent`
pub record CanonicalComfyEvent : Type 0 where
  pub prompt_id : Text
  pub kind : Kind

-- The first object with a `filename` among the values.
unfoldable pub candidate : List Json → Option Members
unfolding lookup
candidate [] = none
candidate (object members ∷ rest) =
    let others = candidate rest in
    elim (lookup (text "filename") members) [ none ↦ others | some f ↦ some members ]
candidate (_ ∷ rest) = candidate rest

abbrev reference : Option Members → Option Json → Option ComfyOutputReference
reference (some members) (some (string name)) = some (record {
  filename = name;
  subfolder = string_or (lookup (text "subfolder") members) [];
  output_type = string_or (lookup (text "type") members) (text "output");
  mime_type = string_or (lookup (text "mimeType") members) (text "video/mp4");
})
reference _ _ = none

abbrev filename_of : Option Members → Option Json
filename_of none = none
filename_of (some members) = lookup (text "filename") members

abbrev output_from : Option (List Json) → Option ComfyOutputReference
output_from none = none
output_from (some values) =
    let found = candidate (flat_elements values) in reference found (filename_of found)

unfoldable pub output_from_message : Members → Option ComfyOutputReference
output_from_message data_members = output_from (object_values (lookup (text "output") data_members))

abbrev node_id : Option Json → Option Text
node_id (some (string node)) = some node
node_id _ = none

module _ (to_number : Json → JsNumber) (to_string : Json → Text) where
  -- The `switch` over the type.
  abbrev pub event_kind : ComfyMessageType → Members → Option Kind
  event_kind execution_start data_members = some started
  event_kind executing data_members = some (at_node (node_id (lookup (text "node") data_members)))
  event_kind progress data_members = some (
      progressed (to_number (or_else (lookup (text "value") data_members) (number (int (pos 0)))))
        (to_number (or_else (lookup (text "max") data_members) (number (int (pos 100))))))
  event_kind executed data_members = some (produced (output_from_message data_members))
  event_kind execution_success data_members = some succeeded
  event_kind execution_error data_members = some (
      failed comfy_execution_failed (
        to_string (
          or_else (lookup (text "exception_message") data_members)
            (string (text "ComfyUI execution failed.")))))
  event_kind execution_interrupted data_members = some interrupted
  event_kind _ data_members = none

  abbrev with_prompt : Text → Option Kind → Option CanonicalComfyEvent
  with_prompt prompt_id none = none
  with_prompt prompt_id (some kind) = some (record { prompt_id = prompt_id; kind = kind })

  unfoldable pub normalize_comfy_message : ComfyMessage → Option CanonicalComfyEvent
  normalize_comfy_message message =
      let prompt = string_or (lookup (text "prompt_id") message.data_members) [] in
      if is_empty prompt
      then none
      else with_prompt prompt (event_kind message.type message.data_members)
