-- ===== src/Service/Observer.antt =====
-- `ComfyObserver` of apps/api/src/generation.ts. `JSON.stringify` of the data is a parameter.
pub mod Once
use auto_camera.Common.{
  ◌≡◌, ◌≢◌, refl, Bool, true, false, ◌||◌, Option, none, some, List, [], ◌∷◌, ◌++◌, Text, text_eq,
  text_eq_iff, text_eq_refl, any, if◌then◌else◌, arith, All,
}
use auto_camera.Js.Number.{JsNumber}
use auto_camera.Js.Json.{Json, Members}
use auto_camera.Service.Message.{
  ComfyMessage, CanonicalComfyEvent, Kind, succeeded, failed, interrupted, type_text,
  normalize_comfy_message,
}

pub record ComfyObserver : Type 0 where
  pub terminal_prompt_ids : List Text
  pub seen_events : List Text

-- `set.has` and `set.add`; the order is never looked at.
abbrev pub has : List Text → Text → Bool
has entries key = any (text_eq key) entries

abbrev pub is_final : Kind → Bool
is_final succeeded = true
is_final (failed code message) = true
is_final interrupted = true
is_final _ = false

abbrev pub mark_terminal : Text → ComfyObserver → ComfyObserver
mark_terminal prompt_id observer = record observer {
  terminal_prompt_ids = prompt_id ∷ observer.terminal_prompt_ids;
}

abbrev pub is_terminal_prompt : Text → ComfyObserver → Bool
is_terminal_prompt prompt_id observer = has observer.terminal_prompt_ids prompt_id

module _ (to_number : Json → JsNumber) (to_string : Json → Text) (stringify : Members → Text) where
  abbrev pub event_key : Text → ComfyMessage → Text
  event_key prompt_id message =
      prompt_id ++ b':' ∷ type_text message.type ++ b':' ∷ stringify message.data_members

  -- `seenEvents.add`, and `terminalPromptIds.add` after a final event
  abbrev pub recorded : CanonicalComfyEvent → Text → ComfyObserver → ComfyObserver
  recorded event key observer =
      let seen : ComfyObserver = record observer { seen_events = key ∷ observer.seen_events } in
      if is_final event.kind then mark_terminal event.prompt_id seen else seen

  abbrev pub observe_event :
      Option CanonicalComfyEvent
      → ComfyMessage
      → ComfyObserver
      → Option CanonicalComfyEvent × ComfyObserver
  observe_event none message observer = (none, observer)
  observe_event (some event) message observer =
      if is_terminal_prompt event.prompt_id observer
        || has observer.seen_events (event_key event.prompt_id message)
      then (none, observer)
      else (some event, recorded event (event_key event.prompt_id message) observer)

  unfoldable pub observe : ComfyMessage → ComfyObserver → Option CanonicalComfyEvent × ComfyObserver
  observe message observer =
      observe_event (normalize_comfy_message to_number to_string message) message observer

  abbrev pub push : Option CanonicalComfyEvent → List CanonicalComfyEvent → List CanonicalComfyEvent
  push none events = events
  push (some event) events = event ∷ events

  -- The events that a series of messages gives, from the first to the last.
  unfoldable pub observe_all : List ComfyMessage → ComfyObserver → List CanonicalComfyEvent
  observe_all [] observer = []
  observe_all (message ∷ rest) observer =
      let (event, next) = observe message observer in push event (observe_all rest next)
