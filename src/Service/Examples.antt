-- ===== src/Service/Examples.antt =====
-- The observer at a series of messages: the success of a prompt, then its failure.
use auto_camera.Common.{◌≡◌, ◌≢◌, refl, none, [], ◌∷◌, ◌++◌, Text, text, All}
use auto_camera.Js.Number.{JsNumber, nan}
use auto_camera.Js.Json.{Json, Members, empty, member, lookup}
use auto_camera.Service.Message.{
  ComfyMessage, CanonicalComfyEvent, execution_start, execution_success, execution_error, started,
  succeeded, normalize_comfy_message,
}
use auto_camera.Service.Observer.{ComfyObserver, observe, observe_all}
use auto_camera.Service.Observer.Once.{observe_all-final, observe-twice}

abbrev to_number : Json → JsNumber
to_number value = nan

abbrev to_string : Json → Text
to_string (Json.string s) = s
to_string value = text "[object Object]"

abbrev stringify : Members → Text
stringify empty = text "{}"
stringify (member key value rest) = key

abbrev sample_data : Members
sample_data = member (text "prompt_id") (Json.string (text "p1")) empty

abbrev starts : ComfyMessage
starts = record { type = execution_start; data_members = sample_data }

abbrev succeeds : ComfyMessage
succeeds = record { type = execution_success; data_members = sample_data }

abbrev fails : ComfyMessage
fails = record { type = execution_error; data_members = sample_data }

abbrev new_observer : ComfyObserver
new_observer = record { terminal_prompt_ids = []; seen_events = [] }

abbrev start_event : CanonicalComfyEvent
start_event = record { prompt_id = text "p1"; kind = started }

abbrev success_event : CanonicalComfyEvent
success_event = record { prompt_id = text "p1"; kind = succeeded }

observed :
    observe_all to_number to_string stringify (starts ∷ starts ∷ succeeds ∷ fails ∷ []) new_observer
    ≡ (start_event ∷ []) ++ success_event ∷ []
unfolding observe_all observe normalize_comfy_message lookup
observed = refl

observe_all-final_example : All (λ (x : CanonicalComfyEvent). x.prompt_id ≢ text "p1") []
observe_all-final_example =
    observe_all-final to_number to_string stringify (starts ∷ starts ∷ succeeds ∷ fails ∷ [])
      new_observer (start_event ∷ []) [] success_event observed refl

observe-twice_example :
    (observe to_number to_string stringify succeeds
      (observe to_number to_string stringify succeeds new_observer).1).0
    ≡ none
observe-twice_example = observe-twice to_number to_string stringify succeeds new_observer
