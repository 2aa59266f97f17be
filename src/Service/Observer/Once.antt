-- ===== src/Service/Observer/Once.antt =====
-- The class `ComfyObserver` of apps/api/src/generation.ts: what it drops.
use auto_camera.Common.{
  ◌≡◌, ◌≢◌, ◌⊎◌, inl, inr, refl, sym, ap, ◌∙◌, true, false, none, some, List, [], ◌∷◌, ◌++◌, Text,
  text_eq_refl, arith, All, Bool-cases, Option-cases,
}
use auto_camera.Js.Number.{JsNumber}
use auto_camera.Js.Json.{Json, Members}
use auto_camera.Service.Message.{ComfyMessage, CanonicalComfyEvent, normalize_comfy_message}
use auto_camera.Service.Observer.{
  ComfyObserver, has, is_final, is_terminal_prompt, event_key, recorded, observe, observe_all,
}

empty-split :
    (before after : List CanonicalComfyEvent) (final : CanonicalComfyEvent)
    → ¬ ([] ≡ before ++ final ∷ after)
empty-split [] after final h = cc
empty-split (b ∷ before) after final h = cc

cons-split :
    (e : CanonicalComfyEvent) (rest before after : List CanonicalComfyEvent)
    (final : CanonicalComfyEvent)
    → e ∷ rest ≡ before ++ final ∷ after
    → ((e ≡ final) × (rest ≡ after))
      ⊎ ((earlier : List CanonicalComfyEvent) × (rest ≡ earlier ++ final ∷ after))
cons-split e rest [] after final h = inl (cc, cc)
cons-split e rest (b ∷ before) after final h = inr (before, cc)

module _ (to_number : Json → JsNumber) (to_string : Json → Text) (stringify : Members → Text) where
  recorded-terminal :
      (event : CanonicalComfyEvent) (key p : Text) (observer : ComfyObserver)
      → is_terminal_prompt p observer ≡ true
      → is_terminal_prompt p (recorded to_number to_string stringify event key observer) ≡ true
  recorded-terminal event key p observer h = elim (Bool-cases (is_final event.kind)) [
    | inl e ↦ rw e (ground (arith, h))
    | inr e ↦ rw e h
  ]

  recorded-final :
      (event : CanonicalComfyEvent) (key : Text) (observer : ComfyObserver)
      → is_final event.kind ≡ true
      → is_terminal_prompt event.prompt_id
          (recorded to_number to_string stringify event key observer)
        ≡ true
  recorded-final event key observer e = rw e (ground (arith, text_eq_refl event.prompt_id))

  recorded-seen :
      (event : CanonicalComfyEvent) (key : Text) (observer : ComfyObserver)
      → has (recorded to_number to_string stringify event key observer).seen_events key ≡ true
  recorded-seen event key observer = elim (Bool-cases (is_final event.kind)) [
    | inl e ↦ rw e (ground (arith, text_eq_refl key))
    | inr e ↦ rw e (ground (arith, text_eq_refl key))
  ]

  abbrev Quiet : Text → List CanonicalComfyEvent → Type 0
  Quiet p events = All (λ x. x.prompt_id ≢ p) events

  observe_cases :
      (message : ComfyMessage) (observer : ComfyObserver)
      → (observe to_number to_string stringify message observer ≡ (none, observer))
        ⊎ ((e : CanonicalComfyEvent) × (is_terminal_prompt e.prompt_id observer ≡ false)
            × (observe to_number to_string stringify message observer ≡ (
              some e,
              recorded to_number to_string stringify e
                  (event_key to_number to_string stringify e.prompt_id message)
                  observer,
            ))
            × (normalize_comfy_message to_number to_string message ≡ some e)
            × (has observer.seen_events
                  (event_key to_number to_string stringify e.prompt_id message)
                ≡ false))
  unfolding observe
  observe_cases message observer =
      elim (Option-cases (normalize_comfy_message to_number to_string message)) [
        | inl e ↦ inl (rw e refl)
        | inr (e, h) ↦ elim (Bool-cases (is_terminal_prompt e.prompt_id observer)) [
          | inl t ↦ inl (rw (h, t) refl)
          | inr t ↦
              elim (Bool-cases (
                has observer.seen_events
                  (event_key to_number to_string stringify e.prompt_id message))) [
                    | inl s ↦ inl (rw (h, t, s) refl)
                    | inr s ↦ inr (e, t, rw (h, t, s) refl, h, s)
                  ]
        ]
      ]

  Quiet-after :
      (p : Text) (messages : List ComfyMessage) (observer : ComfyObserver)
      → is_terminal_prompt p observer ≡ true
      → Quiet p (observe_all to_number to_string stringify messages observer)
  unfolding observe_all
  Quiet-after p [] observer h = tt
  Quiet-after p (message ∷ rest) observer h = elim (observe_cases message observer) [
    | inl e ↦ rw e (Quiet-after p rest observer h)
    | inr (e, open_prompt, same, _, _) ↦ rw same (
      λ q.
          let again : is_terminal_prompt p observer ≡ false =
            ap (λ k. is_terminal_prompt k observer) (sym q) ∙ open_prompt in
          cc,
      Quiet-after p rest _ (recorded-terminal e _ p observer h),
    )
  ]

  -- After the event that ends a prompt, by success, failure or interruption, the observer gives no
  -- further event of that prompt, whatever messages it is given.
  pub observe_all-final :
      (messages : List ComfyMessage) (observer : ComfyObserver)
      (before after : List CanonicalComfyEvent) (final : CanonicalComfyEvent)
      → observe_all to_number to_string stringify messages observer ≡ before ++ final ∷ after
      → is_final final.kind ≡ true
      → All (λ x. x.prompt_id ≢ final.prompt_id) after
  unfolding observe_all
  observe_all-final [] observer before after final h ended =
      absurd (empty-split before after final h)
  observe_all-final (message ∷ rest) observer before after final h ended =
      elim (observe_cases message observer) [
        | inl e ↦ observe_all-final rest observer before after final (rw e at h) ended
        | inr (e, open_prompt, same, _, _) ↦
            let next =
              recorded to_number to_string stringify e
                (event_key to_number to_string stringify e.prompt_id message) observer in
            let shape : (e ∷ observe_all to_number to_string stringify rest next)
                ≡ before ++ final ∷ after =
              rw same at h in
            elim (cons-split e (observe_all to_number to_string stringify rest next) before after
              final shape) [
                | inl (same_e, same_rest) ↦
                    let over : is_terminal_prompt final.prompt_id next ≡ true =
                      ap (λ x. is_terminal_prompt x.prompt_id next) (sym same_e)
                      ∙ recorded-final e
                          (event_key to_number to_string stringify e.prompt_id message) observer
                          (ap (λ x. is_final x.kind) same_e ∙ ended) in
                    rw⁻¹ same_rest (Quiet-after final.prompt_id rest next over)
                | inr (earlier, same_rest) ↦
                    observe_all-final rest next earlier after final same_rest ended
              ]
      ]

  again :
      (message : ComfyMessage) (e : CanonicalComfyEvent) (observer : ComfyObserver)
      → normalize_comfy_message to_number to_string message ≡ some e
      → (observe to_number to_string stringify message (
          recorded to_number to_string stringify e
            (event_key to_number to_string stringify e.prompt_id message)
            observer)).0
        ≡ none
  again message e observer h =
      let key = event_key to_number to_string stringify e.prompt_id message in
      let next = recorded to_number to_string stringify e key observer in
      elim (observe_cases message next) [
        | inl nothing ↦ ap (λ x. x.0) nothing
        | inr (d, _, _, h2, fresh) ↦
            let both : some e ≡ some d = sym h ∙ h2 in
            let one : e ≡ d = cc in
            let twice : has next.seen_events key ≡ false =
              ap
                (λ x.
                  has next.seen_events
                    (event_key to_number to_string stringify x.prompt_id message))
                one
              ∙ fresh in
            let seen : has next.seen_events key ≡ true = recorded-seen e key observer in cc
      ]

  -- A message that the observer has just been given gives no event when it comes again.
  pub observe-twice :
      (message : ComfyMessage) (observer : ComfyObserver)
      → (observe to_number to_string stringify message
          (observe to_number to_string stringify message observer).1).0
        ≡ none
  unfolding observe
  observe-twice message observer = elim (observe_cases message observer) [
    | inl e ↦ rw e (ap (λ x. x.0) e)
    | inr (e, _, same, h, _) ↦ rw same (again message e observer h)
  ]
