-- ===== src/Store/Attempts/Creation.antt =====
-- What `create` of the attempts keeps apart.
use auto_camera.Common.{
  ◌≡◌, ◌⊎◌, inl, inr, refl, sym, ap, ◌∙◌, Bool, true, false, ◌&&◌, none, some, Text, text_eq,
  text_eq_refl, text_eq_iff, ok, throw_if, throw_if-eq-ok, >>=-eq-ok, any, arith,
}
use auto_camera.Domain.Attempt.{GenerationAttempt, truthy_text}
use auto_camera.Js.Map.{get, set, has, values, get-set, get-set_cases, any-get}
use auto_camera.Store.State.{MemoryState, option_eq, scope_violation, unique_violation}
use auto_camera.Store.Attempts.{create, revision_missing}

-- Whether an attempt takes the idempotency key of the new one in its tenant.
abbrev same_key : GenerationAttempt → GenerationAttempt → Bool
same_key attempt current =
    text_eq current.idempotency_key attempt.idempotency_key
    && text_eq current.tenant_id attempt.tenant_id

abbrev same_prompt : GenerationAttempt → GenerationAttempt → Bool
same_prompt attempt current = option_eq current.comfy_prompt_id attempt.comfy_prompt_id

abbrev same_correlation : GenerationAttempt → GenerationAttempt → Bool
same_correlation attempt current =
    text_eq current.tenant_id attempt.tenant_id
    && text_eq current.correlation_id attempt.correlation_id

has-eq-false :
    (key : Text) (state : MemoryState)
    → has key state.attempts ≡ false
    → get key state.attempts ≡ none
has-eq-false key state h = ground arith

pub create-eq-ok :
    (attempt : GenerationAttempt) (state after : MemoryState)
    → create attempt state ≡ ok after
    → (get attempt.id state.attempts ≡ none)
      × (any (same_key attempt) (values state.attempts) ≡ false)
      × (any (same_correlation attempt) (values state.attempts) ≡ false)
      × (after ≡ record state { attempts = set attempt.id attempt state.attempts })
unfolding create
create-eq-ok attempt state after h =
    let (_, scoped, h1) =
      >>=-eq-ok
        (throw_if (revision_missing attempt state attempt.workflow_revision_id) scope_violation) _
        h in
    let (_, free, h2) =
      >>=-eq-ok (throw_if (has attempt.id state.attempts) unique_violation) _ h1 in
    let (_, own_key, h3) =
      >>=-eq-ok (throw_if (any (same_key attempt) (values state.attempts)) unique_violation) _ h2 in
    let (_, own_prompt, h4) =
      >>=-eq-ok
        (throw_if
          (truthy_text attempt.comfy_prompt_id && any (same_prompt attempt) (values state.attempts))
          unique_violation)
        _ h3 in
    let (_, own_correlation, h5) =
      >>=-eq-ok (throw_if (any (same_correlation attempt) (values state.attempts)) unique_violation)
        _ h4 in
    (
      has-eq-false attempt.id state (throw_if-eq-ok _ unique_violation free),
      throw_if-eq-ok _ unique_violation own_key,
      throw_if-eq-ok _ unique_violation own_correlation,
      cc,
    )

-- Two entries of one tenant with one idempotency key or one correlation identifier are one entry.
abbrev pub KeysApart : MemoryState → Type 0
KeysApart state =
    (i j : Text) (a b : GenerationAttempt)
    → get i state.attempts ≡ some a
    → get j state.attempts ≡ some b
    → a.tenant_id ≡ b.tenant_id
    → (a.idempotency_key ≡ b.idempotency_key) ⊎ (a.correlation_id ≡ b.correlation_id)
    → i ≡ j

-- An attempt of the store shares neither with the new one.
apart_from_new :
    (attempt b : GenerationAttempt) (state : MemoryState) (j : Text)
    → any (same_key attempt) (values state.attempts) ≡ false
    → any (same_correlation attempt) (values state.attempts) ≡ false
    → get j state.attempts ≡ some b
    → b.tenant_id ≡ attempt.tenant_id
    → ¬ (
        (b.idempotency_key ≡ attempt.idempotency_key) ⊎ (b.correlation_id ≡ attempt.correlation_id))
apart_from_new attempt b state j own_key own_correlation there same_tenant (inl e) =
    let no : same_key attempt b ≡ false =
      any-get (same_key attempt) j b state.attempts own_key there in
    let one = (text_eq_iff b.tenant_id attempt.tenant_id).1 same_tenant in
    let two = (text_eq_iff b.idempotency_key attempt.idempotency_key).1 e in
    let yes : same_key attempt b ≡ true = rw (one, two) refl in cc
apart_from_new attempt b state j own_key own_correlation there same_tenant (inr e) =
    let no : same_correlation attempt b ≡ false =
      any-get (same_correlation attempt) j b state.attempts own_correlation there in
    let one = (text_eq_iff b.tenant_id attempt.tenant_id).1 same_tenant in
    let two = (text_eq_iff b.correlation_id attempt.correlation_id).1 e in
    let yes : same_correlation attempt b ≡ true = rw (one, two) refl in cc

flip_keys :
    (a b : GenerationAttempt)
    → (a.idempotency_key ≡ b.idempotency_key) ⊎ (a.correlation_id ≡ b.correlation_id)
    → (b.idempotency_key ≡ a.idempotency_key) ⊎ (b.correlation_id ≡ a.correlation_id)
flip_keys a b (inl e) = inl (sym e)
flip_keys a b (inr e) = inr (sym e)

with_new :
    (attempt a b : GenerationAttempt)
    → a ≡ attempt
    → (a.idempotency_key ≡ b.idempotency_key) ⊎ (a.correlation_id ≡ b.correlation_id)
    → (b.idempotency_key ≡ attempt.idempotency_key) ⊎ (b.correlation_id ≡ attempt.correlation_id)
with_new attempt a b same (inl e) = inl (sym e ∙ ap (λ x. x.idempotency_key) same)
with_new attempt a b same (inr e) = inr (sym e ∙ ap (λ x. x.correlation_id) same)

-- `create` keeps the idempotency keys and the correlation identifiers of a tenant's attempts apart,
-- and adds the attempt under its identifier, which was free.
pub create-KeysApart :
    (attempt : GenerationAttempt) (state after : MemoryState)
    → KeysApart state
    → create attempt state ≡ ok after
    → (get attempt.id state.attempts ≡ none)
      × (get attempt.id after.attempts ≡ some attempt)
      × KeysApart after
create-KeysApart attempt state after apart h =
    let (free, own_key, own_correlation, written) = create-eq-ok attempt state after h in
    let fresh = λ (j : Text) (b : GenerationAttempt).
      apart_from_new attempt b state j own_key own_correlation in
    rw written (
      free,
      get-set attempt.id attempt.id attempt state.attempts ∙ rw (text_eq_refl attempt.id) refl,
      λ i j a b there_a there_b tenant shared.
          elim (get-set_cases attempt.id i attempt a state.attempts there_a) [
            | inl (here_a, new_a) ↦
                elim (get-set_cases attempt.id j attempt b state.attempts there_b) [
                  | inl (here_b, new_b) ↦ sym here_a ∙ here_b
                  | inr old_b ↦ absurd (
                      fresh j b old_b (sym tenant ∙ ap (λ x. x.tenant_id) new_a)
                        (with_new attempt a b new_a shared))
                ]
            | inr old_a ↦ elim (get-set_cases attempt.id j attempt b state.attempts there_b) [
              | inl (here_b, new_b) ↦ absurd (
                  fresh i a old_a (tenant ∙ ap (λ x. x.tenant_id) new_b)
                    (with_new attempt b a new_b (flip_keys a b shared)))
              | inr old_b ↦ apart i j a b old_a old_b tenant shared
            ]
          ],
    )
