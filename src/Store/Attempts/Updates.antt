-- ===== src/Store/Attempts/Updates.antt =====
-- `update` and `review` of the attempts in packages/db/src/index.ts.
use auto_camera.Common.{
  ℕ, ◌≡◌, ◌≢◌, ◌↔◌, refl, sym, ap, ◌∙◌, true, false, not, ◌&&◌, Option, none, some, Text, text_eq,
  text_eq_refl, text_eq_iff, ◌+◌, ok, err, throw_if, throw_if-eq-ok, or_throw, or_throw-eq-ok,
  >>=-eq-ok, inl, inr, ◌==◌, ==_iff, ==_refl, arith, Bool-cases,
}
use auto_camera.Domain.AttemptStatus.{is_terminal}
use auto_camera.Domain.Uuid.{Uuid}
use auto_camera.Domain.Attempt.{GenerationAttempt, AttemptReviewDecision, truthy_text}
use auto_camera.Js.Map.{get, set, get-set}
use auto_camera.Store.State.{MemoryState, optimistic_conflict, invalid_argument, not_found}
use auto_camera.Store.Attempts.{update, review, expected, same_execution, of_tenant}

==_apart : (a b : ℕ) → a ≢ b → (a == b) ≡ false
==_apart a b h = ground (arith, h)

expected-eq-some :
    (version : ℕ) (o : Option GenerationAttempt) (c : GenerationAttempt)
    → expected version o ≡ some c
    → (o ≡ some c) × (c.version ≡ version)
expected-eq-some version none c h = cc
expected-eq-some version (some d) c h = elim (Bool-cases (d.version == version)) [
  | inl e ↦
      let q : some d ≡ some c = rw e at h in
      let same : d ≡ c = cc in (q, sym (ap (λ x. x.version) same) ∙ (==_iff d.version version).0 e)
  | inr e ↦ let q : none ≡ some c = rw e at h in cc
]

-- `update` writes exactly if an attempt with the expected version stands under the identifier, it is
-- not in a terminal status, and the execution data of a managed attempt stays. It writes and returns
-- the given attempt.
pub update_iff :
    (attempt result : GenerationAttempt) (version : ℕ) (state after : MemoryState)
    → (update attempt version state ≡ ok (result, after)) ↔ (
        (current : GenerationAttempt) × (get attempt.id state.attempts ≡ some current)
        × (current.version ≡ version)
        × (is_terminal current.status ≡ false)
        × ((truthy_text current.workflow_revision_id && not (same_execution attempt current))
            ≡ false)
        × (result ≡ attempt)
        × (after ≡ record state { attempts = set attempt.id attempt state.attempts }))
unfolding update
update_iff attempt result version state after = (
  λ h.
      let (current, found, h1) =
        >>=-eq-ok (or_throw (expected version (get attempt.id state.attempts)) optimistic_conflict)
          _ h in
      let (_, unfinished, h2) =
        >>=-eq-ok (throw_if (is_terminal current.status) invalid_argument) _ h1 in
      let (_, kept, h3) =
        >>=-eq-ok
          (throw_if
            (truthy_text current.workflow_revision_id && not (same_execution attempt current))
            invalid_argument)
          _ h2 in
      let (there, same_version) = expected-eq-some version (get attempt.id state.attempts) current (
        or_throw-eq-ok (expected version (get attempt.id state.attempts)) optimistic_conflict
          found) in
      (
        current,
        there,
        same_version,
        throw_if-eq-ok _ invalid_argument unfinished,
        throw_if-eq-ok _ invalid_argument kept,
        cc,
        cc,
      ),
  λ (current, there, same_version, unfinished, kept, same, written).
      rw (there, same_version, ==_refl version, unfinished, kept, same, written) refl,
)

-- Of two updates that have read one version, the second throws if the first has written another
-- version.
pub update-conflict :
    (first_write second_write result : GenerationAttempt) (version : ℕ) (state after : MemoryState)
    → update first_write version state ≡ ok (result, after)
    → first_write.version ≢ version
    → second_write.id ≡ first_write.id
    → update second_write version after ≡ err optimistic_conflict
unfolding update
update-conflict first_write second_write result version state after h bumped same_id =
    let (_, there, _, _, _, _, written) = (update_iff first_write result version state after).0 h in
    let stale : (first_write.version == version) ≡ false =
      ==_apart first_write.version version bumped in
    rw
      (
        written,
        same_id,
        get-set first_write.id first_write.id first_write state.attempts,
        text_eq_refl first_write.id,
        stale,
      )
      refl

of_tenant-eq-some :
    (tenant_id : Uuid) (o : Option GenerationAttempt) (c : GenerationAttempt)
    → of_tenant tenant_id o ≡ some c
    → (o ≡ some c) × (c.tenant_id ≡ tenant_id)
of_tenant-eq-some tenant_id none c h = cc
of_tenant-eq-some tenant_id (some d) c h = elim (Bool-cases (text_eq d.tenant_id tenant_id)) [
  | inl e ↦
      let q : some d ≡ some c = rw e at h in
      let same : d ≡ c = cc in
      (q, sym (ap (λ x. x.tenant_id) same) ∙ (text_eq_iff d.tenant_id tenant_id).0 e)
  | inr e ↦ let q : none ≡ some c = rw e at h in cc
]

-- `review` answers exactly if the attempt is there and belongs to the tenant. It records the
-- decision, the note or that there is none, the author and the time, and takes the next version;
-- the status and all else of the attempt stay.
pub review_iff :
    (tenant_id attempt_id : Uuid) (decision : AttemptReviewDecision) (review_note : Option Text)
    (author reviewed_at : Text) (reviewed : GenerationAttempt) (state after : MemoryState)
    → (review tenant_id attempt_id decision review_note author reviewed_at state
        ≡ ok (reviewed, after))
      ↔ ((current : GenerationAttempt) × (get attempt_id state.attempts ≡ some current)
          × (current.tenant_id ≡ tenant_id)
          × (reviewed ≡ record current {
            review_decision = some decision;
            review_note = review_note;
            review_author = some author;
            reviewed_at = some reviewed_at;
            version = current.version + 1;
            updated_at = reviewed_at;
          })
          × (after ≡ record state { attempts = set attempt_id reviewed state.attempts }))
unfolding review
review_iff tenant_id attempt_id decision review_note author reviewed_at reviewed state after = (
  λ h.
      let (current, found, h1) =
        >>=-eq-ok (or_throw (of_tenant tenant_id (get attempt_id state.attempts)) not_found) _ h in
      let (there, owned) =
        of_tenant-eq-some tenant_id (get attempt_id state.attempts) current
          (or_throw-eq-ok (of_tenant tenant_id (get attempt_id state.attempts)) not_found found) in
      (current, there, owned, cc, cc),
  λ (current, there, owned, same, written).
      let mine : text_eq current.tenant_id tenant_id ≡ true =
        (text_eq_iff current.tenant_id tenant_id).1 owned in
      rw (there, mine, written, same) refl,
)
