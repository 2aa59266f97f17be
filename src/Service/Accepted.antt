-- ===== src/Service/Accepted.antt =====
-- The invariant of the reviews: an accepted attempt is the one that its shot names.
use auto_camera.Common.{
  ◌≡◌, refl, sym, ap, ◌∙◌, false, some, Text, text_eq, text_eq_iff, is_empty, inl, inr, Bool-cases,
}
use auto_camera.Js.Map.{Map, get, set, get-set, get-set_cases, IsKeyed, set-IsKeyed, get-IsKeyed}
use auto_camera.Domain.AttemptStatus.{AttemptStatus}
use auto_camera.Domain.Attempt.{GenerationAttempt}
use auto_camera.Domain.Shot.{Shot}

-- The shot of the attempt names it as its accepted one.
abbrev pub Named : Map Shot → GenerationAttempt → Type 0
Named shots a =
    (shot : Shot) × (get a.shot_id shots ≡ some shot)
    × (shot.accepted_attempt_id ≡ some a.id)
    × (is_empty a.id ≡ false)

-- Attempts and shots stand under their own identifiers, and every accepted attempt is named.
pub record AcceptedOnce (attempts : Map GenerationAttempt) (shots : Map Shot) : Type 0 where
  pub attempts_keyed : IsKeyed (λ attempt. attempt.id) attempts
  pub shots_keyed : IsKeyed (λ shot. shot.id) shots
  pub named :
      (j : Text) (a : GenerationAttempt)
      → get j attempts ≡ some a
      → a.status ≡ AttemptStatus.accepted
      → Named shots a

-- Two accepted attempts of one shot are one attempt.
pub AcceptedOnce-unique :
    {attempts : Map GenerationAttempt} {shots : Map Shot}
    → AcceptedOnce attempts shots
    → (i j : Text) (a b : GenerationAttempt) → get i attempts ≡ some a
    → get j attempts ≡ some b
    → a.status ≡ AttemptStatus.accepted
    → b.status ≡ AttemptStatus.accepted
    → a.shot_id ≡ b.shot_id
    → i ≡ j
AcceptedOnce-unique {attempts} {shots} once i j a b there_a there_b final_a final_b same =
    let (s, at_s, names_a, _) = once.named i a there_a final_a in
    let (t, at_t, names_b, _) = once.named j b there_b final_b in
    let both : some s ≡ some t = sym at_s ∙ (ap (λ k. get k shots) same ∙ at_t) in
    let one : s ≡ t = cc in
    let ids : some a.id ≡ some b.id =
      sym names_a ∙ (ap (λ x. x.accepted_attempt_id) one ∙ names_b) in
    let id : a.id ≡ b.id = cc in
    get-IsKeyed (λ x. x.id) i a attempts once.attempts_keyed there_a
    ∙ (id ∙ sym (get-IsKeyed (λ x. x.id) j b attempts once.attempts_keyed there_b))

module _ {attempts : Map GenerationAttempt} {shots : Map Shot}
    (once : AcceptedOnce attempts shots) where
  -- An attempt is written: if it is accepted, its shot has to name it.
  pub attempt-AcceptedOnce :
      (new : GenerationAttempt)
      → (new.status ≡ AttemptStatus.accepted → Named shots new)
      → AcceptedOnce (set new.id new attempts) shots
  attempt-AcceptedOnce new ready = record {
    attempts_keyed = set-IsKeyed (λ x. x.id) new.id new attempts refl once.attempts_keyed;
    shots_keyed = once.shots_keyed;
    named = λ j a there final. elim (get-set_cases new.id j new a attempts there) [
      | inl (_, same) ↦ rw same (ready (ap (λ x. x.status) (sym same) ∙ final))
      | inr old ↦ once.named j a old final
    ];
  }

  -- A shot is written: an accepted attempt that it names it has to go on naming.
  pub shot-AcceptedOnce :
      (new : Shot)
      → ((old : Shot) (id : Text)
          → get new.id shots ≡ some old
          → old.accepted_attempt_id ≡ some id
          → is_empty id ≡ false
          → new.accepted_attempt_id ≡ some id)
      → AcceptedOnce attempts (set new.id new shots)
  shot-AcceptedOnce new keeps = record {
    attempts_keyed = once.attempts_keyed;
    shots_keyed = set-IsKeyed (λ x. x.id) new.id new shots refl once.shots_keyed;
    named = λ j a there final.
        let (shot, at_shot, names, solid) = once.named j a there final in
        elim (Bool-cases (text_eq new.id a.shot_id)) [
          | inl e ↦ (
            new,
            get-set new.id a.shot_id new shots ∙ rw e refl,
            keeps shot a.id (ap (λ k. get k shots) ((text_eq_iff new.id a.shot_id).0 e) ∙ at_shot)
                names solid,
            solid,
          )
          | inr e ↦ (shot, get-set new.id a.shot_id new shots ∙ rw e at_shot, names, solid)
        ];
  }
