-- ===== src/Store/Steps.antt =====
-- Runs of the operations of `MemoryRepository.attempts`, one after another.
use auto_camera.Common.{
  ℕ, ◌≡◌, ◌⊎◌, inl, inr, refl, sym, ap, ◌∙◌, Bool, true, false, ◌&&◌, Option, none, some, List,
  Text, text_eq, text_eq_iff, arith, Bool-cases, if◌then◌else◌, ok,
}
use auto_camera.Domain.AttemptStatus.{AttemptStatus, is_terminal}
use auto_camera.Domain.Attempt.{GenerationAttempt, AttemptReviewDecision}
use auto_camera.Js.Map.{get, set, get-set, set-IsKeyed, get-IsKeyed}
use auto_camera.Store.State.{MemoryState, option_eq}
use auto_camera.Store.Attempts.{create, update, review}
use auto_camera.Store.Attempts.Updates.{update_iff, review_iff}
use auto_camera.Store.Attempts.Creation.{create-eq-ok}
use auto_camera.Store.Leases.{
  Sign, claim_next, claim_for_recovery, heartbeat, release, recover_stale, put_back, held_by,
  extended, released, is_active, is_stale, is_claimed, is_queued, claimable, recoverable,
}
use auto_camera.Store.Leases.Claims.{
  WellKeyed, Taken, claim_next-Taken, claim_for_recovery-Taken, claim_next-none_iff,
  claim_for_recovery-none_iff, is_queued-eq-true,
}
use auto_camera.Store.Leases.Recovery.{recover_stale_lem, recover_stale-WellKeyed}

-- One call of an operation that changes the store.
pub data Step (locale_compare : Text → Text → Sign) : MemoryState → MemoryState → Type 0 where
  creates :
      {s t : MemoryState} (attempt : GenerationAttempt)
      → create attempt s ≡ ok t
      → Step locale_compare s t
  updates :
      {s t : MemoryState} (attempt result : GenerationAttempt) (version : ℕ)
      → update attempt version s ≡ ok (result, t)
      → Step locale_compare s t
  reviews :
      {s t : MemoryState} (tenant id : Text) (decision : AttemptReviewDecision)
      (remark : Option Text) (author at : Text) (result : GenerationAttempt)
      → review tenant id decision remark author at s ≡ ok (result, t)
      → Step locale_compare s t
  claims :
      {s t : MemoryState} (worker now expires : Text) (result : Option GenerationAttempt)
      → claim_next locale_compare worker now expires s ≡ (result, t)
      → Step locale_compare s t
  recovers :
      {s t : MemoryState} (worker now expires : Text) (result : Option GenerationAttempt)
      → claim_for_recovery locale_compare worker now expires s ≡ (result, t)
      → Step locale_compare s t
  beats :
      {s t : MemoryState} (id worker expires : Text) (result : Option GenerationAttempt)
      → heartbeat id worker expires s ≡ (result, t)
      → Step locale_compare s t
  releases :
      {s t : MemoryState} (id worker at : Text) (result : Option GenerationAttempt)
      → release id worker at s ≡ (result, t)
      → Step locale_compare s t
  requeues :
      {s t : MemoryState} (now : Text) (result : List GenerationAttempt)
      → recover_stale now s ≡ (result, t)
      → Step locale_compare s t

-- A run of any number of steps.
pub data Run (locale_compare : Text → Text → Sign) : MemoryState → MemoryState → Type 0 where
  stop : {s : MemoryState} → Run locale_compare s s
  go :
      {s t u : MemoryState}
      → Step locale_compare s t
      → Run locale_compare t u
      → Run locale_compare s u

-- Each attempt in a terminal status is still there with that status.
abbrev pub Keeps : MemoryState → MemoryState → Type 0
Keeps s t =
    (j : Text) (a : GenerationAttempt)
    → get j s.attempts ≡ some a
    → is_terminal a.status ≡ true
    → (b : GenerationAttempt) × (get j t.attempts ≡ some b) × (b.status ≡ a.status)

-- An entry is written under its own identifier, and over no attempt in a terminal status unless it
-- has that status.
put-Keeps :
    (s : MemoryState) (key : Text) (new : GenerationAttempt)
    → WellKeyed s
    → key ≡ new.id
    → ((old : GenerationAttempt)
        → get key s.attempts ≡ some old
        → is_terminal old.status ≡ true
        → new.status ≡ old.status)
    → WellKeyed (record s { attempts = set key new s.attempts })
      × Keeps s (record s { attempts = set key new s.attempts })
put-Keeps s key new keyed own over = (
  set-IsKeyed (λ x. x.id) key new s.attempts own keyed,
  λ j a there final. elim (Bool-cases (text_eq key j)) [
    | inl e ↦
        let here : get key s.attempts ≡ some a =
          ap (λ k. get k s.attempts) ((text_eq_iff key j).0 e) ∙ there in
        (new, get-set key j new s.attempts ∙ rw e refl, over a here final)
    | inr e ↦ (a, get-set key j new s.attempts ∙ rw e there, refl)
  ],
)

overwrite-Keeps :
    (s : MemoryState) (key : Text) (current new : GenerationAttempt)
    → WellKeyed s
    → get key s.attempts ≡ some current
    → (current.id ≡ new.id) ⊎ (key ≡ new.id)
    → (is_terminal current.status ≡ true → new.status ≡ current.status)
    → WellKeyed (record s { attempts = set key new s.attempts })
      × Keeps s (record s { attempts = set key new s.attempts })
overwrite-Keeps s key current new keyed there same_id over =
    put-Keeps s key new keyed
      (elim same_id [
        | inl e ↦ get-IsKeyed (λ x. x.id) key current s.attempts keyed there ∙ e
        | inr e ↦ e
      ])
      (λ old there_old final.
        let both : some old ≡ some current = sym there_old ∙ there in
        let same : old.status ≡ current.status = cc in
        over (ap is_terminal (sym same) ∙ final) ∙ sym same)

same-Keeps : (s t : MemoryState) → WellKeyed s → t ≡ s → WellKeyed t × Keeps s t
same-Keeps s t keyed e = rw e (keyed, λ j a there final. (a, there, refl))

put_back-eq :
    (changed : GenerationAttempt → GenerationAttempt) (id : Text) (o : Option GenerationAttempt)
    (s t : MemoryState) (result : Option GenerationAttempt)
    → put_back changed id o s ≡ (result, t)
    → (t ≡ s)
      ⊎ ((c : GenerationAttempt) × (o ≡ some c)
          × (t ≡ record s { attempts = set id (changed c) s.attempts }))
put_back-eq changed id none s t result h = inl cc
put_back-eq changed id (some c) s t result h = inr (c, refl, cc)

held_by-eq-some :
    (worker : Text) (o : Option GenerationAttempt) (c : GenerationAttempt)
    → held_by worker o ≡ some c
    → o ≡ some c
held_by-eq-some worker none c h = cc
held_by-eq-some worker (some d) c h =
    elim (Bool-cases (option_eq d.lease_owner (some worker) && is_active d.status)) [
      | inl e ↦ rw e at h
      | inr e ↦ let q : none ≡ some c = rw e at h in cc
    ]

Taken-Keeps :
    (p : GenerationAttempt → Bool) (taken : GenerationAttempt → GenerationAttempt)
    (s t : MemoryState) (a : GenerationAttempt)
    → WellKeyed s
    → Taken p taken s t a
    → ((c : GenerationAttempt) → (taken c).id ≡ c.id)
    → ((c : GenerationAttempt)
        → p c ≡ true
        → is_terminal c.status ≡ true
        → (taken c).status ≡ c.status)
    → WellKeyed t × Keeps s t
Taken-Keeps p taken s t a keyed (c, there, chosen, _, written) same_id over =
    rw written
      (overwrite-Keeps s c.id c (taken c) keyed there (inl (sym (same_id c))) (over c chosen))

put_back-Keeps :
    (changed : GenerationAttempt → GenerationAttempt) (worker id : Text) (s t : MemoryState)
    (result : Option GenerationAttempt)
    → WellKeyed s
    → put_back changed id (held_by worker (get id s.attempts)) s ≡ (result, t)
    → ((c : GenerationAttempt) → (changed c).id ≡ c.id)
    → ((c : GenerationAttempt) → is_terminal c.status ≡ true → (changed c).status ≡ c.status)
    → WellKeyed t × Keeps s t
put_back-Keeps changed worker id s t result keyed h same_id over =
    elim (put_back-eq changed id (held_by worker (get id s.attempts)) s t result h) [
      | inl same ↦ same-Keeps s t keyed same
      | inr (c, held, written) ↦ rw written (
          overwrite-Keeps s id c (changed c) keyed
            (held_by-eq-some worker (get id s.attempts) c held) (inl (sym (same_id c))) (over c))
    ]

creates-Keeps :
    (s t : MemoryState) (attempt : GenerationAttempt)
    → WellKeyed s
    → create attempt s ≡ ok t
    → WellKeyed t × Keeps s t
creates-Keeps s t attempt keyed h =
    let (free, _, _, written) = create-eq-ok attempt s t h in
    rw written (put-Keeps s attempt.id attempt keyed refl (λ old there. cc))

updates-Keeps :
    (s t : MemoryState) (attempt result : GenerationAttempt) (version : ℕ)
    → WellKeyed s
    → update attempt version s ≡ ok (result, t)
    → WellKeyed t × Keeps s t
updates-Keeps s t attempt result version keyed h =
    let (current, there, _, unfinished, _, _, written) =
      (update_iff attempt result version s t).0 h in
    rw written (overwrite-Keeps s attempt.id current attempt keyed there (inr refl) (λ final. cc))

reviews-Keeps :
    (s t : MemoryState) (tenant id : Text) (decision : AttemptReviewDecision) (remark : Option Text)
    (author at_time : Text) (result : GenerationAttempt)
    → WellKeyed s
    → review tenant id decision remark author at_time s ≡ ok (result, t)
    → WellKeyed t × Keeps s t
reviews-Keeps s t tenant id decision remark author at_time result keyed h =
    let (current, there, _, same, written) =
      (review_iff tenant id decision remark author at_time result s t).0 h in
    rw written (
      overwrite-Keeps s id current result keyed there (inl (ap (λ x. x.id) (sym same)))
        (λ final. ap (λ x. x.status) same))

queued-Keeps :
    (now : Text) (c : GenerationAttempt) (s : AttemptStatus)
    → claimable now c ≡ true
    → is_terminal c.status ≡ true
    → s ≡ c.status
queued-Keeps now c s chosen final =
    let queued : is_queued c.status ≡ true = ground (arith, chosen) in
    let was = is_queued-eq-true c.status queued in
    let open_still : is_terminal c.status ≡ false = ap is_terminal was in cc

claims-Keeps :
    (locale_compare : Text → Text → Sign) (s t : MemoryState) (worker now expires : Text)
    (result : Option GenerationAttempt)
    → WellKeyed s
    → claim_next locale_compare worker now expires s ≡ (result, t)
    → WellKeyed t × Keeps s t
claims-Keeps locale_compare s t worker now expires none keyed h =
    same-Keeps s t keyed ((claim_next-none_iff locale_compare worker now expires s t).0 h).0
claims-Keeps locale_compare s t worker now expires (some a) keyed h =
    Taken-Keeps (claimable now) _ s t a keyed
      (claim_next-Taken locale_compare worker now expires s t a keyed h).1 (λ c. refl)
      (λ c. queued-Keeps now c _)

recovers-Keeps :
    (locale_compare : Text → Text → Sign) (s t : MemoryState) (worker now expires : Text)
    (result : Option GenerationAttempt)
    → WellKeyed s
    → claim_for_recovery locale_compare worker now expires s ≡ (result, t)
    → WellKeyed t × Keeps s t
recovers-Keeps locale_compare s t worker now expires none keyed h =
    same-Keeps s t keyed ((claim_for_recovery-none_iff locale_compare worker now expires s t).0 h).0
recovers-Keeps locale_compare s t worker now expires (some a) keyed h =
    Taken-Keeps (recoverable now) _ s t a keyed
      (claim_for_recovery-Taken locale_compare worker now expires s t a keyed h).1 (λ c. refl)
      (λ c chosen final. refl)

released-status :
    (s : AttemptStatus)
    → is_terminal s ≡ true
    → (if is_claimed s then AttemptStatus.queued else s) ≡ s
released-status AttemptStatus.claimed h = cc
released-status _ h = refl

not_claimed : (s : AttemptStatus) → is_terminal s ≡ true → is_claimed s ≡ false
not_claimed AttemptStatus.claimed h = cc
not_claimed _ h = refl

not_stale :
    (now : Text) (c : GenerationAttempt) → is_terminal c.status ≡ true → is_stale now c ≡ false
not_stale now c final = ground (arith, not_claimed c.status final)

requeues-Keeps :
    (s t : MemoryState) (now : Text) (result : List GenerationAttempt)
    → WellKeyed s
    → recover_stale now s ≡ (result, t)
    → WellKeyed t × Keeps s t
requeues-Keeps s t now result keyed h =
    let written : (recover_stale now s).1 ≡ t = ap (λ x. x.1) h in
    rw⁻¹ written (
      recover_stale-WellKeyed now s keyed,
      λ j a there final.
          (a, (recover_stale_lem now s keyed).2 j a there (not_stale now a final), refl),
    )

pub Step-Keeps :
    {locale_compare : Text → Text → Sign} {s t : MemoryState}
    → WellKeyed s
    → Step locale_compare s t
    → WellKeyed t × Keeps s t
unfolding heartbeat release
Step-Keeps {locale_compare} {s} {t} keyed (creates a h) = creates-Keeps s t a keyed h
Step-Keeps {locale_compare} {s} {t} keyed (updates a r v h) = updates-Keeps s t a r v keyed h
Step-Keeps {locale_compare} {s} {t} keyed (reviews e i d n w m r h) =
    reviews-Keeps s t e i d n w m r keyed h
Step-Keeps {locale_compare} {s} {t} keyed (claims w n e r h) =
    claims-Keeps locale_compare s t w n e r keyed h
Step-Keeps {locale_compare} {s} {t} keyed (recovers w n e r h) =
    recovers-Keeps locale_compare s t w n e r keyed h
Step-Keeps {locale_compare} {s} {t} keyed (beats i w e r h) =
    put_back-Keeps (extended e) w i s t r keyed h (λ c. refl) (λ c final. refl)
Step-Keeps {locale_compare} {s} {t} keyed (releases i w m r h) =
    put_back-Keeps (released m) w i s t r keyed h (λ c. refl) (λ c. released-status c.status)
Step-Keeps {locale_compare} {s} {t} keyed (requeues n r h) = requeues-Keeps s t n r keyed h

-- In a run of the operations on the attempts from a store in which every attempt stands under its
-- own identifier, each attempt that is in a terminal status stays in the store with that status,
-- and every attempt stands under its own identifier at the end.
pub Run-Keeps :
    (locale_compare : Text → Text → Sign) (s t : MemoryState)
    → WellKeyed s
    → Run locale_compare s t
    → WellKeyed t × Keeps s t
Run-Keeps locale_compare s t keyed stop = (keyed, λ j a there final. (a, there, refl))
Run-Keeps locale_compare s u keyed (go {t} first_step rest) =
    let (keyed_t, kept) = Step-Keeps keyed first_step in
    let (keyed_u, kept_on) = Run-Keeps locale_compare t u keyed_t rest in
    (
      keyed_u,
      λ j a there final.
          let (b, there_b, same_b) = kept j a there final in
          let (c, there_c, same_c) = kept_on j b there_b (ap is_terminal same_b ∙ final) in
          (c, there_c, same_c ∙ same_b),
    )
