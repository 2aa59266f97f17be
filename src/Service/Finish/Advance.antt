-- ===== src/Service/Finish/Advance.antt =====
-- Where `finishSuccess` of apps/api/src/generation.ts takes the status of an attempt before it
-- records the evaluation.
use auto_camera.Common.{
  ◌≡◌, refl, sym, ap, ◌∙◌, Bool, true, false, not, ok, >>=-eq-ok, if◌then◌else◌,
}
use auto_camera.Domain.AttemptStatus.{AttemptStatus, is_terminal}
use auto_camera.Domain.Attempt.{GenerationAttempt}
use auto_camera.Service.Review.{is_awaiting_review}
use auto_camera.Service.Review.Writes.{attempt_step}
use auto_camera.Service.Finish.Progress.{
  moved_if, advanced, is_claimed_attempt, is_waiting, is_running, is_generated, is_evaluating,
}

-- An attempt on its way to another status keeps its identifier and its artifact.
abbrev pub SameRun : GenerationAttempt → GenerationAttempt → Type 0
SameRun a b = (b.id ≡ a.id) × (b.artifact_id ≡ a.artifact_id)

moved_if-SameRun :
    (test : Bool) (next : AttemptStatus) (a b : GenerationAttempt)
    → moved_if test next a ≡ ok b
    → SameRun a b × (b.status ≡ (if test then next else a.status))
unfolding moved_if
moved_if-SameRun false next a b h =
    let same : a ≡ b = cc in
    ((ap (λ x. x.id) (sym same), ap (λ x. x.artifact_id) (sym same)), ap (λ x. x.status) (sym same))
moved_if-SameRun true next a b h =
    let (_, moved_to) = attempt_step next a b h in
    ((ap (λ x. x.id) moved_to, ap (λ x. x.artifact_id) moved_to), ap (λ x. x.status) moved_to)

SameRun-trans : (a b c : GenerationAttempt) → SameRun a b → SameRun b c → SameRun a c
SameRun-trans a b c (p, q) (r, s) = (r ∙ p, s ∙ q)

-- The statuses that an attempt passes.
abbrev to_submitted : AttemptStatus → AttemptStatus
to_submitted s =
    if is_claimed_attempt s
    then AttemptStatus.submitted
    else if is_claimed_attempt s
    then AttemptStatus.submitting
    else s

abbrev to_running : AttemptStatus → AttemptStatus
to_running s = if is_waiting s then AttemptStatus.running else s

abbrev to_generated : AttemptStatus → AttemptStatus
to_generated s = if is_running s then AttemptStatus.generated else s

abbrev to_evaluating : AttemptStatus → AttemptStatus
to_evaluating s = if is_generated s then AttemptStatus.evaluating else s

abbrev passed_through : AttemptStatus → AttemptStatus
passed_through s = to_evaluating (to_generated (to_running (to_submitted s)))

pub advanced-SameRun :
    (a b : GenerationAttempt)
    → advanced a ≡ ok b
    → SameRun a b × (b.status ≡ passed_through a.status)
unfolding advanced
advanced-SameRun a b h =
    let (v, h1, r1) = >>=-eq-ok (moved_if _ AttemptStatus.submitting a) _ h in
    let (x, h2, r2) = >>=-eq-ok (moved_if _ AttemptStatus.submitted v) _ r1 in
    let (y, h3, r3) = >>=-eq-ok (moved_if _ AttemptStatus.running x) _ r2 in
    let (z, h4, h5) = >>=-eq-ok (moved_if _ AttemptStatus.generated y) _ r3 in
    let (av, s1) = moved_if-SameRun _ _ a v h1 in
    let (vx, s2) = moved_if-SameRun _ _ v x h2 in
    let (xy, s3) = moved_if-SameRun _ _ x y h3 in
    let (yz, s4) = moved_if-SameRun _ _ y z h4 in
    let (zb, s5) = moved_if-SameRun _ _ z b h5 in
    let test = is_claimed_attempt a.status in
    (
      SameRun-trans a x b (SameRun-trans a v x av vx)
          (SameRun-trans x z b (SameRun-trans x y z xy yz) zb),
      s5
          ∙ ap to_evaluating (
              s4
              ∙ ap to_generated (
                  s3
                  ∙ ap to_running (s2 ∙ ap (λ s. if test then AttemptStatus.submitted else s) s1))),
    )

-- An attempt that is not at its end gets to its evaluation, unless it already awaits its review.
passed_through-cases :
    (s : AttemptStatus)
    → is_terminal s ≡ false
    → is_evaluating (passed_through s) ≡ not (is_awaiting_review s)
passed_through-cases AttemptStatus.queued h = refl
passed_through-cases AttemptStatus.claimed h = refl
passed_through-cases AttemptStatus.submitting h = refl
passed_through-cases AttemptStatus.submitted h = refl
passed_through-cases AttemptStatus.running h = refl
passed_through-cases AttemptStatus.generated h = refl
passed_through-cases AttemptStatus.evaluating h = refl
passed_through-cases AttemptStatus.awaiting_review h = refl
passed_through-cases _ h = cc

pub advanced-cases :
    (a b : GenerationAttempt)
    → is_terminal a.status ≡ false
    → advanced a ≡ ok b
    → is_evaluating b.status ≡ not (is_awaiting_review a.status)
advanced-cases a b unfinished h =
    let (_, status) = advanced-SameRun a b h in
    ap is_evaluating status ∙ passed_through-cases a.status unfinished
