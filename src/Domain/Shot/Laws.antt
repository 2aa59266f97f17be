-- ===== src/Domain/Shot/Laws.antt =====
-- When a shot changes its status, and what it keeps.
use auto_camera.Common.{
  ◌+◌, ◌<◌, ◌≡◌, ◌↔◌, refl, sym, ap, >>=-eq-ok, true, false, ◌&&◌, ok, ◌>>=◌, ◌>>◌, throw_if, arith,
}
use auto_camera.Js.Number.{max_safe_integer}
use auto_camera.Domain.Error.{
  Checked, accepted_shot_requires_attempt, invalid_shot_transition, unknown_shot_status,
}
use auto_camera.Domain.Unknown.{Unknown, string}
use auto_camera.Domain.Status.{allows, has_own, transition}
use auto_camera.Domain.Status.Laws.{transition_lem}
use auto_camera.Domain.ShotStatus
use auto_camera.Domain.ShotStatus.{
  ShotStatus, ShotStatus-discrete, shot_statuses, parse_shot_status,
}
use auto_camera.Domain.Lifecycle.{parse_statuses_iff, parse_shot_status-name}
use auto_camera.Domain.Money.{assert_safe_integer}
use auto_camera.Domain.Shot.{Shot, is_accepted, falsy, assert_shot, transition_shot}

owned : (s : ShotStatus) → has_own shot_statuses s ≡ true
unfolding ShotStatus-discrete
owned ShotStatus.draft = refl
owned _ = refl

abbrev revised : Shot → ShotStatus → Shot
revised shot next = record shot { status = next; version = shot.version + 1 }

-- `transitionShot` returns a shot exactly if the shot passes `assertShot`, the value is the text of
-- a status, the table allows the transition to it, and the shot identifies an accepted attempt if
-- that status is `accepted`. What it returns is the shot with that status and the next version.
pub transition_shot_iff :
    (shot changed : Shot) (u : Unknown)
    → (transition_shot shot u ≡ ok changed) ↔ (
        (next : ShotStatus) × (assert_shot shot ≡ ok tt)
        × (u ≡ string (ShotStatus.name next))
        × (allows shot_statuses shot.status next ≡ true)
        × ((is_accepted next && falsy shot.accepted_attempt_id) ≡ false)
        × (changed ≡ record shot { status = next; version = shot.version + 1 }))
unfolding transition_shot
transition_shot_iff shot changed u = (to, from)
  where
    finish : ShotStatus → ShotStatus → Checked Shot
    finish current parsed =
        transition shot_statuses (revised shot parsed) parsed current invalid_shot_transition
          unknown_shot_status
        >>= λ next.
            throw_if (is_accepted parsed && falsy next.accepted_attempt_id)
              accepted_shot_requires_attempt
            >> ok next

    to :
        transition_shot shot u ≡ ok changed
        → (next : ShotStatus) × (assert_shot shot ≡ ok tt)
          × (u ≡ string (ShotStatus.name next))
          × (allows shot_statuses shot.status next ≡ true)
          × ((is_accepted next && falsy shot.accepted_attempt_id) ≡ false)
          × (changed ≡ revised shot next)
    to h =
        let (_, checked, h1) =
          >>=-eq-ok (assert_shot shot)
            (λ _. parse_shot_status (string (ShotStatus.name shot.status)) >>= λ c.
              parse_shot_status u >>= finish c)
            h in
        let h2 : (parse_shot_status u >>= finish shot.status) ≡ ok changed =
          rw (parse_shot_status-name shot.status) at h1 in
        let (next, parsed, h3) = >>=-eq-ok (parse_shot_status u) (finish shot.status) h2 in
        let h4 =
          rw
            (transition_lem shot_statuses owned (revised shot next) next shot.status
              invalid_shot_transition unknown_shot_status)
            at h3 in
        (
          next,
          cc,
          ((parse_statuses_iff u).1 next).0 parsed,
          ground arith,
          ground arith,
          ground arith,
        )

    from :
        ((next : ShotStatus) × (assert_shot shot ≡ ok tt)
          × (u ≡ string (ShotStatus.name next))
          × (allows shot_statuses shot.status next ≡ true)
          × ((is_accepted next && falsy shot.accepted_attempt_id) ≡ false)
          × (changed ≡ revised shot next))
        → transition_shot shot u ≡ ok changed
    from (next, checked, spelling, allowed, attempt, e) =
        rw
          (
            checked,
            parse_shot_status-name shot.status,
            ((parse_statuses_iff u).1 next).1 spelling,
            transition_lem shot_statuses owned (revised shot next) next shot.status
                invalid_shot_transition unknown_shot_status,
            allowed,
            attempt,
          )
          (sym (ap ok e))

assert_shot-revised :
    (shot : Shot) (next : ShotStatus)
    → shot.version < max_safe_integer
    → (is_accepted next && falsy shot.accepted_attempt_id) ≡ false
    → assert_shot shot ≡ ok tt
    → assert_shot (record shot { status = next; version = shot.version + 1 }) ≡ ok tt
unfolding assert_shot assert_safe_integer
assert_shot-revised shot next room attempt h =
    rw (parse_shot_status-name next) (ground (arith, parse_shot_status-name shot.status))

-- A shot that passes `assertShot` still does after `transitionShot`, as long as its version is
-- below the largest safe integer.
pub transition_shot-valid :
    (shot changed : Shot) (u : Unknown)
    → shot.version < max_safe_integer
    → transition_shot shot u ≡ ok changed
    → assert_shot changed ≡ ok tt
transition_shot-valid shot changed u room h =
    let (next, valid, _, _, attempt, same) = (transition_shot_iff shot changed u).0 h in
    rw same (assert_shot-revised shot next room attempt valid)
