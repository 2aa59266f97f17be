-- ===== src/Store/Leases/Exclusive.antt =====
-- What a lease excludes: `claimNext` and `claimForRecovery` of the attempts in
-- packages/db/src/index.ts.
use auto_camera.Common.{
  ◌≡◌, ◌≢◌, ◌⊎◌, inl, inr, refl, sym, ap, ◌∙◌, Bool, true, false, ◌&&◌, none, some, Text,
  text_eq_refl, arith,
}
use auto_camera.Domain.Attempt.{GenerationAttempt}
use auto_camera.Js.Map.{get, values, get-set, any-set, set-IsKeyed}
use auto_camera.Store.State.{MemoryState, option_eq, text_lt}
use auto_camera.Store.Leases.{
  Sign, has_active_claim, claimable, recoverable, claim_next, claim_for_recovery, claimed_by,
  lease_free, lease_holds, is_active,
}
use auto_camera.Store.Leases.Claims.{WellKeyed, Taken, claim_next-Taken, claim_for_recovery-Taken}

-- An attempt that fails the test of a candidate is not the one taken.
Taken-apart :
    (p : GenerationAttempt → Bool) (taken : GenerationAttempt → GenerationAttempt)
    (state after : MemoryState) (a held : GenerationAttempt) (j : Text)
    → ((c : GenerationAttempt) → (taken c).id ≡ c.id)
    → Taken p taken state after a
    → get j state.attempts ≡ some held
    → p held ≡ false
    → a.id ≢ j
Taken-apart p taken state after a held j keeps (c, there, chosen, same_a, same_after) h fails e =
    let same_id : c.id ≡ j = sym (keeps c) ∙ (ap (λ x. x.id) (sym same_a) ∙ e) in
    let both : some c ≡ some held = sym there ∙ (ap (λ k. get k state.attempts) same_id ∙ h) in cc

abbrev active_for : Text → Text → GenerationAttempt → Bool
active_for worker_id now attempt =
    option_eq attempt.lease_owner (some worker_id)
    && lease_holds now attempt.lease_expires_at
    && is_active attempt.status

claimed-active :
    (worker_id now lease_expires_at later : Text) (c : GenerationAttempt)
    → text_lt lease_expires_at later ≡ false
    → active_for worker_id later (claimed_by worker_id now lease_expires_at c) ≡ true
claimed-active worker_id now lease_expires_at later c holds =
    rw (text_eq_refl worker_id, holds) refl

module _ (locale_compare : Text → Text → Sign) (worker_id now lease_expires_at : Text)
    (state after : MemoryState) (a : GenerationAttempt) where
  -- Neither `claimNext` nor `claimForRecovery` takes an attempt whose lease has not run out. Every
  -- attempt has to stand under its own identifier.
  pub claims-leased :
      (held : GenerationAttempt) (j : Text)
      → WellKeyed state
      → get j state.attempts ≡ some held
      → lease_free now held.lease_expires_at ≡ false
      → (claim_next locale_compare worker_id now lease_expires_at state ≡ (some a, after))
        ⊎ (claim_for_recovery locale_compare worker_id now lease_expires_at state ≡ (some a, after))
      → a.id ≢ j
  claims-leased held j keyed there leased (inl h) =
      Taken-apart (claimable now) _ state after a held j (λ c. refl)
        (claim_next-Taken locale_compare worker_id now lease_expires_at state after a keyed h).1
        there (ground (arith, leased))
  claims-leased held j keyed there leased (inr h) =
      Taken-apart (recoverable now) _ state after a held j (λ c. refl)
        (claim_for_recovery-Taken locale_compare worker_id now lease_expires_at state after a keyed
          h).1
        there (ground (arith, leased))

  -- Right after `claimNext` has taken an attempt, a call of `claimNext` or of `claimForRecovery` by the
  -- same worker, at a time at which the lease has not run out, takes nothing and leaves the store as
  -- it is. Every attempt has to stand under its own identifier.
  pub claim_next-once :
      (later next_expires_at : Text)
      → WellKeyed state
      → text_lt lease_expires_at later ≡ false
      → claim_next locale_compare worker_id now lease_expires_at state ≡ (some a, after)
      → (claim_next locale_compare worker_id later next_expires_at after ≡ (none, after))
        × (claim_for_recovery locale_compare worker_id later next_expires_at after ≡ (none, after))
  unfolding claim_next claim_for_recovery
  claim_next-once later next_expires_at keyed holds h =
      let (_, (c, there, free, same_a, same_after)) =
        claim_next-Taken locale_compare worker_id now lease_expires_at state after a keyed h in
      let busy : has_active_claim worker_id later (values after.attempts) ≡ true = rw same_after (
        any-set (active_for worker_id later) c.id (claimed_by worker_id now lease_expires_at c)
          state.attempts (claimed-active worker_id now lease_expires_at later c holds)) in
      (rw busy refl, rw busy refl)

-- Two calls of `claimNext` in a row, by any workers at any times, do not take one attempt. Every
-- attempt has to stand under its own identifier.
pub claim_next-apart :
    (locale_compare : Text → Text → Sign) (worker other now later lease_end other_end : Text)
    (state middle after : MemoryState) (a b : GenerationAttempt)
    → WellKeyed state
    → claim_next locale_compare worker now lease_end state ≡ (some a, middle)
    → claim_next locale_compare other later other_end middle ≡ (some b, after)
    → b.id ≢ a.id
claim_next-apart locale_compare worker other now later lease_end other_end state middle after a b
      keyed first_claim second_claim =
    let (_, (c, there, free, same_a, same_middle)) =
      claim_next-Taken locale_compare worker now lease_end state middle a keyed first_claim in
    let still : WellKeyed middle = rw same_middle (
      set-IsKeyed (λ x. x.id) c.id (claimed_by worker now lease_end c) state.attempts refl keyed) in
    Taken-apart (claimable later) _ middle after b (claimed_by worker now lease_end c) a.id
      (λ x. refl)
      (claim_next-Taken locale_compare other later other_end middle after b still second_claim).1
      (rw (same_middle, same_a)
        (get-set c.id c.id (claimed_by worker now lease_end c) state.attempts
          ∙ rw (text_eq_refl c.id) refl))
      refl
