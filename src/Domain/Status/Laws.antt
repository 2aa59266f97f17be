-- ===== src/Domain/Status/Laws.antt =====
-- Parsing a status and `transition`, for any enumeration whose spellings are told apart.
use auto_camera.Common.{
  true, false, none, some, List, [], ◌∷◌, ◌≡◌, ◌↔◌, refl, Text, text_eq, text_eq_iff, any, find, ok,
  err, or_throw, or_throw-eq-ok, not, ◌>>=◌, ◌>>◌, >>=-eq-ok, throw_if, arith, if◌then◌else◌,
  Bool-cases, inl, inr, ap,
}
use auto_camera.Domain.Error.{DomainErrorCode, Checked}
use auto_camera.Domain.Unknown.{Unknown, string, other}
use auto_camera.Domain.Status.{StatusTable, spelled, parse_status, allows, has_own, transition}

module _ {S : Type 0} (table : StatusTable S) where
  open table use {name}

  find-text :
      (value : Text) (l : List S) (s : S)
      → find (λ t. text_eq (name t) value) l ≡ some s
      → name s ≡ value
  find-text value [] s h = cc
  find-text value (t ∷ l) s h = elim (Bool-cases (text_eq (name t) value)) [
    | inl e ↦ cc ((text_eq_iff (name t) value).0 e, rw e at h)
    | inr e ↦ find-text value l s (rw e at h)
  ]

  any-text :
      (value : Text) (l : List S)
      → any (λ t. text_eq (name t) value) l ≡ false
      → find (λ t. text_eq (name t) value) l ≡ none
  any-text value [] h = refl
  any-text value (t ∷ l) h = ground (arith, any-text value l)

  -- With every status found at its own spelling, a value parses to a status exactly when it is the
  -- text of that status.
  pub parse_status_iff :
      ((s : S) → spelled table (name s) ≡ some s)
      → (code : DomainErrorCode) (u : Unknown) (s : S)
      → (parse_status table code u ≡ ok s) ↔ (u ≡ string (name s))
  unfolding parse_status
  parse_status_iff listed code u s = (to u, λ e. rw e (ap (λ o. or_throw o code) (listed s)))
    where
      to : (v : Unknown) → parse_status table code v ≡ ok s → v ≡ string (name s)
      to (string value) h =
          cc (find-text value table.all_statuses s (or_throw-eq-ok (spelled table value) code h))
      to other h = cc

  -- With a row for every status, `transition` returns the revised entity exactly for the
  -- transitions that the table allows, and throws `code` for every other one.
  module _ (owned : (s : S) → has_own table s ≡ true) where
    pub transition_lem {ℓ} :
        {T : Type ℓ} (revised : T) (next current : S) (code unknown_code : DomainErrorCode)
        → transition table revised next current code unknown_code
          ≡ (if allows table current next then ok revised else err code)
    unfolding transition
    transition_lem revised next current code unknown_code =
        rw (owned current, owned next)
          (elim (allows table current next)
            as (λ b.
              (throw_if (not b) code >>= λ _. ok revised) ≡ (if b then ok revised else err code)) [
                | true ↦ refl
                | false ↦ refl
              ])

  -- The three functions `transitionProject` … check the entity, parse both statuses and call
  -- `transition`. Such a chain returns exactly for a checked entity, the text of a status and an
  -- allowed transition to it.
  module _ (listed : (s : S) → spelled table (name s) ≡ some s)
      (owned : (s : S) → has_own table s ≡ true) {T : Type 0} (check : Checked (Unit {0}))
      (current : S) (revise : S → T) (code unknown_code : DomainErrorCode) where
    abbrev pub changed : Unknown → Checked T
    changed u =
        check
        >> (parse_status table unknown_code (string (name current)) >>= λ c.
            parse_status table unknown_code u >>= λ n.
            transition table (revise n) n c code unknown_code)

    abbrev pub ChangesTo : Unknown → T → Type 0
    ChangesTo u t =
        (next : S) × (check ≡ ok tt)
        × (u ≡ string (name next))
        × (allows table current next ≡ true)
        × (t ≡ revise next)

    parsed_self : parse_status table unknown_code (string (name current)) ≡ ok current
    parsed_self = (parse_status_iff listed unknown_code (string (name current)) current).1 refl

    pub changed_iff : (u : Unknown) (t : T) → (changed u ≡ ok t) ↔ ChangesTo u t
    changed_iff u t = (to, from)
      where
        to : changed u ≡ ok t → ChangesTo u t
        to h =
            let (_, checked, h1) = >>=-eq-ok check _ h in
            let h2 : (parse_status table unknown_code u >>= λ n.
            transition table (revise n) n current code unknown_code)
                ≡ ok t =
              rw parsed_self at h1 in
            let (next, parsed, h3) =
              >>=-eq-ok (parse_status table unknown_code u)
                (λ n. transition table (revise n) n current code unknown_code) h2 in
            let h4 = rw (transition_lem owned (revise next) next current code unknown_code) at h3 in
            (
              next,
              cc,
              (parse_status_iff listed unknown_code u next).0 parsed,
              ground arith,
              ground arith,
            )

        from : ChangesTo u t → changed u ≡ ok t
        from (next, checked, spelling, allowed, e) =
            rw
              (
                checked,
                parsed_self,
                (parse_status_iff listed unknown_code u next).1 spelling,
                transition_lem owned (revise next) next current code unknown_code,
                allowed,
              )
              (cc)
