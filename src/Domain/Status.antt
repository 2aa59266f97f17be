-- ===== src/Domain/Status.antt =====
-- What the three status enumerations of packages/domain/src/index.ts share: the guards
-- `isProjectStatus` …, the parsers `parseProjectStatus` … and the function `transition`.
pub mod Laws
use auto_camera.Common.{
  Bool, true, false, Option, none, some, List, [], ◌∷◌, ◌≡◌, ◌↔◌, refl, Text, text_eq, text_eq_iff,
  text_eq_refl, any, find, throw_if, or_throw, ok, err, not, ◌>>=◌, ◌>>◌, arith, if◌then◌else◌,
  Bool-cases, inl, inr,
}
use auto_camera.Domain.Error.{DomainErrorCode, Checked}
use auto_camera.Domain.Unknown.{Unknown, string, other}

-- An enumeration of statuses: its spellings, its list, and its table of transitions.
pub record StatusTable (S : Type 0) : Type 0 where
  pub name : S → Text
  pub all_statuses : List S
  pub transitions : List (S × List S)
  pub discrete : Discrete S

module _ {S : Type 0} (table : StatusTable S) where
  open table use {name, all_statuses, transitions, discrete}

  -- `===` on two statuses
  abbrev pub same : S → S → Bool
  same a b = elim (discrete a b) [ yes _ ↦ true | no _ ↦ false ]

  -- The status that a text spells. The source's `Set` of the spellings has a text exactly when
  -- there is one, and the text itself is then the status.
  unfoldable pub spelled : Text → Option S
  spelled value = find (λ s. text_eq (name s) value) all_statuses

  unfoldable pub is_status : Unknown → Bool
  is_status (string value) = any (λ s. text_eq (name s) value) all_statuses
  is_status other = false

  unfoldable pub parse_status : DomainErrorCode → Unknown → Checked S
  unfolding spelled
  parse_status code (string value) = or_throw (spelled value) code
  parse_status code other = err code

  -- `allowed[status]`, if `Object.hasOwn(allowed, status)`
  abbrev pub allowed_from : List (S × List S) → S → Option (List S)
  allowed_from [] status = none
  allowed_from ((from, targets) ∷ rows) status =
      if same from status then some targets else allowed_from rows status

  abbrev pub has_own : S → Bool
  has_own status = elim (allowed_from transitions status) [ none ↦ false | some _ ↦ true ]

  -- Whether the table lists a transition.
  abbrev pub allows : S → S → Bool
  allows current next = elim (allowed_from transitions current) [
    | none ↦ false
    | some targets ↦ any (λ s. same s next) targets
  ]

  -- `transition`, with the entity that it returns handed over as `revised`.
  unfoldable pub transition {ℓ} :
      {T : Type ℓ} → T → S → S → DomainErrorCode → DomainErrorCode → Checked T
  transition revised next current code unknown_code = do
    throw_if (not (has_own current)) unknown_code
    throw_if (not (has_own next)) unknown_code
    throw_if (not (allows current next)) code
    ok revised
