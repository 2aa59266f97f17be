-- ===== src/Domain/Error.antt =====
-- The error codes of packages/domain/src/index.ts. A `DomainError` is its code: the message and
-- the details are text for the reader, which no code of the package reads.
use auto_camera.Common.{Result}

pub data DomainErrorCode : Type 0 where
  unknown_project_status unknown_shot_status unknown_attempt_status unknown_event_type
        invalid_project invalid_shot invalid_attempt invalid_project_transition
        invalid_shot_transition invalid_attempt_transition target_duration_too_short invalid_money
        negative_money money_overflow invalid_timestamp invalid_uuid
        accepted_shot_requires_attempt :
      DomainErrorCode

-- A function of the package that returns an `A` or throws a `DomainError`.
abbrev pub Checked {ℓ} : Type ℓ → Type ℓ
Checked A = Result DomainErrorCode A
