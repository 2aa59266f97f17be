-- ===== src/Domain/Unknown.antt =====
-- A value of TypeScript's type `unknown`, as far as the domain package looks at one: its text, if
-- `typeof` says that it is a string.
use auto_camera.Common.{Text}

pub data Unknown : Type 0 where
  string : Text → Unknown
  other : Unknown
