-- ===== src/Domain/Artifact.antt =====
-- `ArtifactRecord` of packages/domain/src/index.ts.
use auto_camera.Common.{Text}
use auto_camera.Js.Number.{JsNumber}
use auto_camera.Domain.Uuid.{Uuid}
use auto_camera.Domain.Assert.{IsoUtcTimestamp}

pub record ArtifactRecord : Type 0 where
  pub id : Uuid
  pub tenant_id : Uuid
  pub project_id : Uuid
  pub shot_id : Uuid
  pub attempt_id : Uuid
  pub object_key : Text
  pub mime_type : Text
  pub byte_size : JsNumber
  pub sha256 : Text
  pub created_at : IsoUtcTimestamp
