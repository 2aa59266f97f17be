-- ===== src/Domain.antt =====
-- packages/domain/src/index.ts.
pub mod Error
pub mod Unknown
pub mod Status
pub mod ProjectStatus
pub mod ShotStatus
pub mod AttemptStatus
pub mod Lifecycle
pub mod Money
pub mod Uuid
pub mod Assert
pub mod Project
pub mod Shot
pub mod Attempt
pub mod Artifact
pub mod Event
pub mod Creation
pub mod Samples
mod Examples
