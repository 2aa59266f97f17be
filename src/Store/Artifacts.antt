-- ===== src/Store/Artifacts.antt =====
-- The repository of the artifacts in the in-memory repositories of packages/db/src/index.ts.
use auto_camera.Common.{
  ◌≡◌, ◌&&◌, ◌||◌, Bool, Option, none, some, text_eq, ok, ◌>>◌, throw_if, err, Bool-cases, inl, inr,
  any, find, if◌then◌else◌,
}
use auto_camera.Js.Map.{get, set, has, values}
use auto_camera.Domain.Uuid.{Uuid}
use auto_camera.Domain.Artifact.{ArtifactRecord}
use auto_camera.Store.State.{Stored, MemoryState, unique_violation}

-- The identifier, the object key or the attempt is taken.
abbrev taken : ArtifactRecord → MemoryState → Bool
taken artifact state =
    has artifact.id state.artifacts
    || any
        (λ current.
          text_eq current.object_key artifact.object_key
          || text_eq current.attempt_id artifact.attempt_id)
        (values state.artifacts)

unfoldable pub create_artifact : ArtifactRecord → MemoryState → Stored MemoryState
create_artifact artifact state = do
  throw_if (taken artifact state) unique_violation
  ok (record state { artifacts = set artifact.id artifact state.artifacts })

abbrev artifact_of_tenant : Uuid → Option ArtifactRecord → Option ArtifactRecord
artifact_of_tenant tenant_id none = none
artifact_of_tenant tenant_id (some artifact) =
    if text_eq artifact.tenant_id tenant_id then some artifact else none

unfoldable pub find_artifact : Uuid → Uuid → MemoryState → Option ArtifactRecord
find_artifact tenant_id artifact_id state =
    artifact_of_tenant tenant_id (get artifact_id state.artifacts)

unfoldable pub find_artifact_of_attempt : Uuid → Uuid → MemoryState → Option ArtifactRecord
find_artifact_of_attempt tenant_id attempt_id state =
    find (λ current. text_eq current.tenant_id tenant_id && text_eq current.attempt_id attempt_id)
      (values state.artifacts)

pub create_artifact-eq-ok :
    (artifact : ArtifactRecord) (state after : MemoryState)
    → create_artifact artifact state ≡ ok after
    → after ≡ record state { artifacts = set artifact.id artifact state.artifacts }
unfolding create_artifact
create_artifact-eq-ok artifact state after h = elim (Bool-cases (taken artifact state)) [
  | inl e ↦
      let no : ◌≡◌ {A = Stored MemoryState} (err unique_violation) (ok after) = rw e at h in cc
  | inr e ↦ let written : ◌≡◌ {A = Stored MemoryState} (ok _) (ok after) = rw e at h in cc
]
