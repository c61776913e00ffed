-- ===== src/Machinery/MeshApi.antt =====
-- The API server as the reconciler of broker bindings reaches it: `duck.CreatePatch`,
-- `MarshalJSON` and the `Patch` of the status subresource of a KMesh.
use k_mesh.Base.{◌≡◌, Option, some}
use k_mesh.Base.Text.{Text}
use k_mesh.Base.Result.{Result, ok}
use k_mesh.Api.{KMesh, KMeshStatus}

pub record MeshApi : Type 1 where
  pub Server : Type 0
  pub Patch : Type 0
  -- `[]byte`
  pub Bytes : Type 0
  pub create_patch : KMesh → KMesh → Result Patch
  pub marshal_json : Patch → Result Bytes
  -- namespace, name, patch
  pub patch_status : Text → Text → Bytes → Server → Server × Result KMesh
  -- the status of the KMesh with this namespace and name, as the server has stored it
  pub stored : Text → Text → Server → Option KMeshStatus

-- Documented behaviour: a patch between two objects, accepted by a server that has stored the
-- first, turns the stored status into that of the second.
pub record IsLawful (A : MeshApi) : Type 0 where
  pub stored-patch_status :
      (before after : KMesh) (p : A.Patch) (bytes : A.Bytes) (ns name : Text) (s t : A.Server)
      (m : KMesh)
      → A.create_patch before after ≡ ok p
      → A.marshal_json p ≡ ok bytes
      → A.stored ns name s ≡ some before.status
      → A.patch_status ns name bytes s ≡ (t, ok m)
      → A.stored ns name t ≡ some after.status
