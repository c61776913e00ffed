-- ===== src/Binding/Reconcile.antt =====
-- `ReconcileKind` and `reconcileKMesh` of pkg/reconciler/brokerbinding/brokerbinding.go. Other workers
-- may change the caches between its sections under the lock, and before the classes are read for
-- the patch.
pub mod Classes
pub mod Laws
pub mod Meta
use k_mesh.Base.{Option, none, some, List, [], ◌++◌}
use k_mesh.Base.Text.{Text, text}
use k_mesh.Base.Dict.{lookup, insert}
use k_mesh.Base.Result.{Err, Result, ok, err}
use k_mesh.Api.{KReference, Ingress, KMesh, BrokerBinding}
use k_mesh.Api.Lifecycle.{ConditionSet, mark_binding_ready, mark_binding_not_ready_with_details}
use k_mesh.Machinery.StringSet.{StringSet}
use k_mesh.Machinery.MeshApi.{MeshApi}
use k_mesh.Binding.{Caches, Cluster}
use k_mesh.Binding.Ingresses.{slashed, cached, reconcile_ingresses}

-- What a call of `ReconcileKind` comes to: it returns an error or `nil`, or it panics.
pub data Outcome : Type 0 where
  returned : Option Err → Outcome
  panicked : Outcome

-- The reconciler's caches, the API server, and the binding under reconciliation.
pub record World (A : MeshApi) : Type 0 where
  pub caches : Caches
  pub server : A.Server
  pub binding : BrokerBinding

-- `"%s/%s(%s.%s)"`; the API version stands twice
abbrev pub describe : KReference → Text
describe want =
    slashed want.namespace want.name
    ++ (text "(" ++ (want.api_version ++ (text "." ++ (want.api_version ++ text ")"))))

-- The classes seen for a mesh: the first binding's are kept as they are; later ones are joined to
-- them.
abbrev pub joined_classes : StringSet → List Text → Option (List Text) → List Text
joined_classes S classes none = classes
joined_classes S classes (some known) = S.list (S.insert classes (S.new_string known))

-- The first critical section of `reconcileKMesh`.
unfoldable pub cache_classes : StringSet → Text → List Text → Caches → Caches
cache_classes S uid classes s = record s {
  kmesh_cache = insert uid (joined_classes S classes (lookup uid s.kmesh_cache)) s.kmesh_cache;
}

-- `kmeshAfter`
abbrev pub kmesh_after : KMesh → List Ingress → Caches → KMesh
kmesh_after kmesh ingresses s = record kmesh {
  status = record (kmesh.status) {
    broker_classes = cached [] kmesh.meta.uid s.kmesh_cache;
    ingresses = ingresses;
  };
}

abbrev update_failed : Text
update_failed = text "Failed to update KMesh.Status.BrokerClasses"

module _ (C : ConditionSet) (S : StringSet) (A : MeshApi) (cl : Cluster) where
  pub not_ready : Text → Text → World A → World A
  not_ready reason msg w = record w {
    binding = record (w.binding) {
      status = mark_binding_not_ready_with_details C reason msg w.binding.status;
    };
  }

  -- The part of `reconcileKMesh` from `kmeshAfter := kmesh.DeepCopy()` on.
  pub publish : KReference → KMesh → List Ingress → World A → World A × Result KMesh
  publish want kmesh ingresses w =
      elim (A.create_patch kmesh (kmesh_after kmesh ingresses w.caches)) [
        | err e ↦ (
          not_ready update_failed
              (text "Error creating patch for KMesh.Status. Kmesh:  " ++ describe want) w,
          err e,
        )
        | ok p ↦ elim (A.marshal_json p) [
          | err e ↦ (
            not_ready update_failed
                (text "Error creating patch for KMesh.Status. Kmesh:  " ++ describe want) w,
            err e,
          )
          | ok bytes ↦
              let (server', r) =
                A.patch_status kmesh.meta.namespace kmesh.meta.name bytes w.server in
              elim r [
                | err e ↦ (
                  not_ready update_failed
                      (text "Error patching KMesh.Status. Kmesh:  " ++ describe want)
                      (record w { server = server' }),
                  err e,
                )
                | ok patched ↦ (record w { server = server' }, ok kmesh)
              ]
        ]
      ]

  pub reconcile_kmesh : KReference → World A → World A × Result KMesh
  reconcile_kmesh want w = elim (cl.get_kmesh want.namespace want.name) [
    | err e ↦ (
      not_ready (text "Failed to find KMesh") (text "Error getting KMesh: " ++ describe want) w,
      err e,
    )
    | ok kmesh ↦
        let uid = kmesh.meta.uid in
        let (caches', r) =
          reconcile_ingresses cl w.binding uid
            (cl.before_listing (cache_classes S uid w.binding.spec.classes w.caches)) in
        let w' = record w { caches = caches' } in
        elim r [
          | err e ↦ (w', err e)
          | ok ingresses ↦
              publish want kmesh ingresses (record w' { caches = cl.before_patch caches' })
        ]
  ]

  -- `ReconcileKind`: reading a field of the absent `Spec.Kmesh` panics.
  unfoldable pub reconcile_kind : World A → World A × Outcome
  unfolding reconcile_kmesh publish not_ready
  reconcile_kind w = elim w.binding.spec.kmesh [
    | none ↦ (w, panicked)
    | some want ↦
        let (w', r) = reconcile_kmesh want w in
        elim r [
          | err e ↦ (w', returned (some e))
          | ok kmesh ↦ (
            record w' {
              binding = record (w'.binding) { status = mark_binding_ready C w'.binding.status };
            },
            returned none,
          )
        ]
  ]
