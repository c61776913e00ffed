-- ===== src/Binding/Reconcile/Meta.antt =====
-- What `ReconcileKind` leaves of the binding.
use k_mesh.Base.{◌≡◌, arith}
use k_mesh.Api.Lifecycle.{ConditionSet}
use k_mesh.Machinery.StringSet.{StringSet}
use k_mesh.Machinery.MeshApi.{MeshApi}
use k_mesh.Binding.{Cluster}
use k_mesh.Binding.Reconcile.{World, publish, reconcile_kmesh, reconcile_kind, not_ready}

-- `ReconcileKind` changes nothing of the binding but its status.
pub reconcile_kind-meta :
    (C : ConditionSet) (S : StringSet) (A : MeshApi) (cl : Cluster) (w : World A)
    → (reconcile_kind C S A cl w).0.binding.meta ≡ w.binding.meta
unfolding reconcile_kind reconcile_kmesh publish not_ready
reconcile_kind-meta C S A cl w = ground arith
