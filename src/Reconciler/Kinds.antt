-- ===== src/Reconciler/Kinds.antt =====
-- The two kinds of resource: the reconcilers of KMesh and of BrokerBinding.
use k_mesh.Base.{Bool, Option, List}
use k_mesh.Base.Text.{Text, text}
use k_mesh.Base.Result.{Err, Result}
use k_mesh.Api.{KMesh, KMeshStatus, BrokerBinding, BrokerBindingStatus}
use k_mesh.Machinery.StringSet.{StringSet}
use k_mesh.Reconciler.{Resource, Client, World, Impl, Event}
use k_mesh.Reconciler.Finalizers
use k_mesh.Reconciler.Status
use k_mesh.Reconciler.Create
use k_mesh.Reconciler.Run
use k_mesh.Reconciler.Run.{State, Method}

abbrev pub kmesh_resource : (KMeshStatus → KMeshStatus → Bool) → Resource
kmesh_resource same = record {
  Object = KMesh;
  Status = KMeshStatus;
  meta = λ o. o.meta;
  with_finalizers = λ fs o. record o { meta = record (o.meta) { finalizers = fs } };
  status = λ o. o.status;
  with_status = λ st o. record o { status = st };
  same_status = same;
}

abbrev pub binding_resource : (BrokerBindingStatus → BrokerBindingStatus → Bool) → Resource
binding_resource same = record {
  Object = BrokerBinding;
  Status = BrokerBindingStatus;
  meta = λ o. o.meta;
  with_finalizers = λ fs o. record o { meta = record (o.meta) { finalizers = fs } };
  status = λ o. o.status;
  with_status = λ st o. record o { status = st };
  same_status = same;
}

-- `defaultFinalizerName` of each
abbrev pub kmesh_finalizer : Text
kmesh_finalizer = text "kmeshes.mesh.knative.dev"

abbrev pub binding_finalizer : Text
binding_finalizer = text "brokerbindings.mesh.knative.dev"

module _ (S : StringSet) (same : BrokerBindingStatus → BrokerBindingStatus → Bool)
    (C : Client (binding_resource same)) (im : Impl C) where
  unfoldable pub binding_set_finalizer : BrokerBinding → World C → World C × Result BrokerBinding
  binding_set_finalizer = Finalizers.set_finalizer_if_finalizer S im

  unfoldable pub binding_clear_finalizer :
      BrokerBinding → Option Event → World C → World C × Result BrokerBinding
  binding_clear_finalizer = Finalizers.clear_finalizer S im

  unfoldable pub binding_update_finalizers :
      BrokerBinding → World C → World C × Result BrokerBinding
  binding_update_finalizers = Finalizers.update_finalizers_filtered S im

  unfoldable pub binding_update_status :
      BrokerBinding → BrokerBinding → World C → World C × Option Err
  binding_update_status = Status.update_status im

  unfoldable pub binding_new_state : Text → Result State
  binding_new_state = Run.new_state S im

  unfoldable pub binding_method_for : State → BrokerBinding → Method
  binding_method_for = Run.reconcile_method_for S im

  unfoldable pub binding_reconcile : Text → World C → World C × Option Event
  binding_reconcile = Run.reconcile S im

-- `NewReconciler` of the broker bindings
unfoldable pub binding_new_reconciler :
    {Store Demote : Type 0}
    → Bool
    → List (Create.Options Store Demote)
    → Create.Created Store Demote
binding_new_reconciler = Create.new_reconciler binding_finalizer

-- `NewReconciler` of the meshes
unfoldable pub kmesh_new_reconciler :
    {Store Demote : Type 0}
    → Bool
    → List (Create.Options Store Demote)
    → Create.Created Store Demote
kmesh_new_reconciler = Create.new_reconciler kmesh_finalizer
