-- ===== src/Controllers/Kinds.antt =====
-- `NewImpl` of the two kinds, with the default names of their finalizers and agents.
use k_mesh.Base.{Option, List}
use k_mesh.Base.Text.{Text, text}
use k_mesh.Reconciler.Kinds.{kmesh_finalizer, binding_finalizer}
use k_mesh.Base.Result.{Err}
use k_mesh.Clientset.{Kind}
use k_mesh.Clientset.Kinds.{brokerbindings}
use k_mesh.Listers.{Indexer}
use k_mesh.Controllers.{
  ControllerOptions, Built, NamespacedName, new_impl, promote_func, create_recorder,
}

-- `defaultControllerAgentName` of each
abbrev pub kmesh_agent : Text
kmesh_agent = text "kmesh-controller"

abbrev pub binding_agent : Text
binding_agent = text "brokerbinding-controller"

module _ {Store Demote Object : Type 0} (path type_name : Text) where
  unfoldable pub kmesh_new_impl :
      List (ControllerOptions Store Demote Object) → Option (Built Store Demote Object)
  kmesh_new_impl = new_impl kmesh_finalizer kmesh_agent path type_name

  unfoldable pub binding_new_impl :
      List (ControllerOptions Store Demote Object) → Option (Built Store Demote Object)
  binding_new_impl = new_impl binding_finalizer binding_agent path type_name

-- The promote function of the controller of broker bindings, over their lister.
module _ (ListMeta Options Bytes Watch : Type 0) where
  abbrev BindingKind : Kind
  BindingKind = brokerbindings ListMeta Options Bytes Watch

  module _ (I : Indexer BindingKind) {Store Demote Bucket W : Type 0} where
    unfoldable pub binding_promote_func :
        I.Selector
        → Built Store Demote BindingKind.Object
        → (Bucket → NamespacedName → W → W)
        → Bucket
        → W
        → W × Option Err
    binding_promote_func = promote_func I

-- `createRecorder` of the controller of broker bindings, for the agent that its options give.
unfoldable pub binding_create_recorder :
    {Recorder Kube : Type 0}
    → Option Recorder
    → Option Kube
    → (Kube → Text → Recorder)
    → Text
    → Option Recorder
unfolding create_recorder
binding_create_recorder = create_recorder
