-- ===== src/Controllers.antt =====
-- The generated controllers, pkg/client/injection/reconciler/mesh/v1alpha1/kmesh/controller.go and
-- its sibling for broker bindings: one text over the kind of resource. What a context holds, the
-- functions of the leader election and a configuration store are handed through.
pub mod Options
pub mod Kinds
use k_mesh.Base.{
  ◌≡◌, Bool, true, false, Option, none, some, List, [], ◌∷◌, ◌++◌, ◌==◌, if◌then◌else◌,
}
use k_mesh.Base.Text.{Text, text}
use k_mesh.Base.Result.{Err}
use k_mesh.Clientset.{Kind}
use k_mesh.Listers.{Indexer, Lister, lister_list}

-- `controller.ControllerOptions`, over the stores, the demote functions and the objects.
pub record ControllerOptions (Store Demote Object : Type 0) : Type 0 where
  pub config_store : Option Store
  pub finalizer_name : Text
  pub agent_name : Text
  pub skip_status_updates : Bool
  pub demote_func : Option Demote
  pub promote_filter_func : Option (Object → Bool)

-- The `reconcilerImpl` that `NewImpl` fills, and its variables `agentName` and `promoteFilterFunc`.
pub record Built (Store Demote Object : Type 0) : Type 0 where
  pub config_store : Option Store
  pub finalizer_name : Text
  pub agent_name : Text
  pub skip_status_updates : Bool
  pub demote_func : Option Demote
  pub promote_filter_func : Option (Object → Bool)
  pub work_queue_name : Text

-- `types.NamespacedName`
pub record NamespacedName : Type 0 where
  pub namespace : Text
  pub name : Text

-- `strings.ReplaceAll(ctrTypeName, "/", ".")`
unfoldable pub dotted : Text → Text
dotted [] = []
dotted (c ∷ cs) = (if c == b'/' then b'.' else c) ∷ dotted cs

-- `if s != "" { name = s }`
abbrev pub unless_empty : Text → Text → Text
unless_empty [] name = name
unless_empty (c ∷ cs) name = c ∷ cs

-- `if v != nil { field = v }`
abbrev pub unless_nil : {A : Type 0} → Option A → Option A → Option A
unless_nil none field = field
unless_nil (some v) field = some v

module _ {Store Demote Object : Type 0} where
  -- The body of the loop over the options.
  unfoldable pub apply_controller_options :
      ControllerOptions Store Demote Object → Built Store Demote Object → Built Store Demote Object
  apply_controller_options o b = record b {
    config_store = unless_nil o.config_store b.config_store;
    finalizer_name = unless_empty o.finalizer_name b.finalizer_name;
    agent_name = unless_empty o.agent_name b.agent_name;
    skip_status_updates = if o.skip_status_updates then true else b.skip_status_updates;
    demote_func = unless_nil o.demote_func b.demote_func;
    promote_filter_func = unless_nil o.promote_filter_func b.promote_filter_func;
  }

  unfoldable pub apply_each :
      List (ControllerOptions Store Demote Object)
      → Built Store Demote Object
      → Built Store Demote Object
  unfolding apply_controller_options
  apply_each [] b = b
  apply_each (o ∷ os) b = apply_each os (apply_controller_options o b)

  -- `NewImpl`: the default names of the finalizer and of the agent, the path of the package and
  -- the name of the reconciler's type, and what the options functions give. `none` is the fatal
  -- exit. The promote function reads `promoteFilterFunc` when it is called.
  unfoldable pub new_impl :
      Text
      → Text
      → Text
      → Text
      → List (ControllerOptions Store Demote Object)
      → Option (Built Store Demote Object)
  unfolding dotted apply_each
  new_impl default_finalizer default_agent path type_name options =
      let built = apply_each options (record {
        config_store = none;
        finalizer_name = default_finalizer;
        agent_name = default_agent;
        skip_status_updates = false;
        demote_func = none;
        promote_filter_func = none;
        work_queue_name = dotted (path ++ text "." ++ type_name);
      }) in
      elim options [ [] ↦ some built | _ ∷ [] ↦ some built | _ ∷ _ ∷ _ ↦ none ]

-- `createRecorder`: the context's recorder, or a new one whose component is the agent, which writes
-- to the context's Kubernetes client; `none` is the panic where there is no such client.
unfoldable pub create_recorder :
    {Recorder Kube : Type 0}
    → Option Recorder
    → Option Kube
    → (Kube → Text → Recorder)
    → Text
    → Option Recorder
create_recorder (some recorder) kube new_recorder agent = some recorder
create_recorder none none new_recorder agent = none
create_recorder none (some kube) new_recorder agent = some (new_recorder kube agent)

-- The loop of the promote function.
unfoldable pub promote_each :
    (K : Kind) {Bucket W : Type 0}
    → Option (K.Object → Bool)
    → (Bucket → NamespacedName → W → W)
    → Bucket
    → List K.Object
    → W
    → W
promote_each K filter enq bucket [] w = w
promote_each K filter enq bucket (elt ∷ all) w =
    let passes : Bool = elim filter [ none ↦ true | some f ↦ f elt ] in
    promote_each K filter enq bucket all (
      if passes
      then enq bucket (record { namespace = K.namespace_of elt; name = K.name_of elt }) w
      else w)

module _ {K : Kind} (I : Indexer K) {Store Demote : Type 0} {Bucket W : Type 0} where
  -- `PromoteFunc`, with the selector of everything and the lister of the informer
  unfoldable pub promote_func :
      I.Selector
      → Built Store Demote K.Object
      → (Bucket → NamespacedName → W → W)
      → Bucket
      → W
      → W × Option Err
  unfolding promote_each lister_list
  promote_func everything b enq bucket w =
      let (all, e) = lister_list I everything in
      elim e [
        | some x ↦ (w, some x)
        | none ↦ (promote_each K b.promote_filter_func enq bucket all w, none)
      ]
