-- ===== src/Binding/Leader.antt =====
-- The generated reconciler of broker bindings (pkg/client/injection) around `ReconcileKind` of
-- pkg/reconciler/brokerbinding: its world is the reconciler's caches, and the server with the
-- meshes and the bindings.
pub mod Laws
use k_mesh.Base.{◌≡◌, Bool, false, Option, none, some}
use k_mesh.Base.Text.{Text, text}
use k_mesh.Base.Result.{Err, Result}
use k_mesh.Api.{BrokerBinding, BrokerBindingStatus}
use k_mesh.Api.Lifecycle.{ConditionSet, condition_ready}
use k_mesh.Machinery.StringSet.{StringSet}
use k_mesh.Machinery.MeshApi.{MeshApi}
use k_mesh.Binding.{Caches, Cluster}
use k_mesh.Binding.Reconcile.{Outcome, returned, reconcile_kind}
use k_mesh.Binding.Reconcile
use k_mesh.Reconciler.{Client, World, Impl, Event, error_event}
use k_mesh.Reconciler.Kinds.{binding_resource}

module _ (same : BrokerBindingStatus → BrokerBindingStatus → Bool) (A : MeshApi)
    (B : Client (binding_resource same)) where
  -- The bindings as the client `B` reaches them, the meshes, and the reconciler's caches.
  pub record Joint : Type 0 where
    pub caches : Caches
    pub meshes : A.Server
    pub bindings : B.Server

  abbrev on_bindings : {X : Type 0} → (B.Server → B.Server × X) → Joint → Joint × X
  on_bindings f s = let (t, x) = f s.bindings in (record s { bindings = t }, x)

  -- `B`, on the whole world.
  abbrev pub joint_client : Client (binding_resource same)
  joint_client = record {
    Server = Joint;
    lister_get = B.lister_get;
    get = λ ns name s. on_bindings (B.get ns name) s;
    update_status = λ o s. on_bindings (B.update_status o) s;
    patch_finalizers =
        λ ns name fs version s. on_bindings (B.patch_finalizers ns name fs version) s;
  }

  -- What `ReconcileKind` sees, and what it leaves.
  abbrev pub kind_world : BrokerBinding → World joint_client → Reconcile.World A
  kind_world o w = record { caches = w.server.caches; server = w.server.meshes; binding = o }

  abbrev pub after_kind : Reconcile.World A → World joint_client → World joint_client
  after_kind v w = record w { server = record (w.server) { caches = v.caches; meshes = v.server } }

  -- The returned `error` as a `reconciler.Event`.
  abbrev pub event_of : Option Err → Option Event
  event_of none = none
  event_of (some e) = some (error_event e)

  -- The reconciler that `NewImpl` makes of the `Reconciler` of broker bindings: where its
  -- `ReconcileKind` does not panic, it is run, and it has no finalizer. Documented behaviour of
  -- `PreProcessReconcile` and `PostProcessReconcile`: they change neither the metadata nor the
  -- spec, and the latter keeps a condition that is true.
  pub record RunsKind (C : ConditionSet) (S : StringSet) (cl : Cluster) (im : Impl joint_client)
      : Type 0 where
    pub runs :
        (o : BrokerBinding) (w : World joint_client) (e : Option Err)
        → (reconcile_kind C S A cl (kind_world o w)).1 ≡ returned e
        → im.reconcile_kind o w ≡ (
          after_kind (reconcile_kind C S A cl (kind_world o w)).0 w,
          (reconcile_kind C S A cl (kind_world o w)).0.binding,
          event_of e,
        )
    pub finalizes : im.finalize_kind ≡ none
    pub updates : im.skip_status_updates ≡ false
    pub pre_meta : (o : BrokerBinding) → (im.pre_process o).meta ≡ o.meta
    pub pre_spec : (o : BrokerBinding) → (im.pre_process o).spec ≡ o.spec
    pub post_meta : (o original : BrokerBinding) → (im.post_process o original).meta ≡ o.meta
    pub post_ready :
        (o original : BrokerBinding)
        → C.condition condition_ready o.status.status ≡ some (text "True")
        → C.condition condition_ready (im.post_process o original).status.status
          ≡ some (text "True")
