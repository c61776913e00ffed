-- ===== src/Binding/Controller.antt =====
-- `NewController` of pkg/reconciler/brokerbinding/controller.go and of
-- pkg/reconciler/kmesh/controller.go: what they take from the context, and the event handlers that
-- they add to the informers.
pub mod Routing
pub mod Creation
use k_mesh.Base.{ℕ, Bool, Option, none, some, List, [], ◌∷◌}
use k_mesh.Base.Text.{Text}
use k_mesh.Binding.{Broker, Trigger, Caches}
use k_mesh.Binding.Handlers.{
  Delivery, object, tombstone, Handled, handled, panicked, new_caches, broker_filter,
  brokers_handler, trigger_filter, trigger_handler,
}
use k_mesh.Controllers.{create_recorder}
use k_mesh.Controllers.Kinds.{kmesh_agent, binding_agent, binding_create_recorder}
use k_mesh.Injection.Context.{
  kmesh_kind, brokerbinding_kind, InformerValue, Context, get_client, get_informer,
}

-- `cache.FilteringResourceEventHandler` over `cache.ResourceEventHandlerFuncs`
pub record EventHandler (A : Type 0) : Type 0 where
  pub filter_func : Delivery A → Caches → Bool
  pub add_func : Delivery A → Caches → Handled
  pub update_func : Delivery A → Delivery A → Caches → Handled
  pub delete_func : Option (Delivery A → Caches → Handled)

-- `obj.(*eventingv1.Broker)` panics on anything else.
abbrev pub asserted : {A : Type 0} → (A → Caches → Handled) → Delivery A → Caches → Handled
asserted f (object a) s = f a s
asserted f tombstone s = panicked

-- A handler of additions and updates, behind a filter.
abbrev pub tracking :
    {A : Type 0} → (Delivery A → Caches → Bool) → (A → Caches → Handled) → EventHandler A
tracking filter f = record {
  filter_func = filter;
  add_func = asserted f;
  update_func = λ old new. asserted f new;
  delete_func = none;
}

-- The handlers that are added to the informers of brokers and of triggers.
unfoldable pub broker_events : EventHandler Broker
broker_events = tracking broker_filter brokers_handler

unfoldable pub trigger_events : EventHandler Trigger
trigger_events = tracking trigger_filter trigger_handler

-- What other packages have put into the context: an event recorder, the Kubernetes client, from
-- which a recorder can be made, the factory of addressable informers, and eventing's informers.
pub record Outside (Recorder Kube Duck Eventing : Type 0) : Type 0 where
  pub event_recorder : Option Recorder
  pub kube_client : Option Kube
  pub new_recorder : Kube → Text → Recorder
  pub addressable : Option Duck
  pub brokers : Option Eventing
  pub triggers : Option Eventing

-- The `Reconciler` of broker bindings as its `NewController` leaves it, with the informer whose
-- events enqueue their own object, the factory that its URI resolver reads, and the recorder.
pub record Made (V Recorder Duck Eventing : Type 0) : Type 0 where
  pub caches : Caches
  pub kmesh_informer : InformerValue V
  pub kmesh_client_set : V
  pub broker_informer : Eventing
  pub trigger_informer : Eventing
  pub uri_resolver : Duck
  pub enqueues : InformerValue V
  pub recorder : Recorder

-- What is read from a context, or the panic where it is not there.
abbrev pub with_value : {X Y : Type 0} → Option X → (X → Option Y) → Option Y
with_value none f = none
with_value (some x) f = f x

module _ {V Recorder Kube Duck Eventing : Type 0} (o : Outside Recorder Kube Duck Eventing) where
  -- `NewController` of the bindings; `NewImpl` takes the informer and the client of the bindings,
  -- and makes the recorder. `none` is a panic.
  unfoldable pub new_controller : Context V → Option (Made V Recorder Duck Eventing)
  unfolding binding_create_recorder
  new_controller c = with_value (get_informer brokerbinding_kind c) λ bindings.
      with_value (get_client c) λ v.
        with_value
          (binding_create_recorder o.event_recorder o.kube_client o.new_recorder binding_agent)
          λ recorder. with_value (get_informer kmesh_kind c) λ meshes. with_value o.brokers λ b.
            with_value o.triggers λ t. with_value o.addressable λ d. some (record {
              caches = new_caches;
              kmesh_informer = meshes;
              kmesh_client_set = v;
              broker_informer = b;
              trigger_informer = t;
              uri_resolver = d;
              enqueues = bindings;
              recorder = recorder;
            })

  -- `NewController` of the meshes: the informer whose events enqueue their own object, and the
  -- recorder
  unfoldable pub kmesh_new_controller : Context V → Option (InformerValue V × Recorder)
  unfolding create_recorder
  kmesh_new_controller c = with_value (get_informer kmesh_kind c) λ meshes.
      with_value (get_client c) λ v.
        with_value (create_recorder o.event_recorder o.kube_client o.new_recorder kmesh_agent)
          λ recorder. some (meshes, recorder)
