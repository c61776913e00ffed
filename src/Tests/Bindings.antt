-- ===== src/Tests/Bindings.antt =====
-- The broker-binding reconciler on one mesh with one broker and one trigger.
use k_mesh.Base.{
  ◌≡◌, ◌≢◌, ◌⊎◌, refl, subst, inl, true, ◌&&◌, some, List, [], ◌∷◌, if◌then◌else◌, In,
}
use k_mesh.Base.Text.{Text, text, text_eq}
use k_mesh.Base.Dict.{lookup}
use k_mesh.Base.Result.{not_found, ok, err, ok-ne-err, err-injective, is_not_found}
use k_mesh.Api.{Ingress, KMesh}
use k_mesh.Binding.{Caches, Cluster, TriggerBrokerCache}
use k_mesh.Binding.Ingresses.{cached, reconcile_ingresses}
use k_mesh.Binding.Ingresses.Listing.{Lists, TriggersPruned, triggers_at}
use k_mesh.Binding.Ingresses.Brokers.{ListedFrom}
use k_mesh.Binding.Ingresses.Classes.{IsTrackedFor, BrokersPruned}
use k_mesh.Binding.Handlers
use k_mesh.Binding.Listed.{
  reconcile_ingresses_sound, reconcile_ingresses_complete, reconcile_ingresses-pruned,
}
use k_mesh.Binding.Handlers.{
  object, Handled, handled, NamespacedName, new_caches, broker_class, broker_filter,
  brokers_handler, broker_reference, track_broker, trigger_key, trigger_filter, trigger_handler,
  trigger_reference, track_trigger, binding_key,
}
use k_mesh.Tests.Cluster.{
  mesh_ref, mesh, binding, broker_b, trigger_t, cluster, ranges, with_broker, with_both, full,
}
use k_mesh.Binding.Reconcile.{World, cache_classes, reconcile_kind}
use k_mesh.Binding.Reconcile.Classes.{classes_of}
use k_mesh.Binding.Reconcile.Laws.{
  ingresses_for, IsReady, IsNotReady, reconcile_kind_succeeds, reconcile_kind_fails,
}
use k_mesh.Binding.Handlers.Laws.{trigger_handler_accepted}
use k_mesh.Binding.Delivery.{broker_filter-reconcile_ingresses}
use k_mesh.Binding.Events.{
  broker, handle, start, next, learn_classes, reconcile, accept_broker, Reach-handle,
}
use k_mesh.Binding.Ingresses.Success.{OnlyMisses, reconcile_ingresses_succeeds}
use k_mesh.Tests.Machines.{conditions, conditions_lawful, sets, mesh_api, mesh_api_lawful}

reconcile_ingresses_sound_example :
    ListedFrom cluster with_both.tracked_triggers
      (IsTrackedFor (cached [] (text "mesh") with_both.kmesh_cache) with_both.tracked_brokers)
      full
unfolding reconcile_ingresses text_eq
reconcile_ingresses_sound_example =
    reconcile_ingresses_sound cluster ranges binding (text "mesh") with_both (full ∷ []) refl full
      (inl refl)

reconcile_ingresses_complete_example :
    (i : Ingress) × In i (full ∷ [])
    × Lists cluster with_both.tracked_triggers (broker_reference broker_b) broker_b i
unfolding reconcile_ingresses text_eq
reconcile_ingresses_complete_example =
    reconcile_ingresses_complete cluster ranges binding (text "mesh") with_both (full ∷ []) refl
      (text "ub", broker_reference broker_b) broker_b (text "kafka", inl refl, refl) (refl, refl)

abbrev learned : Caches
learned = cache_classes sets (text "mesh") (text "kafka" ∷ []) new_caches

abbrev opened : Caches
opened = (reconcile_ingresses cluster binding (text "mesh") learned).0

Reach-handle_example : handle (broker broker_b) opened ≢ Handlers.panicked
unfolding broker_filter broker_class reconcile_ingresses cache_classes text_eq new_caches
Reach-handle_example =
    Reach-handle sets (record { caches = opened; pending = broker broker_b ∷ [] }) [] []
      (broker broker_b)
      (next
        (next (next start (learn_classes (text "mesh") (text "kafka" ∷ []) refl))
          (reconcile cluster binding (text "mesh") refl))
        (accept_broker broker_b refl refl))
      refl

abbrev world : World (mesh_api mesh)
world = record {
  caches = with_both;
  server = (text "ns/mesh", mesh.status) ∷ [];
  binding = binding;
}

reconcile_kind_succeeds_example :
    (is : List Ingress) × ((ingresses_for conditions sets (mesh_api mesh) cluster mesh world).1
      ≡ ok is)
    × IsReady conditions sets
        (mesh_api mesh)
        cluster
        (reconcile_kind conditions sets (mesh_api mesh) cluster world).0
    × (lookup
          (text "ns/mesh")
          (reconcile_kind conditions sets (mesh_api mesh) cluster world).0.server
        ≡ some (record (mesh.status) {
          broker_classes =
              classes_of
                (text "mesh")
                (ingresses_for conditions sets (mesh_api mesh) cluster mesh world).0;
          ingresses = is;
        }))
    × (classes_of (text "mesh") (ingresses_for conditions sets (mesh_api mesh) cluster mesh world).0
        ≡ classes_of (text "mesh") (cache_classes sets (text "mesh") (text "kafka" ∷ []) with_both))
unfolding reconcile_kind reconcile_ingresses cache_classes text_eq
reconcile_kind_succeeds_example =
    reconcile_kind_succeeds conditions sets (mesh_api mesh) cluster world conditions_lawful
      (mesh_api_lawful mesh) mesh_ref mesh refl refl refl refl

-- The mesh cannot be found.
abbrev no_mesh : Cluster
no_mesh = record cluster { get_kmesh = λ ns name. err (not_found name) }

reconcile_kind_fails_example :
    IsNotReady conditions sets
      (mesh_api mesh)
      no_mesh
      (reconcile_kind conditions sets (mesh_api mesh) no_mesh world).0
    ⊎ ((kmesh : KMesh) × ((ingresses_for conditions sets (mesh_api mesh) no_mesh kmesh world).1
          ≡ err (not_found (text "mesh")))
        × ((reconcile_kind conditions sets (mesh_api mesh) no_mesh world).0.binding ≡ binding))
unfolding reconcile_kind
reconcile_kind_fails_example =
    reconcile_kind_fails conditions sets (mesh_api mesh) no_mesh world conditions_lawful
      (not_found (text "mesh")) refl

-- The brokers are gone.
abbrev no_brokers : Cluster
no_brokers = record cluster { get_broker = λ ns name. err (not_found name) }

reconcile_ingresses-pruned_example :
    ((reconcile_ingresses no_brokers binding (text "mesh") with_both).0.kmesh_cache
      ≡ with_both.kmesh_cache)
    × BrokersPruned no_brokers with_both.tracked_brokers
        (reconcile_ingresses no_brokers binding (text "mesh") with_both).0.tracked_brokers
    × TriggersPruned no_brokers with_both.tracked_triggers
        (reconcile_ingresses no_brokers binding (text "mesh") with_both).0.tracked_triggers
reconcile_ingresses-pruned_example =
    reconcile_ingresses-pruned no_brokers ranges binding (text "mesh") with_both

broker_filter-reconcile_ingresses_example : broker_filter (object broker_b) opened ≡ true
unfolding reconcile_ingresses cache_classes text_eq broker_class new_caches
broker_filter-reconcile_ingresses_example =
    broker_filter-reconcile_ingresses cluster binding (text "mesh") learned [] broker_b
      (text "kafka") refl refl (inl refl)

trigger_handler_accepted_example :
    (t : Caches) × (cache : TriggerBrokerCache) × (lookup (text "ns/b") with_broker.tracked_triggers
      ≡ some cache)
    × (trigger_handler trigger_t with_broker
        ≡ handled t (
            record {
              namespace = cache.broker_binding.meta.namespace;
              name = cache.broker_binding.meta.name;
            }
            ∷ []))
    × ((d uid : Text)
        → lookup uid (triggers_at d t.tracked_triggers) ≡ (
            if text_eq d (text "ns/b") && text_eq uid (text "ut")
            then some (trigger_reference trigger_t)
            else lookup uid (triggers_at d with_broker.tracked_triggers)))
unfolding trigger_filter text_eq lookup
trigger_handler_accepted_example = trigger_handler_accepted trigger_t with_broker refl

found_triggers : OnlyMisses cluster.get_trigger
found_triggers ns name e h = absurd (ok-ne-err h)

missed_brokers : OnlyMisses no_brokers.get_broker
missed_brokers ns name e h = subst (λ x. is_not_found x ≡ true) (err-injective h) refl

reconcile_ingresses_succeeds_example :
    (is : List Ingress) × ((reconcile_ingresses no_brokers binding (text "mesh") with_both).1
      ≡ ok is)
reconcile_ingresses_succeeds_example =
    reconcile_ingresses_succeeds no_brokers missed_brokers found_triggers binding (text "mesh")
      with_both
