-- ===== src/Binding/Handlers.antt =====
-- pkg/reconciler/brokerbinding/controller.go: the filters and handlers that `NewController`
-- installs on the broker and trigger informers. The URI resolver's answer is only logged.
pub mod Laws
use k_mesh.Base.{Bool, true, false, not, Option, none, some, List, [], ◌∷◌, if◌then◌else◌}
use k_mesh.Base.Text.{Text, text, text_eq}
use k_mesh.Base.Dict.{Dict, lookup, insert}
use k_mesh.Api.{KReference, BrokerBinding}
use k_mesh.Binding.{Broker, Trigger, BrokerBindingCache, TriggerBrokerCache, Caches}
use k_mesh.Binding.Ingresses.{slashed}

-- What an informer delivers: an object of its type, or a tombstone of a deleted one.
pub data Delivery (A : Type 0) : Type 0 where
  object : A → Delivery A
  tombstone : Delivery A

-- A key put on the work queue, `types.NamespacedName`.
pub record NamespacedName : Type 0 where
  pub namespace : Text
  pub name : Text

-- A handler leaves the caches changed and keys enqueued, or panics on a write to a nil map.
pub data Handled : Type 0 where
  handled : Caches → List NamespacedName → Handled
  panicked : Handled

-- `r := &Reconciler{}` with the three maps made empty
unfoldable pub new_caches : Caches
new_caches = record { kmesh_cache = []; tracked_brokers = []; tracked_triggers = [] }

abbrev pub is_some {ℓ} : {A : Type ℓ} → Option A → Bool
is_some none = false
is_some (some _) = true

-- The class annotation, where it is set and not empty.
unfoldable pub broker_class : Broker → Option Text
broker_class b = elim b.class_annotation [
  | none ↦ none
  | some c ↦ if text_eq c (text "") then none else some c
]

unfoldable pub broker_filter : Delivery Broker → Caches → Bool
unfolding broker_class
broker_filter (object b) s = elim (broker_class b) [
  | none ↦ false
  | some c ↦ is_some (lookup c s.tracked_brokers)
]
broker_filter tombstone s = false

abbrev pub broker_reference : Broker → KReference
broker_reference b = record {
  kind = b.kind;
  namespace = b.namespace;
  name = b.name;
  api_version = b.api_version;
}

-- `r.trackedBrokers[c].brokerRefs[uid] = kref`, through the map that the entry holds
abbrev pub track_broker : Text → Broker → BrokerBindingCache → Caches → Caches
track_broker c b cache s = record s {
  tracked_brokers =
      insert c (record cache { broker_refs = insert b.uid (broker_reference b) cache.broker_refs })
        s.tracked_brokers;
}

-- `brokersHandler`
unfoldable pub brokers_handler : Broker → Caches → Handled
unfolding broker_class
brokers_handler b s = elim (broker_class b) [
  | none ↦ handled s []
  | some c ↦ elim (lookup c s.tracked_brokers) [
    | none ↦ panicked
    | some cache ↦ handled (track_broker c b cache s) []
  ]
]

-- The broker that a trigger names: the key of `trackedTriggers`.
abbrev pub trigger_key : Trigger → Text
trigger_key t = slashed t.namespace t.broker

unfoldable pub trigger_filter : Delivery Trigger → Caches → Bool
trigger_filter (object t) s = is_some (lookup (trigger_key t) s.tracked_triggers)
trigger_filter tombstone s = false

abbrev pub trigger_reference : Trigger → KReference
trigger_reference t = record {
  kind = t.kind;
  namespace = t.namespace;
  name = t.name;
  api_version = t.api_version;
}

-- `r.trackedTriggers[key].triggerRefs[uid] = tref`
abbrev pub track_trigger : Trigger → TriggerBrokerCache → Caches → Caches
track_trigger t cache s = record s {
  tracked_triggers =
      insert (trigger_key t)
        (record cache { trigger_refs = insert t.uid (trigger_reference t) cache.trigger_refs })
        s.tracked_triggers;
}

-- `impl.EnqueueKey` of the binding that tracks the broker
abbrev pub binding_key : TriggerBrokerCache → NamespacedName
binding_key cache = record {
  namespace = cache.broker_binding.meta.namespace;
  name = cache.broker_binding.meta.name;
}

-- `triggerHandler`
unfoldable pub trigger_handler : Trigger → Caches → Handled
trigger_handler t s = elim (lookup (trigger_key t) s.tracked_triggers) [
  | none ↦ panicked
  | some cache ↦ handled (track_trigger t cache s) (binding_key cache ∷ [])
]
