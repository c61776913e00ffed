-- ===== src/Tests/Routes.antt =====
-- The event handlers, routed as client-go does.
use k_mesh.Base.{◌≡◌, refl, Option, none, some, if◌then◌else◌}
use k_mesh.Base.Text.{text_eq}
use k_mesh.Base.Dict.{lookup}
use k_mesh.Binding.{Broker, Trigger, Caches}
use k_mesh.Binding.Handlers.{object, tombstone, broker_class, broker_filter, brokers_handler}
use k_mesh.Binding.Controller.{EventHandler, broker_events, trigger_events}
use k_mesh.Binding.Controller.Routing.{
  Event, added, updated, deleted, Call, deletion, Routes, route-accepted_call,
}
use k_mesh.Tests.Cluster.{broker_b, trigger_t, before}

abbrev routed : {A : Type 0} → EventHandler A → Event A → Caches → Option Call
routed h (added o) s = if h.filter_func o s then some (h.add_func o) else none
routed h (updated old new) s =
    if h.filter_func new s
    then (if h.filter_func old s then some (h.update_func old new) else some (h.add_func new))
    else (if h.filter_func old s then deletion h.delete_func old else none)
routed h (deleted o) s = if h.filter_func o s then deletion h.delete_func o else none

routes : (A : Type 0) → Routes A routed
routes A = record {
  route-added = λ h o s. refl;
  route-updated = λ h old new s. refl;
  route-deleted = λ h o s. refl;
}

route-accepted_call_example :
    (routed broker_events (updated tombstone (object broker_b)) before
      ≡ some (brokers_handler broker_b))
    × (routed trigger_events (deleted (object trigger_t)) before ≡ none)
unfolding broker_filter broker_class text_eq lookup
route-accepted_call_example =
    route-accepted_call routed routed (updated tombstone (object broker_b))
      (deleted (object trigger_t)) before (routes Broker) (routes Trigger)
