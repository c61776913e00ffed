-- ===== src/Binding/Controller/Routing.antt =====
-- Which events of the informers of brokers and triggers lead to which call of a handler.
use k_mesh.Base.{
  ◌≡◌, refl, ◌∙◌, inl, inr, Bool, false, Option, none, some, Bool-cases, if◌then◌else◌,
}
use k_mesh.Binding.{Broker, Trigger, Caches}
use k_mesh.Binding.Handlers.{
  Delivery, object, tombstone, Handled, broker_filter, brokers_handler, trigger_filter,
  trigger_handler,
}
use k_mesh.Binding.Controller.{EventHandler, broker_events, trigger_events, tracking}

-- An event of an informer.
pub data Event (A : Type 0) : Type 0 where
  added : Delivery A → Event A
  updated : Delivery A → Delivery A → Event A
  deleted : Delivery A → Event A

-- The call that an event leads to, if it leads to one; it runs later, on the caches of that time.
abbrev pub Call : Type 0
Call = Caches → Handled

abbrev pub deletion : {A : Type 0} → Option (Delivery A → Call) → Delivery A → Option Call
deletion none o = none
deletion (some f) o = some (f o)

-- Documented behaviour of `FilteringResourceEventHandler`: an update to an object that passes the
-- filter is an addition if the old object did not pass it, and one from an object that passed to
-- one that does not is a deletion.
pub record Routes (A : Type 0) (route : EventHandler A → Event A → Caches → Option Call)
    : Type 0 where
  pub route-added :
      (h : EventHandler A) (o : Delivery A) (s : Caches)
      → route h (added o) s ≡ (if h.filter_func o s then some (h.add_func o) else none)
  pub route-updated :
      (h : EventHandler A) (old new : Delivery A) (s : Caches)
      → route h (updated old new) s ≡ (
          if h.filter_func new s
          then (if h.filter_func old s then some (h.update_func old new) else some (h.add_func new))
          else (if h.filter_func old s then deletion h.delete_func old else none))
  pub route-deleted :
      (h : EventHandler A) (o : Delivery A) (s : Caches)
      → route h (deleted o) s ≡ (if h.filter_func o s then deletion h.delete_func o else none)

-- The newest object of an event, if it is not a deletion.
abbrev pub newest : {A : Type 0} → Event A → Delivery A
newest (added o) = o
newest (updated old new) = new
newest (deleted o) = tombstone

-- The call on an object that the filter accepts.
abbrev pub accepted_call :
    {A : Type 0} → (A → Call) → (Delivery A → Caches → Bool) → Delivery A → Caches → Option Call
accepted_call f filter (object a) s = if filter (object a) s then some (f a) else none
accepted_call f filter tombstone s = none

module _ {A : Type 0} (route : EventHandler A → Event A → Caches → Option Call) (r : Routes A route)
    (filter : Delivery A → Caches → Bool) (f : A → Call) where
  route-tracking :
      (e : Event A) (s : Caches)
      → filter tombstone s ≡ false
      → route (tracking filter f) e s ≡ accepted_call f filter (newest e) s
  route-tracking (added (object a)) s t = r.route-added (tracking filter f) (object a) s
  route-tracking (added tombstone) s t = r.route-added (tracking filter f) tombstone s ∙ rw t
  route-tracking (deleted o) s t =
      r.route-deleted (tracking filter f) o s
      ∙ elim (Bool-cases (filter o s)) [ inl e ↦ rw e | inr e ↦ rw e ]
  route-tracking (updated old (object a)) s t =
      r.route-updated (tracking filter f) old (object a) s
      ∙ elim (Bool-cases (filter old s)) [ inl e ↦ rw e | inr e ↦ rw e ]
  route-tracking (updated old tombstone) s t =
      r.route-updated (tracking filter f) old tombstone s
      ∙ elim (Bool-cases (filter old s)) [ inl e ↦ rw (t, e) | inr e ↦ rw (t, e) ]

-- An event of the informer of brokers leads to the broker handler's call on its newest object,
-- exactly if the filter accepts that object, and to no call otherwise; a deletion leads to none.
-- The same holds of triggers and their handler.
pub route-accepted_call :
    (route : EventHandler Broker → Event Broker → Caches → Option Call)
    (route' : EventHandler Trigger → Event Trigger → Caches → Option Call) (e : Event Broker)
    (e' : Event Trigger) (s : Caches)
    → Routes Broker route
    → Routes Trigger route'
    → (route broker_events e s ≡ accepted_call brokers_handler broker_filter (newest e) s)
      × (route' trigger_events e' s ≡ accepted_call trigger_handler trigger_filter (newest e') s)
unfolding broker_events trigger_events broker_filter trigger_filter
route-accepted_call route route' e e' s r r' = (
  route-tracking route r broker_filter brokers_handler e s refl,
  route-tracking route' r' trigger_filter trigger_handler e' s refl,
)
