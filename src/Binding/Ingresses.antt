-- ===== src/Binding/Ingresses.antt =====
-- `(*Reconciler).reconcileIngresses` of pkg/reconciler/brokerbinding/brokerbinding.go. A loop
-- returns the maps as it leaves them, on an error too: entries deleted before it stay deleted.
pub mod Egresses
pub mod Listing
pub mod Brokers
pub mod Classes
pub mod Growth
pub mod Success
use k_mesh.Base.{
  ◌≡◌, refl, ◌⊎◌, inl, inr, Bool, true, false, Option, none, some, List, [], ◌∷◌, ◌++◌,
  if◌then◌else◌,
}
use k_mesh.Base.Text.{Text, text}
use k_mesh.Base.Dict.{Dict, lookup, insert, erase}
use k_mesh.Base.Result.{Err, wrap, is_not_found, Result, ok, err}
use k_mesh.Api.{KReference, Egress, Ingress, BrokerBinding}
use k_mesh.Binding.{Broker, Trigger, BrokerBindingCache, TriggerBrokerCache, Caches, Cluster}

-- `fmt.Sprintf("%s/%s", namespace, name)`
abbrev pub slashed : Text → Text → Text
slashed namespace name = namespace ++ (text "/" ++ name)

abbrev pub new_egress : KReference → Trigger → Egress
new_egress tref t = record {
  name = slashed tref.namespace tref.name;
  destination = some t.subscriber;
}

abbrev pub new_ingress : KReference → Broker → List Egress → Ingress
new_ingress bref b egresses = record {
  name = slashed bref.namespace bref.name;
  address = some b.address;
  egresses = egresses;
}

-- `error retrieving broker ...`; the namespace stands where the name is meant
abbrev pub broker_error : KReference → Err → Err
broker_error bref e =
    wrap (text "error retrieving broker " ++ slashed bref.namespace bref.namespace) e

abbrev pub trigger_error : KReference → KReference → Err → Err
trigger_error bref tref e =
    wrap
      (text "error retrieving trigger "
        ++ (slashed tref.namespace tref.name ++ (text " (broker: " ++ (bref.name ++ text ")"))))
      e

abbrev pub empty_brokers : BrokerBinding → BrokerBindingCache
empty_brokers bb = record { broker_refs = []; broker_binding = bb }

abbrev pub empty_triggers : BrokerBinding → TriggerBrokerCache
empty_triggers bb = record { trigger_refs = []; broker_binding = bb }

-- `cache, ok := m[key]; if !ok { cache = fresh }`
abbrev pub cached {ℓ} : {V : Type ℓ} → V → Text → Dict V → V
cached fresh key m = elim (lookup key m) [ none ↦ fresh | some v ↦ v ]

-- A write through an inner map that the outer map may hold.
abbrev pub adjust {ℓ} : {V : Type ℓ} → (V → V) → Text → Dict V → Dict V
adjust f key m = elim (lookup key m) [ none ↦ m | some v ↦ insert key (f v) m ]

-- What a loop does with an entry: list what it stands for, go on, delete it, or give up.
pub data Visit (A : Type 0) : Type 0 where
  listed : A → Visit A
  skipped gone : Visit A
  failed : Err → Visit A

-- To split on a visit and keep the equation.
Visit-cases :
    {A : Type 0} (v : Visit A)
    → ((a : A) × (v ≡ listed a)) ⊎ (v ≡ skipped) ⊎ (v ≡ gone) ⊎ ((e : Err) × (v ≡ failed e))
Visit-cases (listed a) = inl (a, refl)
Visit-cases skipped = inr (inl refl)
Visit-cases gone = inr (inr (inl refl))
Visit-cases (failed e) = inr (inr (inr (e, refl)))

module _ (cl : Cluster) where
  abbrev visit_trigger_answer : KReference → KReference → Result Trigger → Visit Egress
  visit_trigger_answer bref tref (ok t) = if t.is_ready then listed (new_egress tref t) else skipped
  visit_trigger_answer bref tref (err e) =
      if is_not_found e then gone else failed (trigger_error bref tref e)

  -- The body of the trigger loop.
  pub visit_trigger : KReference → KReference → Visit Egress
  visit_trigger bref tref = visit_trigger_answer bref tref (cl.get_trigger tref.namespace tref.name)

  abbrev visit_broker_answer : KReference → Result Broker → Visit Broker
  visit_broker_answer bref (ok b) = if b.is_ready then listed b else skipped
  visit_broker_answer bref (err e) = if is_not_found e then gone else failed (broker_error bref e)

  -- The body of the broker loop, up to `if b.IsReady()`.
  pub visit_broker : KReference → Visit Broker
  visit_broker bref = visit_broker_answer bref (cl.get_broker bref.namespace bref.name)

  -- `for tuid, tref := range triggersCache.triggerRefs`
  pub collect_egresses :
      KReference
      → List (Text × KReference)
      → Dict KReference
      → List Egress
      → Dict KReference × Result (List Egress)
  collect_egresses bref [] refs egresses = (refs, ok egresses)
  collect_egresses bref ((tuid, tref) ∷ rest) refs egresses = elim (visit_trigger bref tref) [
    | listed e ↦ collect_egresses bref rest refs (egresses ++ (e ∷ []))
    | skipped ↦ collect_egresses bref rest refs egresses
    | gone ↦ collect_egresses bref rest (erase tuid refs) egresses
    | failed e ↦ (refs, err e)
  ]

module _ (cl : Cluster) (bb : BrokerBinding) where
  -- The body of the broker loop for a ready broker: the triggers' map, and the ingress.
  pub add_ingress :
      KReference → Broker → Dict TriggerBrokerCache → Dict TriggerBrokerCache × Result Ingress
  add_ingress bref b triggers =
      let key = slashed bref.namespace bref.name in
      let cache = cached (empty_triggers bb) key triggers in
      let (refs, r) =
        collect_egresses cl bref (cl.range cache.trigger_refs) cache.trigger_refs [] in
      elim r [
        | err e ↦ (adjust (λ c. record c { trigger_refs = refs }) key triggers, err e)
        | ok egresses ↦ (
          insert key (record cache { trigger_refs = refs }) triggers,
          ok (new_ingress bref b egresses),
        )
      ]

  -- `for buid, bref := range bindingCache.brokerRefs`
  pub collect_brokers :
      List (Text × KReference)
      → Dict KReference
      → Dict TriggerBrokerCache
      → List Ingress
      → Dict KReference × Dict TriggerBrokerCache × Result (List Ingress)
  collect_brokers [] refs triggers ingresses = (refs, triggers, ok ingresses)
  collect_brokers ((buid, bref) ∷ rest) refs triggers ingresses = elim (visit_broker cl bref) [
    | listed b ↦
        let (triggers', r) = add_ingress bref b triggers in
        elim r [
          | err e ↦ (refs, triggers', err e)
          | ok ingress ↦ collect_brokers rest refs triggers' (ingresses ++ (ingress ∷ []))
        ]
    | skipped ↦ collect_brokers rest refs triggers ingresses
    | gone ↦ collect_brokers rest (erase buid refs) triggers ingresses
    | failed e ↦ (refs, triggers, err e)
  ]

  -- The body of the class loop.
  pub class_step :
      Text
      → Dict BrokerBindingCache
      → Dict TriggerBrokerCache
      → List Ingress
      → Dict BrokerBindingCache × Dict TriggerBrokerCache × Result (List Ingress)
  class_step c brokers triggers ingresses =
      let cache = cached (empty_brokers bb) c brokers in
      let (refs, triggers', r) =
        collect_brokers (cl.range cache.broker_refs) cache.broker_refs triggers ingresses in
      elim r [
        | err e ↦ (adjust (λ b. record b { broker_refs = refs }) c brokers, triggers', err e)
        | ok ingresses' ↦
            (insert c (record cache { broker_refs = refs }) brokers, triggers', ok ingresses')
      ]

  -- `for _, c := range r.kmeshCache[kmesh.UID]`
  pub collect_classes :
      List Text
      → Dict BrokerBindingCache
      → Dict TriggerBrokerCache
      → List Ingress
      → Dict BrokerBindingCache × Dict TriggerBrokerCache × Result (List Ingress)
  collect_classes [] brokers triggers ingresses = (brokers, triggers, ok ingresses)
  collect_classes (c ∷ rest) brokers triggers ingresses =
      let (brokers', triggers', r) = class_step c brokers triggers ingresses in
      elim r [
        | err e ↦ (brokers', triggers', err e)
        | ok ingresses' ↦ collect_classes rest brokers' triggers' ingresses'
      ]

  -- `reconcileIngresses`, for the mesh with this UID
  unfoldable pub reconcile_ingresses : Text → Caches → Caches × Result (List Ingress)
  unfolding collect_classes class_step collect_brokers add_ingress collect_egresses visit_trigger
      visit_broker lookup insert erase
  reconcile_ingresses uid s =
      let classes = cached [] uid s.kmesh_cache in
      let (brokers, triggers, r) =
        collect_classes classes s.tracked_brokers s.tracked_triggers [] in
      (record s { tracked_brokers = brokers; tracked_triggers = triggers }, r)
