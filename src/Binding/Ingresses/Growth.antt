-- ===== src/Binding/Ingresses/Growth.antt =====
-- Which keys the caches have before and after `reconcileIngresses`.
use k_mesh.Base.{◌≡◌, inl, inr, List, [], ◌∷◌, ◌++◌, In, subst, sym}
use k_mesh.Base.Text.{Text}
use k_mesh.Base.Dict.{Dict, erase}
use k_mesh.Base.Result.{ok, Result-cases, err-ne-ok}
use k_mesh.Api.{KReference, Ingress, BrokerBinding}
use k_mesh.Binding.{Cluster, Broker, BrokerBindingCache, TriggerBrokerCache, Caches}
use k_mesh.Binding.Tracking.{Has, Grows, insert-Has, insert-Grows, adjust-Grows}
use k_mesh.Binding.Ingresses.{
  slashed, cached, empty_brokers, empty_triggers, Visit-cases, visit_broker, collect_egresses,
  add_ingress, collect_brokers, class_step, collect_classes, reconcile_ingresses,
}

module _ (cl : Cluster) (bb : BrokerBinding) where
  add_ingress-Grows :
      (bref : KReference) (b : Broker) (m : Dict TriggerBrokerCache)
      → Grows m (add_ingress cl bb bref b m).0
  unfolding add_ingress
  add_ingress-Grows bref b m j h =
      let key = slashed bref.namespace bref.name in
      let cache = cached (empty_triggers bb) key m in
      let out = collect_egresses cl bref (cl.range cache.trigger_refs) cache.trigger_refs [] in
      elim (Result-cases out.1) [
        | inl (es, e) ↦ rw (e, add_ingress) (insert-Grows key _ m j h)
        | inr (x, e) ↦ rw (e, add_ingress) (adjust-Grows _ key m j h)
      ]

  collect_brokers-Grows :
      (rest : List (Text × KReference)) (refs : Dict KReference) (m : Dict TriggerBrokerCache)
      (acc : List Ingress)
      → Grows m (collect_brokers cl bb rest refs m acc).1
  unfolding collect_brokers
  collect_brokers-Grows [] refs m acc k h = h
  collect_brokers-Grows ((uid, t) ∷ rest) refs m acc k h = elim (Visit-cases (visit_broker cl t)) [
    | inl (b, q) ↦
        let h' = add_ingress-Grows t b m k h in
        elim (Result-cases (add_ingress cl bb t b m).1) [
          | inl (i, e) ↦
              rw (q, e, collect_brokers)
                (collect_brokers-Grows rest refs (add_ingress cl bb t b m).0 (acc ++ (i ∷ [])) k h')
          | inr (x, e) ↦ rw (q, e, collect_brokers) h'
        ]
    | inr (inl q) ↦ rw (q, collect_brokers) (collect_brokers-Grows rest refs m acc k h)
    | inr (inr (inl q)) ↦
        rw (q, collect_brokers) (collect_brokers-Grows rest (erase uid refs) m acc k h)
    | inr (inr (inr (e, q))) ↦ rw (q, collect_brokers) h
  ]

  class_step-Grows :
      (c : Text) (b : Dict BrokerBindingCache) (m : Dict TriggerBrokerCache) (acc : List Ingress)
      → Grows b (class_step cl bb c b m acc).0 × Grows m (class_step cl bb c b m acc).1
  unfolding class_step
  class_step-Grows c b m acc =
      let cache = cached (empty_brokers bb) c b in
      let visits = cl.range cache.broker_refs in
      let out = collect_brokers cl bb visits cache.broker_refs m acc in
      let grows = collect_brokers-Grows visits cache.broker_refs m acc in
      elim (Result-cases out.2) [
        | inl (is, e) ↦ rw (e, class_step) (insert-Grows c _ b, grows)
        | inr (x, e) ↦ rw (e, class_step) (adjust-Grows _ c b, grows)
      ]

  -- A class whose turn ends without an error is tracked from then on.
  class_step-Has :
      (c : Text) (b : Dict BrokerBindingCache) (m : Dict TriggerBrokerCache) (acc is : List Ingress)
      → (class_step cl bb c b m acc).2 ≡ ok is
      → Has (class_step cl bb c b m acc).0 c
  unfolding class_step
  class_step-Has c b m acc is h =
      let cache = cached (empty_brokers bb) c b in
      let out = collect_brokers cl bb (cl.range cache.broker_refs) cache.broker_refs m acc in
      elim (Result-cases out.2) [
        | inl (js, e) ↦ rw (e, class_step) (insert-Has c _ b)
        | inr (x, e) ↦ absurd (err-ne-ok (rw (e, class_step) at h))
      ]

  collect_classes-Grows :
      (classes : List Text) (b : Dict BrokerBindingCache) (m : Dict TriggerBrokerCache)
      (acc : List Ingress)
      → Grows b (collect_classes cl bb classes b m acc).0
        × Grows m (collect_classes cl bb classes b m acc).1
  unfolding collect_classes
  collect_classes-Grows [] b m acc = (λ k h. h, λ k h. h)
  collect_classes-Grows (c ∷ rest) b m acc =
      let out = class_step cl bb c b m acc in
      let (p, q) = class_step-Grows c b m acc in
      elim (Result-cases out.2) [
        | inl (js, e) ↦
            let (p', q') = collect_classes-Grows rest out.0 out.1 js in
            rw (e, collect_classes) (λ k h. p' k (p k h), λ k h. q' k (q k h))
        | inr (x, e) ↦ rw (e, collect_classes) (p, q)
      ]

  collect_classes-Has :
      (classes : List Text) (b : Dict BrokerBindingCache) (m : Dict TriggerBrokerCache)
      (acc is : List Ingress) (c : Text)
      → In c classes
      → (collect_classes cl bb classes b m acc).2 ≡ ok is
      → Has (collect_classes cl bb classes b m acc).0 c
  unfolding collect_classes
  collect_classes-Has [] b m acc is c at h = absurd at
  collect_classes-Has (d ∷ rest) b m acc is c at h =
      let out = class_step cl bb d b m acc in
      elim (Result-cases out.2) [
        | inl (js, e) ↦
            rw (e, collect_classes)
              (elim at [
                | inl same ↦
                    (collect_classes-Grows rest out.0 out.1 js).0 c
                      (subst (Has out.0) (sym same) (class_step-Has d b m acc js e))
                | inr later ↦
                    collect_classes-Has rest out.0 out.1 js is c later
                      (rw (e, collect_classes) at h)
              ])
        | inr (x, e) ↦ absurd (err-ne-ok (rw (e, collect_classes) at h))
      ]

  module _ (uid : Text) (s : Caches) where
    -- Whatever it returns, it keeps every tracked class and every tracked broker tracked.
    pub reconcile_ingresses-Grows :
        Grows s.tracked_brokers (reconcile_ingresses cl bb uid s).0.tracked_brokers
        × Grows s.tracked_triggers (reconcile_ingresses cl bb uid s).0.tracked_triggers
    unfolding reconcile_ingresses
    reconcile_ingresses-Grows =
        collect_classes-Grows (cached [] uid s.kmesh_cache) s.tracked_brokers s.tracked_triggers []

    -- If it returns a list, every class of the mesh is tracked afterwards.
    pub reconcile_ingresses-Has :
        (is : List Ingress) (c : Text)
        → (reconcile_ingresses cl bb uid s).1 ≡ ok is
        → In c (cached [] uid s.kmesh_cache)
        → Has (reconcile_ingresses cl bb uid s).0.tracked_brokers c
    unfolding reconcile_ingresses
    reconcile_ingresses-Has is c h at =
        collect_classes-Has (cached [] uid s.kmesh_cache) s.tracked_brokers s.tracked_triggers [] is
          c at h
