-- ===== src/Binding/Ingresses/Success.antt =====
-- When `reconcileIngresses` returns a list.
use k_mesh.Base.{◌≡◌, refl, inl, inr, true, List, [], ◌∷◌, ◌++◌, arith}
use k_mesh.Base.Text.{Text}
use k_mesh.Base.Dict.{Dict, erase}
use k_mesh.Base.Result.{Err, Result, ok, err, is_not_found, Result-cases}
use k_mesh.Api.{KReference, Egress, Ingress, BrokerBinding}
use k_mesh.Binding.{Cluster, Broker, BrokerBindingCache, TriggerBrokerCache, Caches}
use k_mesh.Binding.Ingresses.{
  failed, Visit-cases, visit_trigger, visit_broker, collect_egresses, add_ingress, collect_brokers,
  class_step, collect_classes, reconcile_ingresses, cached, empty_triggers, empty_brokers, slashed,
}

abbrev Succeeds : {A : Type 0} → Result A → Type 0
Succeeds {A} r = (a : A) × (r ≡ ok a)

-- The only errors of a lister are those of objects that do not exist.
abbrev pub OnlyMisses {ℓ} : {A : Type ℓ} → (Text → Text → Result A) → Type ℓ
OnlyMisses get = (ns name : Text) (e : Err) → get ns name ≡ err e → is_not_found e ≡ true

module _ (cl : Cluster) (mb : OnlyMisses cl.get_broker) (mt : OnlyMisses cl.get_trigger) where
  visit_trigger-failed : (b t : KReference) (e : Err) → visit_trigger cl b t ≡ failed e → ⊥
  unfolding visit_trigger
  visit_trigger-failed b t e h = elim (Result-cases (cl.get_trigger t.namespace t.name)) [
    | inl (a, q) ↦ ground arith
    | inr (x, q) ↦ let m = mt t.namespace t.name x q in ground arith
  ]

  visit_broker-failed : (b : KReference) (e : Err) → visit_broker cl b ≡ failed e → ⊥
  unfolding visit_broker
  visit_broker-failed b e h = elim (Result-cases (cl.get_broker b.namespace b.name)) [
    | inl (a, q) ↦ ground arith
    | inr (x, q) ↦ let m = mb b.namespace b.name x q in ground arith
  ]

  collect_egresses-Succeeds :
      (b : KReference) (rest : List (Text × KReference)) (refs : Dict KReference)
      (acc : List Egress)
      → Succeeds (collect_egresses cl b rest refs acc).1
  unfolding collect_egresses
  collect_egresses-Succeeds b [] refs acc = (acc, refl)
  collect_egresses-Succeeds b ((k, t) ∷ rest) refs acc = elim (Visit-cases (visit_trigger cl b t)) [
    | inl (e, q) ↦
        rw (q, collect_egresses) (collect_egresses-Succeeds b rest refs (acc ++ (e ∷ [])))
    | inr (inl q) ↦ rw (q, collect_egresses) (collect_egresses-Succeeds b rest refs acc)
    | inr (inr (inl q)) ↦
        rw (q, collect_egresses) (collect_egresses-Succeeds b rest (erase k refs) acc)
    | inr (inr (inr (e, q))) ↦ absurd (visit_trigger-failed b t e q)
  ]

  module _ (bb : BrokerBinding) where
    add_ingress-Succeeds :
        (x : KReference) (b : Broker) (m : Dict TriggerBrokerCache)
        → Succeeds (add_ingress cl bb x b m).1
    unfolding add_ingress
    add_ingress-Succeeds x b m =
        let cache = cached (empty_triggers bb) (slashed x.namespace x.name) m in
        let (is, q) =
          collect_egresses-Succeeds x (cl.range cache.trigger_refs) cache.trigger_refs [] in
        rw (q, add_ingress) (_, refl)

    collect_brokers-Succeeds :
        (rest : List (Text × KReference)) (refs : Dict KReference) (m : Dict TriggerBrokerCache)
        (acc : List Ingress)
        → Succeeds (collect_brokers cl bb rest refs m acc).2
    unfolding collect_brokers
    collect_brokers-Succeeds [] refs m acc = (acc, refl)
    collect_brokers-Succeeds ((k, t) ∷ rest) refs m acc = elim (Visit-cases (visit_broker cl t)) [
      | inl (b, q) ↦
          let (i, p) = add_ingress-Succeeds t b m in
          rw (q, p, collect_brokers)
            (collect_brokers-Succeeds rest refs (add_ingress cl bb t b m).0 (acc ++ (i ∷ [])))
      | inr (inl q) ↦ rw (q, collect_brokers) (collect_brokers-Succeeds rest refs m acc)
      | inr (inr (inl q)) ↦
          rw (q, collect_brokers) (collect_brokers-Succeeds rest (erase k refs) m acc)
      | inr (inr (inr (e, q))) ↦ absurd (visit_broker-failed t e q)
    ]

    collect_classes-Succeeds :
        (classes : List Text) (b : Dict BrokerBindingCache) (m : Dict TriggerBrokerCache)
        (acc : List Ingress)
        → Succeeds (collect_classes cl bb classes b m acc).2
    unfolding collect_classes class_step
    collect_classes-Succeeds [] b m acc = (acc, refl)
    collect_classes-Succeeds (c ∷ rest) b m acc =
        let refs = (cached (empty_brokers bb) c b).broker_refs in
        let (is, q) = collect_brokers-Succeeds (cl.range refs) refs m acc in
        rw (q, class_step, collect_classes) (collect_classes-Succeeds rest _ _ is)

    -- If the listers fail only on objects that do not exist, `reconcileIngresses` returns a list,
    -- whatever is tracked and in whatever order the maps are visited.
    pub reconcile_ingresses_succeeds :
        (uid : Text) (s : Caches)
        → (is : List Ingress) × ((reconcile_ingresses cl bb uid s).1 ≡ ok is)
    unfolding reconcile_ingresses
    reconcile_ingresses_succeeds uid s =
        collect_classes-Succeeds (cached [] uid s.kmesh_cache) s.tracked_brokers s.tracked_triggers
          []
