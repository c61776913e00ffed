-- ===== src/Binding/Ingresses/Listing.antt =====
-- What an ingress of the list says of the tracked triggers, and the step of the broker loop that
-- builds one.
use k_mesh.Base.{
  ◌≡◌, refl, sym, ◌∙◌, subst, inl, inr, some, [], arith, In, filter_map, In-filter_map,
  filter_map-In, ap,
}
use k_mesh.Base.Text.{Text}
use k_mesh.Base.Dict.{Dict, lookup}
use k_mesh.Base.Result.{ok, Result-cases, err-ne-ok, ok-injective}
use k_mesh.Api.{KReference, Egress, Ingress, BrokerBinding}
use k_mesh.Binding.{Cluster, RangesOver, Broker, TriggerBrokerCache}
use k_mesh.Binding.Pruning.{
  Prunes, Prunes-refl, refs_at, refs_at-insert_Prunes, refs_at-adjust-Prunes, range-FromMap,
}
use k_mesh.Binding.Ingresses.{
  slashed, cached, empty_triggers, add_ingress, collect_egresses, new_ingress,
}
use k_mesh.Binding.Ingresses.Egresses.{
  trigger_gone, ready_egress, collect_egresses-Prunes, collect_egresses-eq, ready_egress-not_gone,
}

-- The triggers tracked for a broker.
abbrev pub triggers_at : Text → Dict TriggerBrokerCache → Dict KReference
triggers_at = refs_at (λ c. c.trigger_refs)

cached-trigger_refs :
    (bb : BrokerBinding) (key : Text) (m : Dict TriggerBrokerCache)
    → (cached (empty_triggers bb) key m).trigger_refs ≡ triggers_at key m
cached-trigger_refs bb key m = ground arith

module _ (cl : Cluster) (triggers : Dict TriggerBrokerCache) where
  -- The ingress of a ready broker: its egresses are those of its ready triggers.
  pub record Lists (bref : KReference) (b : Broker) (i : Ingress) : Type 0 where
    pub name : i.name ≡ slashed bref.namespace bref.name
    pub address : i.address ≡ some b.address
    pub sound :
        (e : Egress)
        → In e i.egresses
        → (k : Text) × (t : KReference) × (lookup k
              (triggers_at (slashed bref.namespace bref.name) triggers)
            ≡ some t)
          × (ready_egress cl (k, t) ≡ some e)
    pub complete :
        (k : Text) (t : KReference) (e : Egress)
        → lookup k (triggers_at (slashed bref.namespace bref.name) triggers) ≡ some t
        → ready_egress cl (k, t) ≡ some e
        → In e i.egresses

-- For each broker the tracked triggers are those of before, but for some that are gone.
abbrev pub TriggersPruned : Cluster → Dict TriggerBrokerCache → Dict TriggerBrokerCache → Type 0
TriggersPruned cl a b =
    (key : Text) → Prunes (trigger_gone cl) (triggers_at key a) (triggers_at key b)

module _ (cl : Cluster) (r : RangesOver cl) (bb : BrokerBinding) (bref : KReference)
    (b : Broker) where
  abbrev key : Text
  key = slashed bref.namespace bref.name

  pub add_ingress-TriggersPruned :
      (m : Dict TriggerBrokerCache) → TriggersPruned cl m (add_ingress cl bb bref b m).0
  unfolding add_ingress
  add_ingress-TriggersPruned m j =
      let cache = cached (empty_triggers bb) key m in
      let p : Prunes (trigger_gone cl) (triggers_at key m)
          (collect_egresses cl bref (cl.range cache.trigger_refs) cache.trigger_refs []).0 =
        rw (cached-trigger_refs bb key m) (
          collect_egresses-Prunes cl bref (triggers_at key m) (cl.range (triggers_at key m))
            (triggers_at key m) [] (range-FromMap cl r _) (Prunes-refl _ _)) in
      elim (Result-cases
        (collect_egresses cl bref (cl.range cache.trigger_refs) cache.trigger_refs []).1) [
          | inl (es, e) ↦
              rw (e, add_ingress)
                (refs_at-insert_Prunes (λ c. c.trigger_refs) (trigger_gone cl) key _ m p j)
          | inr (x, e) ↦
              rw (e, add_ingress)
                (refs_at-adjust-Prunes (λ c. c.trigger_refs) (trigger_gone cl) key _ m _ p
                  (λ v. refl) j)
        ]

  add_ingress-eq :
      (m : Dict TriggerBrokerCache) (i : Ingress)
      → (add_ingress cl bb bref b m).1 ≡ ok i
      → i ≡ new_ingress bref b (filter_map (ready_egress cl) (cl.range (triggers_at key m)))
  unfolding add_ingress
  add_ingress-eq m i h =
      let cache = cached (empty_triggers bb) key m in
      elim (Result-cases
        (collect_egresses cl bref (cl.range cache.trigger_refs) cache.trigger_refs []).1) [
          | inl (es, e) ↦
              sym (ok-injective (rw (e, add_ingress) at h))
              ∙ ap (new_ingress bref b)
                  (rw (cached-trigger_refs bb key m) at (collect_egresses-eq cl bref _ _ [] es e))
          | inr (x, e) ↦ absurd (err-ne-ok (rw (e, add_ingress) at h))
        ]

  -- Against the triggers tracked before the reconcile, of which some that are gone are deleted.
  pub add_ingress-Lists :
      (m₀ m : Dict TriggerBrokerCache) (i : Ingress)
      → TriggersPruned cl m₀ m
      → (add_ingress cl bb bref b m).1 ≡ ok i
      → Lists cl m₀ bref b i
  add_ingress-Lists m₀ m i p h = subst (Lists cl m₀ bref b) (sym (add_ingress-eq m i h)) (record {
    name = refl;
    address = refl;
    sound = λ e k.
        let ((uid, t), at, q) =
          In-filter_map (ready_egress cl) e (cl.range (triggers_at key m)) k in
        (uid, t, (p key).sub uid t ((r (triggers_at key m) uid t).0 at), q);
    complete = λ uid t e at q.
        filter_map-In (ready_egress cl) (uid, t) e (cl.range (triggers_at key m))
          ((r (triggers_at key m) uid t).1
            ((p key).keep uid t at (ready_egress-not_gone cl uid t e q)))
          q;
  })
