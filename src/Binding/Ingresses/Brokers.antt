-- ===== src/Binding/Ingresses/Brokers.antt =====
-- The broker loop of `reconcileIngresses`: what it lists and what it deletes.
use k_mesh.Base.{
  ◌≡◌, refl, sym, subst, ◌⊎◌, inl, inr, Bool, true, List, [], ◌∷◌, ◌++◌, arith, In, In-append,
  In-append_left, In-last,
}
use k_mesh.Base.Text.{Text}
use k_mesh.Base.Dict.{Dict, erase}
use k_mesh.Base.Result.{ok, Result-cases, err-ne-ok, ok-injective}
use k_mesh.Api.{KReference, Ingress, BrokerBinding}
use k_mesh.Binding.{Cluster, RangesOver, Broker, TriggerBrokerCache}
use k_mesh.Binding.Pruning.{missing, Prunes, Prunes-trans, erase-Prunes, FromMap}
use k_mesh.Binding.Ingresses.{listed, gone, Visit-cases, visit_broker, add_ingress, collect_brokers}
use k_mesh.Binding.Ingresses.Egresses.{trigger_gone}
use k_mesh.Binding.Ingresses.Listing.{
  Lists, TriggersPruned, add_ingress-TriggersPruned, add_ingress-Lists,
}

abbrev pub broker_gone : Cluster → KReference → Bool
broker_gone cl b = missing (cl.get_broker b.namespace b.name)

-- The reference is to this broker, and the broker is ready.
abbrev pub IsReadyBroker : Cluster → KReference → Broker → Type 0
IsReadyBroker cl bref b = (cl.get_broker bref.namespace bref.name ≡ ok b) × (b.is_ready ≡ true)

-- The ingress of a ready broker among those of `P`.
abbrev pub ListedFrom :
    Cluster → Dict TriggerBrokerCache → (Text × KReference → Type 0) → Ingress → Type 0
ListedFrom cl m P i =
    (x : Text × KReference) × (b : Broker) × P x × IsReadyBroker cl x.1 b × Lists cl m x.1 b i

pub TriggersPruned-trans :
    (cl : Cluster) (a b c : Dict TriggerBrokerCache)
    → TriggersPruned cl a b
    → TriggersPruned cl b c
    → TriggersPruned cl a c
TriggersPruned-trans cl a b c p q key = Prunes-trans (trigger_gone cl) (p key) (q key)

-- What the loop over `rest` adds to the list.
pub record BrokersDone (cl : Cluster) (m₀ : Dict TriggerBrokerCache)
    (rest : List (Text × KReference)) (acc is : List Ingress) : Type 0 where
  pub sound : (i : Ingress) → In i is → In i acc ⊎ ListedFrom cl m₀ (λ x. In x rest) i
  pub kept : (i : Ingress) → In i acc → In i is
  pub complete :
      (x : Text × KReference) (b : Broker)
      → In x rest
      → IsReadyBroker cl x.1 b
      → (i : Ingress) × In i is × Lists cl m₀ x.1 b i

module _ (cl : Cluster) where
  visit_broker-gone : (t : KReference) → visit_broker cl t ≡ gone → broker_gone cl t ≡ true
  unfolding visit_broker
  visit_broker-gone t h = ground arith

  visit_broker-listed :
      (t : KReference) (b : Broker) → visit_broker cl t ≡ listed b → IsReadyBroker cl t b
  unfolding visit_broker
  visit_broker-listed t b h = ground arith

  IsReadyBroker-visit :
      (t : KReference) (b : Broker) → IsReadyBroker cl t b → visit_broker cl t ≡ listed b
  unfolding visit_broker
  IsReadyBroker-visit t b h = ground arith

  -- An entry that lists nothing adds nothing to what the loop promises.
  BrokersDone-skip :
      {m₀ : Dict TriggerBrokerCache} {x : Text × KReference} {rest : List (Text × KReference)}
      {acc is : List Ingress}
      → ((b : Broker) → ¬ (visit_broker cl x.1 ≡ listed b))
      → BrokersDone cl m₀ rest acc is
      → BrokersDone cl m₀ (x ∷ rest) acc is
  BrokersDone-skip no_broker d = record {
    sound = λ i k. elim (d.sound i k) [
      | inl old ↦ inl old
      | inr (y, b, at, ready, l) ↦ inr (y, b, inr at, ready, l)
    ];
    kept = d.kept;
    complete = λ y b at ready. elim at [
      | inl e ↦ absurd (
          no_broker b
            (subst (λ z. visit_broker cl z.1 ≡ listed b) e (IsReadyBroker-visit y.1 b ready)))
      | inr k ↦ d.complete y b k ready
    ];
  }

  BrokersDone-add :
      {m₀ : Dict TriggerBrokerCache} (x : Text × KReference) (b : Broker) (j : Ingress)
      {rest : List (Text × KReference)} {acc is : List Ingress}
      → IsReadyBroker cl x.1 b
      → Lists cl m₀ x.1 b j
      → BrokersDone cl m₀ rest (acc ++ (j ∷ [])) is
      → BrokersDone cl m₀ (x ∷ rest) acc is
  BrokersDone-add {m₀} x b j {acc = acc} ready l d = record {
    sound = λ i k. elim (d.sound i k) [
      | inl old ↦ elim (In-append i acc (j ∷ []) old) [
        | inl older ↦ inl older
        | inr (inl e) ↦ inr (x, b, inl refl, ready, subst (Lists cl m₀ x.1 b) (sym e) l)
        | inr (inr n) ↦ absurd n
      ]
      | inr (y, c, at, r, m) ↦ inr (y, c, inr at, r, m)
    ];
    kept = λ i k. d.kept i (In-append_left i acc (j ∷ []) k);
    complete = λ y c at r. elim at [
      | inl e ↦ (j, d.kept j (In-last j acc), subst (λ z. Lists cl m₀ z.0 z.1 j) (pairs y c e r) l)
      | inr k ↦ d.complete y c k r
    ];
  }
    where
      pairs :
          (y : Text × KReference) (c : Broker)
          → y ≡ x
          → IsReadyBroker cl y.1 c
          → ◌≡◌ {A = KReference × Broker} (x.1, b) (y.1, c)
      pairs y c e r = cc

module _ (cl : Cluster) (r : RangesOver cl) (bb : BrokerBinding) where
  pub collect_brokers-Prunes :
      (d : Dict KReference) (rest : List (Text × KReference)) (refs : Dict KReference)
      (m : Dict TriggerBrokerCache) (acc : List Ingress)
      → FromMap d rest
      → Prunes (broker_gone cl) d refs
      → Prunes (broker_gone cl) d (collect_brokers cl bb rest refs m acc).0
  unfolding collect_brokers
  collect_brokers-Prunes d [] refs m acc v p = p
  collect_brokers-Prunes d ((k, t) ∷ rest) refs m acc (h, v) p =
      elim (Visit-cases (visit_broker cl t)) [
        | inl (b, q) ↦ elim (Result-cases (add_ingress cl bb t b m).1) [
          | inl (i, e) ↦ rw (q, e, collect_brokers) (collect_brokers-Prunes d rest refs _ _ v p)
          | inr (x, e) ↦ rw (q, e, collect_brokers) p
        ]
        | inr (inl q) ↦ rw (q, collect_brokers) (collect_brokers-Prunes d rest refs m acc v p)
        | inr (inr (inl q)) ↦
            rw (q, collect_brokers)
              (collect_brokers-Prunes d rest (erase k refs) m acc v
                (erase-Prunes (broker_gone cl) k t d refs h (visit_broker-gone cl t q) p))
        | inr (inr (inr (e, q))) ↦ rw (q, collect_brokers) p
      ]

  pub collect_brokers-TriggersPruned :
      (rest : List (Text × KReference)) (refs : Dict KReference) (m₀ m : Dict TriggerBrokerCache)
      (acc : List Ingress)
      → TriggersPruned cl m₀ m
      → TriggersPruned cl m₀ (collect_brokers cl bb rest refs m acc).1
  unfolding collect_brokers
  collect_brokers-TriggersPruned [] refs m₀ m acc p = p
  collect_brokers-TriggersPruned ((k, t) ∷ rest) refs m₀ m acc p =
      elim (Visit-cases (visit_broker cl t)) [
        | inl (b, q) ↦
            let p' : TriggersPruned cl m₀ (add_ingress cl bb t b m).0 =
              TriggersPruned-trans cl m₀ m _ p (add_ingress-TriggersPruned cl r bb t b m) in
            elim (Result-cases (add_ingress cl bb t b m).1) [
              | inl (i, e) ↦
                  rw (q, e, collect_brokers)
                    (collect_brokers-TriggersPruned rest refs m₀ (add_ingress cl bb t b m).0
                      (acc ++ (i ∷ [])) p')
              | inr (x, e) ↦ rw (q, e, collect_brokers) p'
            ]
        | inr (inl q) ↦
            rw (q, collect_brokers) (collect_brokers-TriggersPruned rest refs m₀ m acc p)
        | inr (inr (inl q)) ↦
            rw (q, collect_brokers) (collect_brokers-TriggersPruned rest (erase k refs) m₀ m acc p)
        | inr (inr (inr (e, q))) ↦ rw (q, collect_brokers) p
      ]

  pub collect_brokers-BrokersDone :
      (rest : List (Text × KReference)) (refs : Dict KReference) (m₀ m : Dict TriggerBrokerCache)
      (acc is : List Ingress)
      → TriggersPruned cl m₀ m
      → (collect_brokers cl bb rest refs m acc).2 ≡ ok is
      → BrokersDone cl m₀ rest acc is
  unfolding collect_brokers
  collect_brokers-BrokersDone [] refs m₀ m acc is p h =
      subst (BrokersDone cl m₀ [] acc) (ok-injective h)
        (record { sound = λ i k. inl k; kept = λ i k. k; complete = λ x b at _. absurd at })
  collect_brokers-BrokersDone ((k, t) ∷ rest) refs m₀ m acc is p h =
      elim (Visit-cases (visit_broker cl t)) [
        | inl (b, q) ↦ elim (Result-cases (add_ingress cl bb t b m).1) [
          | inl (i, e) ↦
              BrokersDone-add cl (k, t) b i (visit_broker-listed cl t b q)
                (add_ingress-Lists cl r bb t b m₀ m i p e)
                (collect_brokers-BrokersDone rest refs m₀ (add_ingress cl bb t b m).0
                  (acc ++ (i ∷ [])) is
                  (TriggersPruned-trans cl m₀ m _ p (add_ingress-TriggersPruned cl r bb t b m))
                  (rw (q, e, collect_brokers) at h))
          | inr (x, e) ↦ absurd (err-ne-ok (rw (q, e, collect_brokers) at h))
        ]
        | inr (inl q) ↦
            BrokersDone-skip cl (λ b e. cc)
              (collect_brokers-BrokersDone rest refs m₀ m acc is p (rw (q, collect_brokers) at h))
        | inr (inr (inl q)) ↦
            BrokersDone-skip cl (λ b e. cc)
              (collect_brokers-BrokersDone rest (erase k refs) m₀ m acc is p
                (rw (q, collect_brokers) at h))
        | inr (inr (inr (e, q))) ↦ absurd (err-ne-ok (rw (q, collect_brokers) at h))
      ]
