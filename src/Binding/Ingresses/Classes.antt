-- ===== src/Binding/Ingresses/Classes.antt =====
-- The class loop of `reconcileIngresses`, and what the whole function returns and leaves.
use k_mesh.Base.{◌≡◌, refl, subst, ◌∙◌, ◌⊎◌, inl, inr, false, List, [], ◌∷◌, some, In, arith}
use k_mesh.Base.Text.{Text}
use k_mesh.Base.Dict.{Dict, lookup}
use k_mesh.Base.Result.{ok, Result-cases, err-ne-ok, ok-injective}
use k_mesh.Api.{KReference, Ingress, BrokerBinding}
use k_mesh.Binding.{Cluster, RangesOver, Broker, BrokerBindingCache, TriggerBrokerCache}
use k_mesh.Binding.Pruning.{
  Prunes, Prunes-refl, Prunes-trans, refs_at, refs_at-insert_Prunes, refs_at-adjust-Prunes,
  range-FromMap,
}
use k_mesh.Binding.Ingresses.{cached, empty_brokers, collect_brokers, collect_classes, class_step}
use k_mesh.Binding.Ingresses.Listing.{Lists, TriggersPruned}
use k_mesh.Binding.Ingresses.Brokers.{
  broker_gone, IsReadyBroker, ListedFrom, BrokersDone, collect_brokers-Prunes,
  collect_brokers-TriggersPruned, collect_brokers-BrokersDone,
}

-- The brokers tracked for a class.
abbrev pub brokers_at : Text → Dict BrokerBindingCache → Dict KReference
brokers_at = refs_at (λ c. c.broker_refs)

abbrev pub BrokersPruned : Cluster → Dict BrokerBindingCache → Dict BrokerBindingCache → Type 0
BrokersPruned cl a b = (c : Text) → Prunes (broker_gone cl) (brokers_at c a) (brokers_at c b)

-- The reference is tracked for one of the classes.
abbrev pub IsTrackedFor : List Text → Dict BrokerBindingCache → Text × KReference → Type 0
IsTrackedFor classes m x = (c : Text) × In c classes × (lookup x.0 (brokers_at c m) ≡ some x.1)

-- What the loop over `classes` adds to the list.
pub record ClassesDone (cl : Cluster) (b₀ : Dict BrokerBindingCache) (m₀ : Dict TriggerBrokerCache)
    (classes : List Text) (acc is : List Ingress) : Type 0 where
  pub sound : (i : Ingress) → In i is → In i acc ⊎ ListedFrom cl m₀ (IsTrackedFor classes b₀) i
  pub kept : (i : Ingress) → In i acc → In i is
  pub complete :
      (x : Text × KReference) (b : Broker)
      → IsTrackedFor classes b₀ x
      → IsReadyBroker cl x.1 b
      → (i : Ingress) × In i is × Lists cl m₀ x.1 b i

cached-broker_refs :
    (bb : BrokerBinding) (c : Text) (m : Dict BrokerBindingCache)
    → (cached (empty_brokers bb) c m).broker_refs ≡ brokers_at c m
cached-broker_refs bb c m = ground arith

module _ (cl : Cluster) (r : RangesOver cl) where
  IsReadyBroker-not_gone :
      (t : KReference) (b : Broker) → IsReadyBroker cl t b → broker_gone cl t ≡ false
  IsReadyBroker-not_gone t b h = ground arith

  -- One class: the entries visited are those tracked for it at that time.
  ClassesDone-cons :
      (b₀ b : Dict BrokerBindingCache) (m₀ : Dict TriggerBrokerCache) (c : Text)
      (classes : List Text) (acc mid is : List Ingress)
      → BrokersPruned cl b₀ b
      → BrokersDone cl m₀ (cl.range (brokers_at c b)) acc mid
      → ClassesDone cl b₀ m₀ classes mid is
      → ClassesDone cl b₀ m₀ (c ∷ classes) acc is
  ClassesDone-cons b₀ b m₀ c classes acc mid is p d e = record {
    sound = λ i k. elim (e.sound i k) [
      | inl m ↦ elim (d.sound i m) [
        | inl a ↦ inl a
        | inr (x, br, at, ready, l) ↦
            inr (x, br, (c, inl refl, (p c).sub x.0 x.1 ((r _ x.0 x.1).0 at)), ready, l)
      ]
      | inr (x, br, (c', at, q), ready, l) ↦ inr (x, br, (c', inr at, q), ready, l)
    ];
    kept = λ i k. e.kept i (d.kept i k);
    complete = λ x br (c', at, q) ready. elim at [
      | inl same ↦
          let q' : lookup x.0 (brokers_at c b₀) ≡ some x.1 =
            subst (λ z. lookup x.0 (brokers_at z b₀) ≡ some x.1) same q in
          let (i, k, l) =
            d.complete x br
              ((r _ x.0 x.1).1 ((p c).keep x.0 x.1 q' (IsReadyBroker-not_gone x.1 br ready)))
              ready in
          (i, e.kept i k, l)
      | inr later ↦ e.complete x br (c', later, q) ready
    ];
  }

  module _ (bb : BrokerBinding) where
    abbrev visits : Text → Dict BrokerBindingCache → List (Text × KReference)
    visits c b = cl.range (brokers_at c b)

    class_step-BrokersPruned :
        (c : Text) (b : Dict BrokerBindingCache) (m : Dict TriggerBrokerCache) (acc : List Ingress)
        → BrokersPruned cl b (class_step cl bb c b m acc).0
    unfolding class_step
    class_step-BrokersPruned c b m acc j =
        let cache = cached (empty_brokers bb) c b in
        let out = collect_brokers cl bb (cl.range cache.broker_refs) cache.broker_refs m acc in
        let p : Prunes (broker_gone cl) (brokers_at c b) out.0 = rw (cached-broker_refs bb c b) (
          collect_brokers-Prunes cl r bb (brokers_at c b) (visits c b) (brokers_at c b) m acc
            (range-FromMap cl r _) (Prunes-refl _ _)) in
        elim (Result-cases out.2) [
          | inl (is, e) ↦
              rw (e, class_step)
                (refs_at-insert_Prunes (λ k. k.broker_refs) (broker_gone cl) c _ b p j)
          | inr (x, e) ↦
              rw (e, class_step)
                (refs_at-adjust-Prunes (λ k. k.broker_refs) (broker_gone cl) c _ b _ p (λ v. refl)
                  j)
        ]

    class_step-TriggersPruned :
        (c : Text) (b : Dict BrokerBindingCache) (m₀ m : Dict TriggerBrokerCache)
        (acc : List Ingress)
        → TriggersPruned cl m₀ m
        → TriggersPruned cl m₀ (class_step cl bb c b m acc).1
    unfolding class_step
    class_step-TriggersPruned c b m₀ m acc q =
        let cache = cached (empty_brokers bb) c b in
        let out = collect_brokers cl bb (cl.range cache.broker_refs) cache.broker_refs m acc in
        let p : TriggersPruned cl m₀ out.1 =
          collect_brokers-TriggersPruned cl r bb (cl.range cache.broker_refs) cache.broker_refs m₀ m
            acc q in
        elim (Result-cases out.2) [
          | inl (is, e) ↦ rw (e, class_step) p
          | inr (x, e) ↦ rw (e, class_step) p
        ]

    class_step-BrokersDone :
        (c : Text) (b : Dict BrokerBindingCache) (m₀ m : Dict TriggerBrokerCache)
        (acc is : List Ingress)
        → TriggersPruned cl m₀ m
        → (class_step cl bb c b m acc).2 ≡ ok is
        → BrokersDone cl m₀ (visits c b) acc is
    unfolding class_step
    class_step-BrokersDone c b m₀ m acc is q h =
        let cache = cached (empty_brokers bb) c b in
        let out = collect_brokers cl bb (cl.range cache.broker_refs) cache.broker_refs m acc in
        let done : (js : List Ingress) → out.2 ≡ ok js → BrokersDone cl m₀ (visits c b) acc js =
          λ js e. rw (cached-broker_refs bb c b) at (
            collect_brokers-BrokersDone cl r bb (cl.range cache.broker_refs) cache.broker_refs m₀ m
              acc js q e) in
        elim (Result-cases out.2) [
          | inl (js, e) ↦ done is (e ∙ (rw (e, class_step) at h))
          | inr (x, e) ↦ absurd (err-ne-ok (rw (e, class_step) at h))
        ]

    -- On every path, errors included, the maps lose only what is gone.
    pub collect_classes-pruned :
        (classes : List Text) (b₀ b : Dict BrokerBindingCache) (m₀ m : Dict TriggerBrokerCache)
        (acc : List Ingress)
        → BrokersPruned cl b₀ b
        → TriggersPruned cl m₀ m
        → BrokersPruned cl b₀ (collect_classes cl bb classes b m acc).0
          × TriggersPruned cl m₀ (collect_classes cl bb classes b m acc).1
    unfolding collect_classes
    collect_classes-pruned [] b₀ b m₀ m acc p q = (p, q)
    collect_classes-pruned (c ∷ rest) b₀ b m₀ m acc p q =
        let out = class_step cl bb c b m acc in
        let p' : BrokersPruned cl b₀ out.0 =
          λ j. Prunes-trans (broker_gone cl) (p j) (class_step-BrokersPruned c b m acc j) in
        let q' : TriggersPruned cl m₀ out.1 = class_step-TriggersPruned c b m₀ m acc q in
        elim (Result-cases out.2) [
          | inl (js, e) ↦
              rw (e, collect_classes) (collect_classes-pruned rest b₀ out.0 m₀ out.1 js p' q')
          | inr (x, e) ↦ rw (e, collect_classes) (p', q')
        ]

    pub collect_classes-ClassesDone :
        (classes : List Text) (b₀ b : Dict BrokerBindingCache) (m₀ m : Dict TriggerBrokerCache)
        (acc is : List Ingress)
        → BrokersPruned cl b₀ b
        → TriggersPruned cl m₀ m
        → (collect_classes cl bb classes b m acc).2 ≡ ok is
        → ClassesDone cl b₀ m₀ classes acc is
    unfolding collect_classes
    collect_classes-ClassesDone [] b₀ b m₀ m acc is p q h =
        subst (ClassesDone cl b₀ m₀ [] acc) (ok-injective h) (record {
          sound = λ i k. inl k;
          kept = λ i k. k;
          complete = λ x br (c, at, _) _. absurd at;
        })
    collect_classes-ClassesDone (c ∷ rest) b₀ b m₀ m acc is p q h =
        let out = class_step cl bb c b m acc in
        elim (Result-cases out.2) [
          | inl (js, e) ↦
              ClassesDone-cons b₀ b m₀ c rest acc js is p
                (class_step-BrokersDone c b m₀ m acc js q e)
                (collect_classes-ClassesDone rest b₀ out.0 m₀ out.1 js is
                  (λ j. Prunes-trans (broker_gone cl) (p j) (class_step-BrokersPruned c b m acc j))
                  (class_step-TriggersPruned c b m₀ m acc q) (rw (e, collect_classes) at h))
          | inr (x, e) ↦ absurd (err-ne-ok (rw (e, collect_classes) at h))
        ]
