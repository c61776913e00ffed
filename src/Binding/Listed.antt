-- ===== src/Binding/Listed.antt =====
-- What a whole run of `reconcileIngresses` returns, and what it leaves in the caches.
use k_mesh.Base.{◌≡◌, refl, inl, inr, List, [], In}
use k_mesh.Base.Text.{Text}
use k_mesh.Base.Result.{ok}
use k_mesh.Api.{KReference, Ingress, BrokerBinding}
use k_mesh.Binding.{Cluster, RangesOver, Broker, Caches}
use k_mesh.Binding.Pruning.{Prunes-refl}
use k_mesh.Binding.Ingresses.{cached, reconcile_ingresses}
use k_mesh.Binding.Ingresses.Listing.{Lists, TriggersPruned}
use k_mesh.Binding.Ingresses.Brokers.{IsReadyBroker, ListedFrom}
use k_mesh.Binding.Ingresses.Classes.{
  IsTrackedFor, BrokersPruned, ClassesDone, collect_classes-pruned, collect_classes-ClassesDone,
}

module _ (cl : Cluster) (r : RangesOver cl) (bb : BrokerBinding) (uid : Text) (s : Caches) where
  done :
      (is : List Ingress)
      → (reconcile_ingresses cl bb uid s).1 ≡ ok is
      → ClassesDone cl s.tracked_brokers s.tracked_triggers (cached [] uid s.kmesh_cache) [] is
  unfolding reconcile_ingresses
  done is h =
      collect_classes-ClassesDone cl r bb (cached [] uid s.kmesh_cache) s.tracked_brokers
        s.tracked_brokers s.tracked_triggers s.tracked_triggers [] is (λ c. Prunes-refl _ _)
        (λ k. Prunes-refl _ _) h

  -- Every ingress in a returned list belongs to a ready broker that is tracked for a class of
  -- the mesh: it has that broker's name and address, and its egresses are exactly those of the
  -- ready triggers tracked for the broker.
  pub reconcile_ingresses_sound :
      (is : List Ingress)
      → (reconcile_ingresses cl bb uid s).1 ≡ ok is
      → (i : Ingress) → In i is
      → ListedFrom cl s.tracked_triggers
          (IsTrackedFor (cached [] uid s.kmesh_cache) s.tracked_brokers)
          i
  reconcile_ingresses_sound is h i k = elim ((done is h).sound i k) [
    | inl none_yet ↦ absurd none_yet
    | inr from ↦ from
  ]

  -- Every ready broker that is tracked for a class of the mesh has an ingress in a returned
  -- list, with the broker's name and address and with exactly the egresses of its ready triggers.
  pub reconcile_ingresses_complete :
      (is : List Ingress)
      → (reconcile_ingresses cl bb uid s).1 ≡ ok is
      → (x : Text × KReference) (b : Broker)
      → IsTrackedFor (cached [] uid s.kmesh_cache) s.tracked_brokers x
      → IsReadyBroker cl x.1 b
      → (i : Ingress) × In i is × Lists cl s.tracked_triggers x.1 b i
  reconcile_ingresses_complete is h = (done is h).complete

  -- On every path, errors included, the classes of the meshes are left alone, and the tracked
  -- brokers and triggers lose only references that the listers report as not found.
  pub reconcile_ingresses-pruned :
      ((reconcile_ingresses cl bb uid s).0.kmesh_cache ≡ s.kmesh_cache)
      × BrokersPruned cl s.tracked_brokers (reconcile_ingresses cl bb uid s).0.tracked_brokers
      × TriggersPruned cl s.tracked_triggers (reconcile_ingresses cl bb uid s).0.tracked_triggers
  unfolding reconcile_ingresses
  reconcile_ingresses-pruned =
      let (p, q) =
        collect_classes-pruned cl r bb (cached [] uid s.kmesh_cache) s.tracked_brokers
          s.tracked_brokers s.tracked_triggers s.tracked_triggers [] (λ c. Prunes-refl _ _)
          (λ k. Prunes-refl _ _) in
      (refl, p, q)
