-- ===== src/Binding/Delivery.antt =====
-- How events (controller.go) and reconciles (brokerbinding.go) work together through the caches.
use mathlib.Core.Option.{some-injective}
use k_mesh.Base.{◌≡◌, sym, ◌∙◌, subst, true, some, List, [], In}
use k_mesh.Base.Text.{Text, text_eq_refl}
use k_mesh.Base.Dict.{lookup}
use k_mesh.Base.Result.{ok}
use k_mesh.Api.{Ingress, BrokerBinding}
use k_mesh.Binding.{Cluster, RangesOver, Broker, Caches}
use k_mesh.Binding.Ingresses.{reconcile_ingresses}
use k_mesh.Binding.Ingresses.Listing.{Lists}
use k_mesh.Binding.Ingresses.Brokers.{IsReadyBroker}
use k_mesh.Binding.Ingresses.Classes.{brokers_at}
use k_mesh.Binding.Ingresses.Growth.{reconcile_ingresses-Has}
use k_mesh.Binding.Listed.{reconcile_ingresses_complete}
use k_mesh.Binding.Reconcile.Classes.{classes_of}
use k_mesh.Binding.Handlers.{
  object, handled, broker_class, broker_filter, brokers_handler, broker_reference,
}
use k_mesh.Binding.Handlers.Laws.{brokers_handler_accepted, handled-injective}

-- After a reconcile of the mesh that lists its ingresses, the filter accepts every broker of the
-- mesh's classes.
pub broker_filter-reconcile_ingresses :
    (cl : Cluster) (bb : BrokerBinding) (uid : Text) (s : Caches) (is : List Ingress) (b : Broker)
    (c : Text)
    → (reconcile_ingresses cl bb uid s).1 ≡ ok is
    → broker_class b ≡ some c
    → In c (classes_of uid s)
    → broker_filter (object b) (reconcile_ingresses cl bb uid s).0 ≡ true
unfolding broker_filter
broker_filter-reconcile_ingresses cl bb uid s is b c h e at =
    rw (e, broker_filter) (reconcile_ingresses-Has cl bb uid s is c h at)

-- A broker whose event was accepted and handled, and which is ready when a mesh of its class is
-- next reconciled, has an ingress in the list: it has the broker's name and address, and its
-- egresses are those of the ready triggers tracked for it.
pub brokers_handler-reconcile_ingresses :
    (cl : Cluster) (bb : BrokerBinding) (uid : Text) (s t : Caches) (is : List Ingress)
    (b now : Broker) (c : Text)
    → RangesOver cl
    → broker_filter (object b) s ≡ true
    → broker_class b ≡ some c
    → brokers_handler b s ≡ handled t []
    → In c (classes_of uid t)
    → IsReadyBroker cl (broker_reference b) now
    → (reconcile_ingresses cl bb uid t).1 ≡ ok is
    → (i : Ingress) × In i is × Lists cl t.tracked_triggers (broker_reference b) now i
brokers_handler-reconcile_ingresses cl bb uid s t is b now c r f e h at ready done =
    let (c', t', e', h', stored) = brokers_handler_accepted b s f in
    let same : c' ≡ c = some-injective _ _ (sym e' ∙ e) in
    let same_caches : t' ≡ t = handled-injective (sym h' ∙ h) in
    let at_class : lookup b.uid (brokers_at c' t'.tracked_brokers) ≡ some (broker_reference b) =
      stored c' b.uid ∙ rw (text_eq_refl c', text_eq_refl b.uid) in
    reconcile_ingresses_complete cl r bb uid t is done (b.uid, broker_reference b) now
      (
        c,
        at,
        subst (λ x. lookup b.uid (brokers_at c x.tracked_brokers) ≡ some (broker_reference b))
            same_caches
            (subst (λ d. lookup b.uid (brokers_at d t'.tracked_brokers) ≡ some (broker_reference b))
              same at_class),
      )
      ready
