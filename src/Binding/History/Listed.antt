-- ===== src/Binding/History/Listed.antt =====
-- What a reconcile lists after a run, by what happened in the run.
use k_mesh.Base.{◌≡◌, some, List, In}
use k_mesh.Base.Text.{Text}
use k_mesh.Base.Result.{ok}
use k_mesh.Api.{KReference, Egress, Ingress, BrokerBinding}
use k_mesh.Machinery.StringSet.{StringSet}
use k_mesh.Machinery.StringSet
use k_mesh.Binding.{Broker, Cluster, RangesOver}
use k_mesh.Binding.Ingresses.{slashed, reconcile_ingresses}
use k_mesh.Binding.Ingresses.Brokers.{IsReadyBroker}
use k_mesh.Binding.Ingresses.Egresses.{ready_egress}
use k_mesh.Binding.Ingresses.Listing.{Lists}
use k_mesh.Binding.Listed.{reconcile_ingresses_sound, reconcile_ingresses_complete}
use k_mesh.Binding.Events.{System}
use k_mesh.Binding.History.{
  Moment, Run, RangesEach, latest_broker, lasting_broker, latest_trigger, lasting_trigger,
}
use k_mesh.Binding.History.Classes.{IsLearned, Run-classes_of}
use k_mesh.Binding.History.Tracked.{Run-tracked_brokers, Run-tracked_triggers}

-- The ingress of a ready broker after a run. Each egress is of a trigger that is ready and was
-- the last stored for the broker under its UID; a ready trigger that was stored last, and that no
-- reconcile since found missing, has an egress.
pub record ListsAfter (h : List Moment) (cl : Cluster) (bref : KReference) (b : Broker)
    (i : Ingress) : Type 0 where
  pub name : i.name ≡ slashed bref.namespace bref.name
  pub address : i.address ≡ some b.address
  pub sound :
      (e : Egress)
      → In e i.egresses
      → (k : Text) × (t : KReference) × (latest_trigger (slashed bref.namespace bref.name) k h
          ≡ some t)
        × (ready_egress cl (k, t) ≡ some e)
  pub complete :
      (k : Text) (t : KReference) (e : Egress)
      → lasting_trigger (slashed bref.namespace bref.name) k h ≡ some t
      → ready_egress cl (k, t) ≡ some e
      → In e i.egresses

module _ (S : StringSet) (h : List Moment) (x : System) (cl : Cluster) (bb : BrokerBinding)
    (uid : Text) (is : List Ingress) where
  Lists-ListsAfter :
      (bref : KReference) (b : Broker) (i : Ingress)
      → Run S h x
      → RangesEach h
      → Lists cl x.caches.tracked_triggers bref b i
      → ListsAfter h cl bref b i
  Lists-ListsAfter bref b i r g l =
      let key = slashed bref.namespace bref.name in
      record {
        name = l.name;
        address = l.address;
        sound = λ e at.
            let (k, t, q, w) = l.sound e at in
            (k, t, (Run-tracked_triggers S h x key k r g).at_most t q, w);
        complete =
            λ k t e q w. l.complete k t e ((Run-tracked_triggers S h x key k r g).at_least t q) w;
      }

  -- When a reconcile after any run returns a list of ingresses, each of them belongs to a broker
  -- that is ready, and which a handler of the run was the last to store under its UID for a
  -- class of a binding that the run reconciled for the mesh. The ingress has that broker's name
  -- and address, and the egresses of its ready triggers.
  pub Run-reconcile_ingresses_sound :
      StringSet.IsLawful S
      → Run S h x
      → RangesEach h
      → RangesOver cl
      → (reconcile_ingresses cl bb uid x.caches).1 ≡ ok is
      → (i : Ingress) → In i is
      → (c : Text) × (k : Text) × (bref : KReference) × (b : Broker) × IsLearned h uid c
        × (latest_broker c k h ≡ some bref)
        × IsReadyBroker cl bref b
        × ListsAfter h cl bref b i
  Run-reconcile_ingresses_sound L r g v done i at =
      let ((k, bref), b, (c, known, q), ready, l) =
        reconcile_ingresses_sound cl v bb uid x.caches is done i at in
      (
        c,
        k,
        bref,
        b,
        (Run-classes_of S h x uid c L r).0 known,
        (Run-tracked_brokers S h x c k r g).at_most bref q,
        ready,
        Lists-ListsAfter bref b i r g l,
      )

  -- A broker that was stored by a handler of the run for a class that the run learned for the
  -- mesh, last of those with its UID, that no reconcile since found missing, and that is ready
  -- now, has an ingress in the list, whatever events and reconciles came between.
  pub Run-reconcile_ingresses_complete :
      (c k : Text) (bref : KReference) (b : Broker)
      → StringSet.IsLawful S
      → Run S h x
      → RangesEach h
      → RangesOver cl
      → (reconcile_ingresses cl bb uid x.caches).1 ≡ ok is
      → IsLearned h uid c
      → lasting_broker c k h ≡ some bref
      → IsReadyBroker cl bref b
      → (i : Ingress) × In i is × ListsAfter h cl bref b i
  Run-reconcile_ingresses_complete c k bref b L r g v done known q ready =
      let (i, at, l) =
        reconcile_ingresses_complete cl v bb uid x.caches is done (k, bref) b
          (
            c,
            (Run-classes_of S h x uid c L r).1 known,
            (Run-tracked_brokers S h x c k r g).at_least bref q,
          )
          ready in
      (i, at, Lists-ListsAfter bref b i r g l)
