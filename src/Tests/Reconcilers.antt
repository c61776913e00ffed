-- ===== src/Tests/Reconcilers.antt =====
-- The reconcilers of a broker binding, against a server that holds one binding.
use k_mesh.Base.{
  inl, ◌≡◌, ◌≢◌, ◌↔◌, refl, Bool, true, false, ◌&&◌, Option, none, some, [], ◌∷◌, arith, ◌==◌,
  if◌then◌else◌, In,
}
use k_mesh.Base.Text.{Text, text, text_eq, text_eq_iff}
use k_mesh.Base.Result.{not_found, Result, ok, err}
use k_mesh.Api.{BrokerBinding, BrokerBindingStatus}
use k_mesh.Reconciler.{Resource, Client, World, Impl, Event, error_event}
use k_mesh.Reconciler.Finalizers.{clear_finalizer}
use k_mesh.Reconciler.Finalizers.Laws.{finalizers_after, filtered_finalizers_lem}
use k_mesh.Reconciler.Status.{update_status}
use k_mesh.Reconciler.Run.{State, reconcile}
use k_mesh.Reconciler.Run.Laws.{ObservesOnly, reconcile-server_follower}
use k_mesh.Reconciler.Kinds.{binding_resource, binding_finalizer}
use k_mesh.Reconciler.Finalizers.Kept.{KeepsFinalizer, clear_finalizer-KeepsFinalizer}
use k_mesh.Tests.Machines.{sets, sets_lawful}
use k_mesh.Tests.Cluster.{binding}

abbrev same_generation : BrokerBindingStatus → BrokerBindingStatus → Bool
same_generation a b = a.status.observed_generation == b.status.observed_generation

abbrev bindings : Resource
bindings = binding_resource same_generation

abbrev pub is_at : Text → Text → BrokerBinding → Bool
is_at ns name o = text_eq o.meta.namespace ns && text_eq o.meta.name name

abbrev pub found : Text → Text → BrokerBinding → BrokerBinding × Result BrokerBinding
found ns name o = (o, if is_at ns name o then ok o else err (not_found name))

abbrev pub stored_status : BrokerBinding → Text → Text → Option BrokerBindingStatus
stored_status o ns name = if is_at ns name o then some o.status else none

abbrev client : Client bindings
client = record {
  Server = BrokerBinding;
  lister_get = λ ns name. ok binding;
  get = found;
  update_status = λ o s. (o, none);
  patch_finalizers = λ ns name fs version s.
      let o = record s { meta = record (s.meta) { finalizers = fs } } in (o, ok o);
}

pub stored_status-found :
    (ns name : Text) (s t o : BrokerBinding)
    → found ns name s ≡ (t, ok o)
    → (stored_status t ns name ≡ some o.status) × (o.meta.namespace ≡ ns) × (o.meta.name ≡ name)
stored_status-found ns name s t o h =
    ground (arith, text_eq_iff s.meta.namespace ns, text_eq_iff s.meta.name name)

-- A replica that is not the leader; its logic writes a binding without finalizers.
abbrev follower : Impl client
follower = record {
  reconcile_kind = λ o w. (record w { server = o }, o, none);
  finalize_kind = none;
  observe_kind = none;
  observe_deletion = none;
  finalizer_name = binding_finalizer;
  skip_status_updates = false;
  is_leader_for = λ ns name. false;
  split_key = λ key. ok (text "ns", key);
  pre_process = λ o. o;
  post_process = λ o original. o;
  retry = λ f w. f 0 w;
}

no_observers : ObservesOnly sets follower
no_observers = record { observe = λ f o w h. cc h; observe_deletion = λ f ns name w h. cc h }

abbrev served : World client
served = record { server = binding; recorded = [] }

reconcile-server_follower_example :
    (reconcile sets follower (text "binding") served).0.server ≡ binding
reconcile-server_follower_example =
    reconcile-server_follower sets follower (text "binding") (text "ns") (text "binding") served
      no_observers refl refl

-- The binding with the status of a later generation.
abbrev desired : BrokerBinding
desired = record binding {
  status = record { status = record { observed_generation = 2; conditions = [] } };
}

filtered_finalizers_lem_example :
    (In binding_finalizer (
        finalizers_after sets sets_lawful binding_finalizer
          (text "other" ∷ [])
          (binding_finalizer ∷ []))
      ↔ In binding_finalizer (binding_finalizer ∷ []))
    × ((x : Text)
        → x ≢ binding_finalizer
        → In x (
            finalizers_after sets sets_lawful binding_finalizer
              (text "other" ∷ [])
              (binding_finalizer ∷ []))
          ↔ In x (text "other" ∷ []))
filtered_finalizers_lem_example =
    filtered_finalizers_lem sets sets_lawful binding_finalizer (text "other" ∷ [])
      (binding_finalizer ∷ [])

-- The leader's replica, with a finalization.
abbrev leader : Impl client
leader = record follower {
  finalize_kind = some (λ o w. (w, o, none));
  is_leader_for = λ ns name. true;
}

abbrev leading : State
leading = record {
  namespace = text "ns";
  name = text "binding";
  is_observer = false;
  is_leader = true;
}

-- A deleted binding that has the finalizer.
abbrev dying : BrokerBinding
dying = record binding {
  meta = record (binding.meta) { finalizers = binding_finalizer ∷ []; deleted = true };
}

abbrev failure_event : Option Event
failure_event = some (error_event (not_found []))

clear_finalizer-KeepsFinalizer_example :
    KeepsFinalizer sets sets_lawful leader
      (text "ns")
      (text "binding")
      served
      (clear_finalizer sets leader dying failure_event served).0
clear_finalizer-KeepsFinalizer_example =
    clear_finalizer-KeepsFinalizer sets sets_lawful leader dying failure_event served (λ fs. refl)
      (inl refl) (λ ended. ended)
