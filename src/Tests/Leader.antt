-- ===== src/Tests/Leader.antt =====
-- A leader's run on one broker binding, with a server for its mesh and itself.
use k_mesh.Base.{◌≡◌, refl, sym, ap, Bool, true, false, Option, none, some, [], ◌∷◌}
use k_mesh.Base.Text.{Text, text, text_eq, text_eq_iff, text_eq_refl}
use k_mesh.Base.Dict.{lookup}
use k_mesh.Base.Result.{Err, ok}
use k_mesh.Api.{BrokerBinding, BrokerBindingStatus}
use k_mesh.Api.Lifecycle.{condition_ready, mark_binding_ready}
use k_mesh.Machinery.MeshApi.{MeshApi}
use k_mesh.Binding.Ingresses.{reconcile_ingresses}
use k_mesh.Binding.Reconcile.{Outcome, returned, panicked, cache_classes, reconcile_kind}
use k_mesh.Binding.Reconcile
use k_mesh.Binding.Leader.{Joint, joint_client, kind_world, after_kind, event_of, RunsKind}
use k_mesh.Binding.Leader.Laws.{IsPublishedTo, reconcile-published}
use k_mesh.Reconciler.{Client, World, Impl, stop}
use k_mesh.Reconciler.Finalizers.{set_finalizer_if_finalizer}
use k_mesh.Reconciler.Kinds.{binding_resource, binding_finalizer}
use k_mesh.Reconciler.Status.{update_status}
use k_mesh.Reconciler.Status.Laws.{StoresStatus}
use k_mesh.Reconciler.Run.{reconcile}
use k_mesh.Tests.Cluster.{mesh_ref, mesh, binding, cluster, with_both}
use k_mesh.Tests.Machines.{conditions, conditions_lawful, sets, mesh_api, mesh_api_lawful}
use k_mesh.Tests.Reconcilers.{found, stored_status, stored_status-found}

abbrev ready_of : BrokerBindingStatus → Option Text
ready_of st = conditions.condition condition_ready st.status

abbrev same_option : Option Text → Option Text → Bool
same_option none none = true
same_option none (some t) = false
same_option (some s) none = false
same_option (some s) (some t) = text_eq s t

same_option-eq : (a b : Option Text) → same_option a b ≡ true → a ≡ b
same_option-eq none none h = refl
same_option-eq none (some t) h = cc
same_option-eq (some s) none h = cc
same_option-eq (some s) (some t) h = ap some ((text_eq_iff s t).0 h)

same_option_refl : (a : Option Text) → same_option a a ≡ true
same_option_refl none = refl
same_option_refl (some t) = text_eq_refl t

-- Statuses count as the same if they are as ready.
abbrev same_ready : BrokerBindingStatus → BrokerBindingStatus → Bool
same_ready a b = same_option (ready_of a) (ready_of b)

abbrev api : MeshApi
api = mesh_api mesh

abbrev bindings : Client (binding_resource same_ready)
bindings = record {
  Server = BrokerBinding;
  lister_get = λ ns name. ok binding;
  get = found;
  update_status = λ o s. (o, none);
  patch_finalizers = λ ns name fs version s.
      let o = record s { meta = record (s.meta) { finalizers = fs } } in (o, ok o);
}

abbrev joint : Client (binding_resource same_ready)
joint = joint_client same_ready api bindings

abbrev error_of : Outcome → Option Err
error_of (returned e) = e
error_of panicked = none

abbrev kind : BrokerBinding → World joint → Reconcile.World api × Outcome
kind o w = reconcile_kind conditions sets api cluster (kind_world same_ready api bindings o w)

abbrev leader : Impl joint
leader = record {
  reconcile_kind = λ o w. (
    after_kind same_ready api bindings (kind o w).0 w,
    (kind o w).0.binding,
    event_of same_ready api bindings (error_of (kind o w).1),
  );
  finalize_kind = none;
  observe_kind = none;
  observe_deletion = none;
  finalizer_name = binding_finalizer;
  skip_status_updates = false;
  is_leader_for = λ ns name. true;
  split_key = λ key. ok (text "ns", key);
  pre_process = λ o. o;
  post_process = λ o original. o;
  retry = λ f w. f 0 w;
}

runs_kind : RunsKind same_ready api bindings conditions sets cluster leader
runs_kind = record {
  runs = λ o w e h. simp h;
  finalizes = refl;
  updates = refl;
  pre_meta = λ o. refl;
  pre_spec = λ o. refl;
  post_meta = λ o original. refl;
  post_ready = λ o original h. h;
}

stored_status-joint :
    (o : BrokerBinding) (s t : Joint same_ready api bindings)
    → joint.update_status o s ≡ (t, none)
    → stored_status t.bindings o.meta.namespace o.meta.name ≡ some o.status
stored_status-joint o s t h =
    let same : t.bindings ≡ o = sym (ap (λ z. z.0.bindings) h) in
    rw (same, text_eq_refl o.meta.namespace, text_eq_refl o.meta.name)

joint_stores : StoresStatus joint
joint_stores = record {
  stored = λ s. stored_status s.bindings;
  stored-update_status = stored_status-joint;
  stored-get = λ ns name s t o h.
      stored_status-found ns name s.bindings t.bindings o (ap (λ z. (z.0.bindings, z.1)) h);
  status-with_status = λ st o. refl;
  meta-with_status = λ st o. refl;
  same_status-refl = λ st. same_option_refl (ready_of st);
}

abbrev served : World joint
served = record {
  server = record {
    caches = with_both;
    meshes = (text "ns/mesh", mesh.status) ∷ [];
    bindings = binding;
  };
  recorded = [];
}

reconcile-published_example :
    IsPublishedTo conditions sets api cluster same_ready bindings leader runs_kind binding served
      joint_stores mesh binding.spec
      (reconcile sets leader (text "binding") served).0
unfolding reconcile reconcile_kind reconcile_ingresses cache_classes text_eq lookup update_status
    set_finalizer_if_finalizer mark_binding_ready
reconcile-published_example =
    reconcile-published conditions sets api cluster same_ready bindings leader runs_kind binding
      served joint_stores (text "binding") (text "ns") (text "binding") mesh_ref mesh
      conditions_lawful (mesh_api_lawful mesh) (λ a b h. same_option-eq (ready_of a) (ready_of b) h)
      (λ f w. stop refl) refl refl refl refl refl refl refl refl
