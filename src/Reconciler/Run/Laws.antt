-- ===== src/Reconciler/Run/Laws.antt =====
-- What a run of `Reconcile` promises, whatever the business logic does.
use k_mesh.Base.{
  ◌≡◌, refl, ◌∙◌, ◌⊎◌, inl, inr, false, Option, none, some, Bool-cases, Option-cases, arith,
}
use k_mesh.Base.Text.{Text}
use k_mesh.Base.Result.{ok, Result-cases, is_not_found}
use k_mesh.Machinery.StringSet.{StringSet}
use k_mesh.Reconciler.{
  Resource, Client, World, Impl, Event, plain_event, wrapped_event, skip_key, requeue_key,
  error_event,
}
use k_mesh.Reconciler.Finalizers.{is_some}
use k_mesh.Reconciler.Run.{
  State, do_observe_kind, unknown, new_state, reconcile_method_for, is_not_leader_nor_observer,
  run_method, observe_stage, report, must_update, finish, process, deleted, run_state, reconcile,
  call,
}

module _ (S : StringSet) {R : Resource} {C : Client R} (im : Impl C) where
  -- The parts of the business logic that run without being the leader do not write to the server.
  pub record ObservesOnly : Type 0 where
    pub observe :
        (f : R.Object → World C → World C × R.Object × Option Event) (o : R.Object) (w : World C)
        → im.observe_kind ≡ some f
        → (f o w).0.server ≡ w.server
    pub observe_deletion :
        (f : Text → Text → World C → World C × Option Event) (ns name : Text) (w : World C)
        → im.observe_deletion ≡ some f
        → (f ns name w).0.server ≡ w.server

  pub report-server : (e : Option Event) (w : World C) → (report S im e w).0.server ≡ w.server
  unfolding report
  report-server none w = refl
  report-server (some (plain_event e)) w = refl
  report-server (some (wrapped_event e)) w = refl
  report-server (some skip_key) w = refl
  report-server (some requeue_key) w = refl
  report-server (some (error_event e)) w = refl

  module _ (o : ObservesOnly) (s : State) (follower : s.is_leader ≡ false) where
    finish-server :
        (original resource : R.Object) (event : Option Event) (w : World C)
        → (finish S im s original resource event w).0.server ≡ w.server
    unfolding finish
    finish-server original resource event w =
        let skip : must_update S im s original resource ≡ false = ground arith in
        rw (skip, finish) (report-server event w)

    follower_method :
        (r : R.Object)
        → (reconcile_method_for S im s r ≡ do_observe_kind)
          ⊎ (reconcile_method_for S im s r ≡ unknown)
    unfolding reconcile_method_for
    follower_method r = ground arith

    call-server : (r : R.Object) (w : World C) → (call S im im.observe_kind r w).0.server ≡ w.server
    call-server r w = elim (Option-cases im.observe_kind) [
      | inl e ↦ rw (e, call)
      | inr (f, e) ↦ rw (e, call) (o.observe f r w e)
    ]

    process-server : (r : R.Object) (w : World C) → (process S im s r w).0.server ≡ w.server
    unfolding process run_method observe_stage
    process-server r w = elim (follower_method r) [
      | inl e ↦
          let out = call S im im.observe_kind r w in
          rw (e, process, run_method) (finish-server r out.1 out.2 out.0 ∙ call-server r w)
      | inr e ↦ rw (e, process, run_method) (finish-server r r none w)
    ]

    deleted-server : (w : World C) → (deleted S im s w).0.server ≡ w.server
    unfolding deleted
    deleted-server w = elim (Option-cases im.observe_deletion) [
      | inl e ↦ rw (e, deleted)
      | inr (f, e) ↦ rw (e, deleted) (o.observe_deletion f s.namespace s.name w e)
    ]

    run_state-server : (w : World C) → (run_state S im s w).0.server ≡ w.server
    unfolding run_state
    run_state-server w = elim (Bool-cases (is_not_leader_nor_observer s)) [
      | inl e ↦ rw (e, run_state)
      | inr e ↦ elim (Result-cases (C.lister_get s.namespace s.name)) [
        | inl (r, f) ↦ rw (e, f, run_state) (process-server r w)
        | inr (x, f) ↦ elim (Bool-cases (is_not_found x)) [
          | inl g ↦ rw (e, f, g, run_state) (deleted-server w)
          | inr g ↦ rw (e, f, g, run_state)
        ]
      ]
    ]

  -- A replica that is not the leader for a key leaves the API server as it was: no status is
  -- written and no finalizer, whatever the lister says of the resource, as long as the observing
  -- parts of the business logic write nothing.
  pub reconcile-server_follower :
      (key namespace name : Text) (w : World C)
      → ObservesOnly
      → im.split_key key ≡ ok (namespace, name)
      → im.is_leader_for namespace name ≡ false
      → (reconcile S im key w).0.server ≡ w.server
  unfolding reconcile new_state
  reconcile-server_follower key namespace name w o e f =
      rw (e, reconcile, new_state)
        (run_state-server o
          (record {
            namespace = namespace;
            name = name;
            is_observer = is_some im.observe_kind;
            is_leader = im.is_leader_for namespace name;
          })
          f w)
