-- ===== src/Reconciler/Run/Leading.antt =====
-- A leader's run on a resource that is not deleted and has no finalizer of this reconciler.
use k_mesh.Base.{
  ◌≡◌, ◌∙◌, subst, sym, inl, inr, true, false, Option, none, some, Bool-cases, Option-cases,
}
use k_mesh.Base.Text.{Text}
use k_mesh.Base.Result.{Err, ok}
use k_mesh.Machinery.StringSet.{StringSet}
use k_mesh.Reconciler.{Resource, Client, World, Impl, Event, error_event}
use k_mesh.Reconciler.Finalizers.{is_some, set_finalizer_if_finalizer}
use k_mesh.Reconciler.Status.{update_status}
use k_mesh.Reconciler.Status.Laws.{RetriesConflicts}
use k_mesh.Reconciler.Status.Kept.{Keeps, update_status-Keeps}
use k_mesh.Reconciler.Run.{
  State, passed, do_reconcile_kind, reconcile, run_state, process, run_method, reconcile_stage,
  reconcile_method_for, is_not_leader_nor_observer, new_state, finish, must_update, report,
}
use k_mesh.Reconciler.Run.Laws.{report-server}

module _ (S : StringSet) {R : Resource} {C : Client R} (im : Impl C) where
  -- The state of a leader's run.
  abbrev pub leading_state : Text → Text → State
  leading_state namespace name = record {
    namespace = namespace;
    name = name;
    is_observer = is_some im.observe_kind;
    is_leader = im.is_leader_for namespace name;
  }

  reconcile_stage-passed :
      (original done : R.Object) (event : Option Event) (w w' : World C)
      → im.finalize_kind ≡ none
      → im.skip_status_updates ≡ false
      → im.reconcile_kind (im.pre_process original) w ≡ (w', done, event)
      → reconcile_stage S im original w ≡ passed w' (im.post_process done original) event
  unfolding reconcile_stage set_finalizer_if_finalizer
  reconcile_stage-passed original done event w w' f u k =
      simp (f, u, k, reconcile_stage, set_finalizer_if_finalizer)

  process-finish :
      (s : State) (original done : R.Object) (event : Option Event) (w w' : World C)
      → reconcile_method_for S im s original ≡ do_reconcile_kind
      → reconcile_stage S im original w ≡ passed w' done event
      → process S im s original w ≡ finish S im s original done event w'
  unfolding process run_method
  process-finish s original done event w w' m e = rw (m, e, process, run_method)

  leading_method :
      (s : State) (original : R.Object)
      → s.is_leader ≡ true
      → (R.meta original).deleted ≡ false
      → reconcile_method_for S im s original ≡ do_reconcile_kind
  unfolding reconcile_method_for
  leading_method s original l d = rw (l, d)

  run_state-process :
      (s : State) (original : R.Object) (w : World C)
      → s.is_leader ≡ true
      → C.lister_get s.namespace s.name ≡ ok original
      → run_state S im s w ≡ process S im s original w
  unfolding run_state is_not_leader_nor_observer
  run_state-process s original w l g = simp (l, g, run_state, is_not_leader_nor_observer)

  -- The run is one call of `ReconcileKind` between its preparations and the update of the status.
  pub reconcile-finish :
      (key namespace name : Text) (original done : R.Object) (event : Option Event) (w w' : World C)
      → im.split_key key ≡ ok (namespace, name)
      → im.is_leader_for namespace name ≡ true
      → C.lister_get namespace name ≡ ok original
      → (R.meta original).deleted ≡ false
      → im.finalize_kind ≡ none
      → im.skip_status_updates ≡ false
      → im.reconcile_kind (im.pre_process original) w ≡ (w', done, event)
      → reconcile S im key w
        ≡ finish S im
            (leading_state namespace name)
            original
            (im.post_process done original)
            event
            w'
  unfolding reconcile new_state
  reconcile-finish key namespace name original done event w w' e l g d f u k =
      let s = leading_state namespace name in
      let at_state : reconcile S im key w ≡ run_state S im s w = rw (e, reconcile, new_state) in
      at_state
      ∙ run_state-process s original w l g
      ∙ process-finish s original (im.post_process done original) event w w'
          (leading_method s original l d) (reconcile_stage-passed original done event w w' f u k)

  module _ (s : State) (original resource : R.Object) (w : World C) where
    -- A run that ends without an error had none from the business logic.
    pub finish-ne-none :
        (x : Err) → ¬ ((finish S im s original resource (some (error_event x)) w).1 ≡ none)
    unfolding finish report
    finish-ne-none x h = elim (Bool-cases (must_update S im s original resource)) [
      | inr e ↦ cc (rw (e, finish) at h)
      | inl e ↦ elim (Option-cases (update_status im original resource w).1) [
        | inl f ↦ cc (rw (e, f, finish) at h)
        | inr (y, f) ↦ cc (rw (e, f, finish) at h)
      ]
    ]

    pub finish-Keeps :
        {P : C.Server → Type 0} (event : Option Event)
        → Keeps C P
        → RetriesConflicts im
        → P w.server
        → P (finish S im s original resource event w).0.server
    unfolding finish
    finish-Keeps {P} event K r h = elim (Bool-cases (must_update S im s original resource)) [
      | inr e ↦ rw (e, finish) (subst P (sym (report-server S im event w)) h)
      | inl e ↦
          let h' = update_status-Keeps K resource im original w r h in
          let w' = (update_status im original resource w).0 in
          elim (Option-cases (update_status im original resource w).1) [
            | inl f ↦ rw (e, f, finish) (subst P (sym (report-server S im event w')) h')
            | inr (y, f) ↦ rw (e, f, finish) h'
          ]
    ]
