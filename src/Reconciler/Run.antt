-- ===== src/Reconciler/Run.antt =====
-- `Reconcile` of the generated reconcilers, and the state that it works with (state.go).
pub mod Laws
pub mod Stored
pub mod Leading
use k_mesh.Base.{
  Bool, true, false, not, ◌&&◌, Option, none, some, List, [], ◌∷◌, ◌++◌, if◌then◌else◌,
}
use k_mesh.Base.Text.{Text, text}
use k_mesh.Base.Result.{Err, wrap, is_not_found, Result, ok, err}
use k_mesh.Machinery.StringSet.{StringSet}
use k_mesh.Reconciler.{
  Resource, Client, World, Impl, Event, plain_event, wrapped_event, skip_key, requeue_key,
  error_event, record_event,
}
use k_mesh.Reconciler.Finalizers.{is_some, set_finalizer_if_finalizer, clear_finalizer}
use k_mesh.Reconciler.Status.{update_status}

-- `state`: what one run knows of its key.
pub record State : Type 0 where
  pub namespace : Text
  pub name : Text
  pub is_observer : Bool
  pub is_leader : Bool

pub data Method : Type 0 where
  do_reconcile_kind do_finalize_kind do_observe_kind unknown : Method

-- `isNotLeaderNorObserver`
unfoldable pub is_not_leader_nor_observer : State → Bool
is_not_leader_nor_observer s = not s.is_leader && not s.is_observer

-- A stage of the run ends it with an error, or hands on the resource and the event.
pub data Stage {R : Resource} (C : Client R) : Type 0 where
  failed : World C → Event → Stage C
  passed : World C → R.Object → Option Event → Stage C

module _ (S : StringSet) {R : Resource} {C : Client R} (im : Impl C) where
  -- `newState`
  unfoldable pub new_state : Text → Result State
  new_state key = elim (im.split_key key) [
    | err e ↦ err e
    | ok (namespace, name) ↦ ok (record {
      namespace = namespace;
      name = name;
      is_observer = is_some im.observe_kind;
      is_leader = im.is_leader_for namespace name;
    })
  ]

  -- `reconcileMethodFor`
  unfoldable pub reconcile_method_for : State → R.Object → Method
  reconcile_method_for s o =
      if (R.meta o).deleted
      then if s.is_leader && is_some im.finalize_kind then do_finalize_kind else unknown
      else if s.is_leader
      then do_reconcile_kind
      else if s.is_observer
      then do_observe_kind
      else unknown

  -- A call of the business logic that may not be there.
  abbrev call :
      Option (R.Object → World C → World C × R.Object × Option Event)
      → R.Object
      → World C
      → World C × R.Object × Option Event
  call none o w = (w, o, none)
  call (some f) o w = f o w

  -- The three cases of the switch on the method, `none` for the error where one ends the run.
  reconcile_stage : R.Object → World C → Stage C
  reconcile_stage o w =
      let (w₁, r) = set_finalizer_if_finalizer S im o w in
      elim r [
        | err e ↦ failed w₁ (error_event (wrap (text "failed to set finalizers") e))
        | ok resource ↦
            let ready = if im.skip_status_updates then resource else im.pre_process resource in
            let (w₂, done, event) = im.reconcile_kind ready w₁ in
            passed w₂ (if im.skip_status_updates then done else im.post_process done o) event
      ]

  finalize_stage : R.Object → World C → Stage C
  finalize_stage o w =
      let (w₁, done, event) = call im.finalize_kind o w in
      let (w₂, r) = clear_finalizer S im done event w₁ in
      elim r [
        | err e ↦ failed w₂ (error_event (wrap (text "failed to clear finalizers") e))
        | ok resource ↦ passed w₂ resource event
      ]

  observe_stage : R.Object → World C → Stage C
  observe_stage o w = let (w₁, done, event) = call im.observe_kind o w in passed w₁ done event

  run_method : Method → R.Object → World C → Stage C
  run_method do_reconcile_kind o w = reconcile_stage o w
  run_method do_finalize_kind o w = finalize_stage o w
  run_method do_observe_kind o w = observe_stage o w
  run_method unknown o w = passed w o none

  -- Reporting of the event, and what is returned for it.
  unfoldable pub report : Option Event → World C → World C × Option Event
  report none w = (w, none)
  report (some (plain_event e)) w = (record_event e.event_type e.reason w, none)
  report (some (wrapped_event e)) w = (record_event e.event_type e.reason w, some (wrapped_event e))
  report (some skip_key) w = (w, some skip_key)
  report (some requeue_key) w = (w, some requeue_key)
  report (some (error_event e)) w =
      (record_event (text "Warning") (text "InternalError") w, some (error_event e))

  -- Whether the status is to be written.
  abbrev pub must_update : State → R.Object → R.Object → Bool
  must_update s original resource =
      not im.skip_status_updates
      && (not (R.same_status (R.status original) (R.status resource)) && s.is_leader)

  -- From "Synchronize the status" on.
  unfoldable pub finish :
      State → R.Object → R.Object → Option Event → World C → World C × Option Event
  finish s original resource event w = elim (must_update s original resource) [
    | false ↦ report event w
    | true ↦
        let (w', e) = update_status im original resource w in
        elim e [
          | some x ↦ (record_event (text "Warning") (text "UpdateFailed") w', some (error_event x))
          | none ↦ report event w'
        ]
  ]

  -- The run on a resource that the lister has found.
  process : State → R.Object → World C → World C × Option Event
  process s original w = elim (run_method (reconcile_method_for s original) original w) [
    | failed w' e ↦ (w', some e)
    | passed w' resource event ↦ finish s original resource event w'
  ]

  deleted : State → World C → World C × Option Event
  deleted s w = elim im.observe_deletion [
    | none ↦ (w, none)
    | some observe ↦ observe s.namespace s.name w
  ]

  run_state : State → World C → World C × Option Event
  run_state s w =
      if is_not_leader_nor_observer s
      then (w, some skip_key)
      else elim (C.lister_get s.namespace s.name) [
        | err e ↦ if is_not_found e then deleted s w else (w, some (error_event e))
        | ok original ↦ process s original w
      ]

  -- `Reconcile`
  unfoldable pub reconcile : Text → World C → World C × Option Event
  unfolding run_state process run_method reconcile_stage finalize_stage observe_stage finish deleted
      new_state reconcile_method_for is_not_leader_nor_observer report
  reconcile key w = elim (new_state key) [ err e ↦ (w, none) | ok s ↦ run_state s w ]
