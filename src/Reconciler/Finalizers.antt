-- ===== src/Reconciler/Finalizers.antt =====
-- `setFinalizerIfFinalizer`, `clearFinalizer` and `updateFinalizersFiltered` of the generated
-- reconcilers.
pub mod Laws
pub mod Kept
use k_mesh.Base.{Bool, true, false, Option, none, some, List, [], ◌∷◌, ◌++◌, if◌then◌else◌}
use k_mesh.Base.Text.{Text, text, text_eq}
use k_mesh.Base.Result.{Err, Result, ok, err}
use k_mesh.Machinery.StringSet.{StringSet}
use k_mesh.Reconciler.{
  Resource, Client, World, Impl, Event, plain_event, wrapped_event, skip_key, requeue_key,
  error_event, ReconcilerEvent, record_event,
}

abbrev pub is_some {ℓ} : {A : Type ℓ} → Option A → Bool
is_some none = false
is_some (some _) = true

-- The finalizers to write: those of the stored resource, with the one of this reconciler added
-- or removed; `none` where there is nothing to do.
unfoldable pub filtered_finalizers : StringSet → Text → List Text → List Text → Option (List Text)
filtered_finalizers S name existing desired =
    if S.has name (S.new_string desired)
    then if S.has name (S.new_string existing) then none else some (existing ++ (name ∷ []))
    else if S.has name (S.new_string existing)
    then some (S.list (S.delete name (S.new_string existing)))
    else none

-- Whether the outcome of `FinalizeKind` lets the finalizer go: `nil`, or an event of type Normal.
unfoldable pub is_clean : Option Event → Bool
is_clean none = true
is_clean (some (plain_event e)) = text_eq e.event_type (text "Normal")
is_clean (some (wrapped_event e)) = text_eq e.event_type (text "Normal")
is_clean (some skip_key) = false
is_clean (some requeue_key) = false
is_clean (some (error_event e)) = false

module _ (S : StringSet) {R : Resource} {C : Client R} (im : Impl C) where
  unfoldable pub update_finalizers_filtered : R.Object → World C → World C × Result R.Object
  unfolding filtered_finalizers
  update_finalizers_filtered resource w =
      let m = R.meta resource in
      elim (C.lister_get m.namespace m.name) [
        | err e ↦ (w, err e)
        | ok existing ↦
            elim (filtered_finalizers S im.finalizer_name (R.meta existing).finalizers
              m.finalizers) [
                | none ↦ (w, ok resource)
                | some finalizers ↦
                    let (server', r) =
                      C.patch_finalizers m.namespace m.name finalizers
                        (R.meta existing).resource_version w.server in
                    let w' = record w { server = server' } in
                    elim r [
                      | err e ↦
                          (record_event (text "Warning") (text "FinalizerUpdateFailed") w', err e)
                      | ok updated ↦
                          (record_event (text "Normal") (text "FinalizerUpdate") w', ok updated)
                    ]
              ]
      ]

  unfoldable pub set_finalizer_if_finalizer : R.Object → World C → World C × Result R.Object
  set_finalizer_if_finalizer resource w = elim im.finalize_kind [
    | none ↦ (w, ok resource)
    | some fin ↦
        let finalizers = S.new_string (R.meta resource).finalizers in
        let wanted =
          if (R.meta resource).deleted
          then finalizers
          else S.insert (im.finalizer_name ∷ []) finalizers in
        update_finalizers_filtered (R.with_finalizers (S.list wanted) resource) w
  ]

  unfoldable pub clear_finalizer : R.Object → Option Event → World C → World C × Result R.Object
  unfolding is_clean
  clear_finalizer resource event w = elim im.finalize_kind [
    | none ↦ (w, ok resource)
    | some fin ↦
        let finalizers = S.new_string (R.meta resource).finalizers in
        let wanted = if is_clean event then S.delete im.finalizer_name finalizers else finalizers in
        if (R.meta resource).deleted
        then update_finalizers_filtered (R.with_finalizers (S.list wanted) resource) w
        else (w, ok resource)
  ]
