-- ===== src/Reconciler/Finalizers/Kept.antt =====
-- `clearFinalizer` after a finalization that did not end cleanly.
use k_mesh.Base.{
  ◌≡◌, refl, sym, subst, ◌⊎◌, inl, inr, false, Option, none, some, List, [], ◌∷◌, ◌++◌, In, In-last,
  Option-cases, Bool-cases,
}
use k_mesh.Base.Text.{Text, text, text_eq, text_eq_iff}
use k_mesh.Base.Result.{Result-cases}
use k_mesh.Machinery.StringSet.{StringSet}
use k_mesh.Machinery.StringSet
use k_mesh.Reconciler.{
  Resource, Client, World, Impl, Event, plain_event, wrapped_event, skip_key, requeue_key,
  error_event,
}
use k_mesh.Reconciler.Finalizers.{
  is_clean, filtered_finalizers, update_finalizers_filtered, clear_finalizer,
}

-- `FinalizeKind` returned `nil`, or an event of type Normal, wrapped or not.
abbrev pub EndsNormally : Option Event → Type 0
EndsNormally none = Unit
EndsNormally (some (plain_event e)) = e.event_type ≡ text "Normal"
EndsNormally (some (wrapped_event e)) = e.event_type ≡ text "Normal"
EndsNormally (some _) = ⊥

not_same : (a b : Text) → ¬ (a ≡ b) → text_eq a b ≡ false
not_same a b h = elim (Bool-cases (text_eq a b)) [
  | inl e ↦ absurd (h ((text_eq_iff a b).0 e))
  | inr e ↦ e
]

is_clean-EndsNormally : (event : Option Event) → ¬ EndsNormally event → is_clean event ≡ false
unfolding is_clean
is_clean-EndsNormally none h = absurd (h tt)
is_clean-EndsNormally (some (plain_event e)) h = not_same e.event_type (text "Normal") h
is_clean-EndsNormally (some (wrapped_event e)) h = not_same e.event_type (text "Normal") h
is_clean-EndsNormally (some skip_key) h = refl
is_clean-EndsNormally (some requeue_key) h = refl
is_clean-EndsNormally (some (error_event e)) h = refl

module _ (S : StringSet) (L : StringSet.IsLawful S) {R : Resource} {C : Client R}
    (im : Impl C) where
  -- The server is as it was, or has been given one patch, with the reconciler's finalizer in it.
  abbrev pub KeepsFinalizer : Text → Text → World C → World C → Type 0
  KeepsFinalizer ns name w w' =
      (w'.server ≡ w.server)
      ⊎ ((fs : List Text) × (version : Text) × In im.finalizer_name fs
          × (w'.server ≡ (C.patch_finalizers ns name fs version w.server).0))

  desired_filtered :
      (existing desired : List Text)
      → In im.finalizer_name desired
      → (filtered_finalizers S im.finalizer_name existing desired ≡ none)
        ⊎ (filtered_finalizers S im.finalizer_name existing desired
            ≡ some (existing ++ (im.finalizer_name ∷ [])))
  unfolding filtered_finalizers
  desired_filtered existing desired h =
      let d = (L.has-new_string im.finalizer_name desired).1 h in
      elim (Bool-cases (S.has im.finalizer_name (S.new_string existing))) [
        | inl e ↦ inl (rw (d, e, filtered_finalizers))
        | inr e ↦ inr (rw (d, e, filtered_finalizers))
      ]

  update-KeepsFinalizer :
      (o : R.Object) (w : World C)
      → In im.finalizer_name (R.meta o).finalizers
      → KeepsFinalizer
          (R.meta o).namespace
          (R.meta o).name
          w
          (update_finalizers_filtered S im o w).0
  unfolding update_finalizers_filtered
  update-KeepsFinalizer o w h =
      elim (Result-cases (C.lister_get (R.meta o).namespace (R.meta o).name)) [
        | inr (x, e) ↦ inl (rw (e, update_finalizers_filtered))
        | inl (existing, e) ↦
            elim (desired_filtered (R.meta existing).finalizers (R.meta o).finalizers h) [
              | inl n ↦ inl (rw (e, n, update_finalizers_filtered))
              | inr n ↦
                  let fs = (R.meta existing).finalizers ++ (im.finalizer_name ∷ []) in
                  let out =
                    C.patch_finalizers (R.meta o).namespace (R.meta o).name fs
                      (R.meta existing).resource_version w.server in
                  inr (
                    fs,
                    (R.meta existing).resource_version,
                    In-last im.finalizer_name (R.meta existing).finalizers,
                    elim (Result-cases out.1) [
                      | inl (u, f) ↦ rw (e, n, f, update_finalizers_filtered)
                      | inr (x, f) ↦ rw (e, n, f, update_finalizers_filtered)
                    ],
                  )
            ]
      ]

  -- After a finalization that ended with an error or with an event that is not Normal,
  -- the reconciler's finalizer stays: the server is left as it was, or is given one patch of the
  -- resource, and the finalizer is in that patch.
  pub clear_finalizer-KeepsFinalizer :
      (o : R.Object) (event : Option Event) (w : World C)
      → ((fs : List Text) → R.meta (R.with_finalizers fs o) ≡ record (R.meta o) { finalizers = fs })
      → In im.finalizer_name (R.meta o).finalizers
      → ¬ EndsNormally event
      → KeepsFinalizer (R.meta o).namespace (R.meta o).name w (clear_finalizer S im o event w).0
  unfolding clear_finalizer
  clear_finalizer-KeepsFinalizer o event w m h a =
      let c = is_clean-EndsNormally event a in
      elim (Option-cases im.finalize_kind) [
        | inl e ↦ inl (rw (e, clear_finalizer))
        | inr (f, e) ↦ elim (Bool-cases (R.meta o).deleted) [
          | inr d ↦ inl (rw (e, c, d, clear_finalizer))
          | inl d ↦
              let set = S.new_string (R.meta o).finalizers in
              let fs = S.list set in
              let there : In im.finalizer_name fs =
                (L.In-list im.finalizer_name set).1
                  ((L.has-new_string im.finalizer_name (R.meta o).finalizers).1 h) in
              let o' = R.with_finalizers fs o in
              let in' : In im.finalizer_name (R.meta o').finalizers =
                subst (λ x. In im.finalizer_name x.finalizers) (sym (m fs)) there in
              rw (e, c, d, clear_finalizer)
                (subst
                  (λ x.
                    KeepsFinalizer x.namespace x.name w (update_finalizers_filtered S im o' w).0)
                  (m fs) (update-KeepsFinalizer o' w in'))
        ]
      ]
