-- ===== src/Binding/Reconcile/Classes.antt =====
-- The first critical section of `reconcileKMesh`: the classes known for a mesh.
use k_mesh.Base.{
  ◌≡◌, ◌≢◌, refl, ◌↔◌, ◌⊎◌, inl, inr, List, [], arith, if◌then◌else◌, In, Option-cases,
}
use k_mesh.Base.Text.{Text, text_eq, text_eq_iff, text_eq_refl}
use k_mesh.Base.Dict.{lookup, lookup-insert}
use k_mesh.Machinery.StringSet.{StringSet}
use k_mesh.Machinery.StringSet
use k_mesh.Binding.{Caches}
use k_mesh.Binding.Ingresses.{cached}
use k_mesh.Binding.Reconcile.{joined_classes, cache_classes}

-- The classes known for a mesh.
abbrev pub classes_of : Text → Caches → List Text
classes_of uid s = cached [] uid s.kmesh_cache

module _ (S : StringSet) (uid : Text) (classes : List Text) (s : Caches) where
  classes_of-cache_classes :
      (other : Text)
      → classes_of other (cache_classes S uid classes s) ≡ (
          if text_eq other uid
          then joined_classes S classes (lookup uid s.kmesh_cache)
          else classes_of other s)
  unfolding cache_classes
  classes_of-cache_classes other = ground (
    arith,
    lookup-insert other uid (joined_classes S classes (lookup uid s.kmesh_cache)) s.kmesh_cache,
  )

  In-joined_classes :
      StringSet.IsLawful S
      → (c : Text)
      → In c (joined_classes S classes (lookup uid s.kmesh_cache))
        ↔ (In c classes ⊎ In c (classes_of uid s))
  In-joined_classes L c = elim (Option-cases (lookup uid s.kmesh_cache)) [
    | inl e ↦ rw (e, joined_classes, cached) (inl, λ h. elim h [ inl k ↦ k | inr n ↦ absurd n ])
    | inr (known, e) ↦
        let set = S.insert classes (S.new_string known) in
        rw (e, joined_classes, cached)
          (
            λ h. elim ((L.has-insert c classes (S.new_string known)).0 ((L.In-list c set).0 h)) [
              | inl k ↦ inl k
              | inr k ↦ inr ((L.has-new_string c known).0 k)
            ],
            λ h. (L.In-list c set).1 (
                (L.has-insert c classes (S.new_string known)).1
                  (elim h [ inl k ↦ inl k | inr k ↦ inr ((L.has-new_string c known).1 k) ])),
          )
  ]

  -- The classes known for the mesh become those of before joined with the binding's; those of
  -- every other mesh stay, and so does all that is tracked.
  pub cache_classes_lem :
      StringSet.IsLawful S
      → ((c : Text)
          → In c (classes_of uid (cache_classes S uid classes s))
            ↔ (In c classes ⊎ In c (classes_of uid s)))
        × ((other : Text)
            → other ≢ uid
            → classes_of other (cache_classes S uid classes s) ≡ classes_of other s)
        × ((cache_classes S uid classes s).tracked_brokers ≡ s.tracked_brokers)
        × ((cache_classes S uid classes s).tracked_triggers ≡ s.tracked_triggers)
  unfolding cache_classes
  cache_classes_lem L = (
    λ c. rw (classes_of-cache_classes uid, text_eq_refl uid) (In-joined_classes L c),
    λ other n. ground (arith, classes_of-cache_classes other, text_eq_iff other uid),
    refl,
    refl,
  )
