-- ===== src/Reconciler/Finalizers/Laws.antt =====
-- The list of finalizers that `updateFinalizersFiltered` writes.
use k_mesh.Base.{
  ◌≡◌, ◌≢◌, ◌↔◌, refl, inl, inr, true, false, none, some, List, [], ◌∷◌, ◌++◌, In, In-append,
  In-append_left, In-last, Bool-cases,
}
use k_mesh.Base.Text.{Text}
use k_mesh.Machinery.StringSet.{StringSet}
use k_mesh.Machinery.StringSet
use k_mesh.Reconciler.Finalizers.{filtered_finalizers}

module _ (S : StringSet) (L : StringSet.IsLawful S) (name : Text)
    (existing desired : List Text) where
  -- What the patch says of one finalizer: the reconciler's own is there as desired, any other as
  -- it was.
  abbrev pub IsFiltered : List Text → Type 0
  IsFiltered written =
      (In name written ↔ In name desired) × ((x : Text) → x ≢ name → In x written ↔ In x existing)

  added : S.has name (S.new_string desired) ≡ true → IsFiltered (existing ++ (name ∷ []))
  added d = (
    ((λ _. (L.has-new_string name desired).0 d), (λ _. In-last name existing)),
    λ x n. (
      (λ h. elim (In-append x existing (name ∷ []) h) [
        | inl k ↦ k
        | inr k ↦ elim k [ inl e ↦ absurd (n e) | inr no_more ↦ absurd no_more ]
      ]),
      In-append_left x existing (name ∷ []),
    ),
  )

  removed :
      S.has name (S.new_string desired) ≡ false
      → IsFiltered (S.list (S.delete name (S.new_string existing)))
  removed d =
      let set = S.delete name (S.new_string existing) in
      (
        (
          (λ h. absurd (((L.has-delete name name _).0 ((L.In-list name set).0 h)).0 refl)),
          (λ h. absurd (cc ((L.has-new_string name desired).1 h))),
        ),
        λ x n. (
          (λ h.
              (L.has-new_string x existing).0
                ((L.has-delete x name _).0 ((L.In-list x set).0 h)).1),
          (λ h.
              (L.In-list x set).1
                ((L.has-delete x name _).1 (n, (L.has-new_string x existing).1 h))),
        ),
      )

  unchanged : (In name existing ↔ In name desired) → IsFiltered existing
  unchanged same = (same, λ x n. ((λ h. h), (λ h. h)))

  absent : (xs : List Text) → S.has name (S.new_string xs) ≡ false → ¬ (In name xs)
  absent xs d h = cc ((L.has-new_string name xs).1 h)

  present : (xs : List Text) → S.has name (S.new_string xs) ≡ true → In name xs
  present xs d = (L.has-new_string name xs).0 d

  -- The finalizers as they are once the update is done: those written, or the stored ones.
  abbrev pub finalizers_after : List Text
  finalizers_after = elim (filtered_finalizers S name existing desired) [
    | none ↦ existing
    | some written ↦ written
  ]

  -- After an update the reconciler's own finalizer is there exactly if it is desired, and every
  -- other finalizer is there exactly if it was, whether a list is written or none has to be.
  pub filtered_finalizers_lem :
      (In name finalizers_after ↔ In name desired)
      × ((x : Text) → x ≢ name → In x finalizers_after ↔ In x existing)
  unfolding filtered_finalizers
  filtered_finalizers_lem = elim (Bool-cases (S.has name (S.new_string desired))) [
    | inl d ↦ elim (Bool-cases (S.has name (S.new_string existing))) [
      | inl e ↦
          rw (d, e, finalizers_after, filtered_finalizers)
            (unchanged ((λ _. present desired d), (λ _. present existing e)))
      | inr e ↦ rw (d, e, finalizers_after, filtered_finalizers) (added d)
    ]
    | inr d ↦ elim (Bool-cases (S.has name (S.new_string existing))) [
      | inl e ↦ rw (d, e, finalizers_after, filtered_finalizers) (removed d)
      | inr e ↦
          rw (d, e, finalizers_after, filtered_finalizers)
            (unchanged ((λ h. absurd (absent existing e h)), (λ h. absurd (absent desired d h))))
    ]
  ]
