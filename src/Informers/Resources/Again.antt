-- ===== src/Informers/Resources/Again.antt =====
-- The informer of a resource is the one that its kind has.
use k_mesh.Base.{ℕ, ◌≡◌, subst, refl, inl, inr, some, List, Option-cases}
use k_mesh.Base.Text.{Text}
use k_mesh.Base.Dict.{Dict}
use k_mesh.Clientset.{GroupVersionResource}
use k_mesh.Informers.{Factory, informer_for}
use k_mesh.Informers.Steps.{RangesOver, Steps}
use k_mesh.Informers.Runs.{informer_for-informer_for}
use k_mesh.Informers.Resources.{type_of_resource, for_resource}

module _ {Tweak : Type 0} (order : Dict ℕ → List (Text × ℕ)) (r : RangesOver order) where
  for_resource-informer_for :
      (res : GroupVersionResource) (t : Text) (f : Factory Tweak)
      → type_of_resource res ≡ some t
      → (for_resource res f).0 ≡ (informer_for t f).0
  unfolding for_resource
  for_resource-informer_for res t f e = rw (e, for_resource) refl

  -- Asked again for a resource, whatever was requested or started in between, by resource or by
  -- type, the factory answers as before, with the same informer or the same error, and stays as it is.
  pub for_resource-for_resource :
      (res : GroupVersionResource) (f g : Factory Tweak)
      → Steps order (for_resource res f).0 g
      → for_resource res g ≡ (g, (for_resource res f).1)
  unfolding for_resource
  for_resource-for_resource res f g s = elim (Option-cases (type_of_resource res)) [
    | inl e ↦ rw (e, for_resource)
    | inr (t, e) ↦
        let same =
          informer_for-informer_for order r t f g
            (subst (λ h. Steps order h g) (for_resource-informer_for res t f e) s) in
        rw (e, for_resource, same)
  ]
