-- ===== src/Binding/Reconcile/Laws.antt =====
-- What `ReconcileKind` of the broker-binding reconciler promises.
use k_mesh.Base.{
  ◌≡◌, refl, sym, ap, ◌∙◌, ◌↔◌, ◌⊎◌, inl, inr, Option, none, some, List, arith, Option-cases, subst,
}
use k_mesh.Base.Text.{text}
use k_mesh.Base.Result.{
  Err, Result, ok, err, Result-cases, err-ne-ok, ok-ne-err, err-injective, ok-injective,
}
use k_mesh.Api.{KReference, Ingress, KMesh}
use k_mesh.Api.Lifecycle.{
  ConditionSet, condition_ready, mark_binding_ready, mark_binding_not_ready_with_details,
}
use k_mesh.Api.Lifecycle
use k_mesh.Machinery.StringSet.{StringSet}
use k_mesh.Machinery.MeshApi.{MeshApi}
use k_mesh.Machinery.MeshApi
use k_mesh.Binding.{Caches, Cluster}
use k_mesh.Binding.Ingresses.{reconcile_ingresses}
use k_mesh.Binding.Reconcile.{
  returned, panicked, World, cache_classes, kmesh_after, publish, reconcile_kmesh, reconcile_kind,
  not_ready,
}
use k_mesh.Binding.Reconcile.Classes.{classes_of}

panicked-ne-returned : {o : Option Err} → panicked ≡ returned o → ⊥
panicked-ne-returned h = cc

returned_some-ne-none : {x : Err} → returned (some x) ≡ returned none → ⊥
returned_some-ne-none h = cc

returned-injective : {x y : Err} → returned (some x) ≡ returned (some y) → x ≡ y
returned-injective h = cc

module _ (C : ConditionSet) (S : StringSet) (A : MeshApi) (cl : Cluster) where
  -- The mesh's UID, the caches and the ingresses of the reconcile that `want` leads to.
  abbrev pub ingresses_for : KMesh → World A → Caches × Result (List Ingress)
  ingresses_for kmesh w =
      reconcile_ingresses cl w.binding kmesh.meta.uid
        (cl.before_listing (cache_classes S kmesh.meta.uid w.binding.spec.classes w.caches))

  -- The `Ready` condition of the binding.
  abbrev pub IsReady : World A → Type 0
  IsReady w = C.condition condition_ready w.binding.status.status ≡ some (text "True")

  abbrev pub IsNotReady : World A → Type 0
  IsNotReady w = C.condition condition_ready w.binding.status.status ≡ some (text "False")

  -- What was written where, when the mesh's status was published.
  record IsPublished (kmesh : KMesh) (is : List Ingress) (w w' : World A) : Type 0 where
    patch : A.Patch
    bytes : A.Bytes
    patched : KMesh
    created : A.create_patch kmesh (kmesh_after kmesh is w.caches) ≡ ok patch
    marshalled : A.marshal_json patch ≡ ok bytes
    accepted :
        A.patch_status kmesh.meta.namespace kmesh.meta.name bytes w.server ≡ (w'.server, ok patched)
    kept : w'.binding ≡ w.binding

  publish-IsPublished :
      (want : KReference) (kmesh k : KMesh) (is : List Ingress) (w : World A)
      → (publish C S A cl want kmesh is w).1 ≡ ok k
      → IsPublished kmesh is w (publish C S A cl want kmesh is w).0
  unfolding publish
  publish-IsPublished want kmesh k is w h =
      let after = kmesh_after kmesh is w.caches in
      elim (Result-cases (A.create_patch kmesh after)) [
        | inr (x, e) ↦ absurd (err-ne-ok (rw (e, publish) at h))
        | inl (p, e) ↦ elim (Result-cases (A.marshal_json p)) [
          | inr (x, f) ↦ absurd (err-ne-ok (rw (e, f, publish) at h))
          | inl (bytes, f) ↦
              let out = A.patch_status kmesh.meta.namespace kmesh.meta.name bytes w.server in
              elim (Result-cases out.1) [
                | inr (x, g) ↦ absurd (err-ne-ok (rw (e, f, g, publish) at h))
                | inl (m, g) ↦
                    rw (e, f, g, publish)
                      (record {
                        patch = p;
                        bytes = bytes;
                        patched = m;
                        created = e;
                        marshalled = f;
                        accepted = ap (λ r. (out.0, r)) g;
                        kept = refl;
                      })
              ]
        ]
      ]

  -- A failure either marks the binding not ready, or comes from the listing of the ingresses,
  -- which leaves the binding alone.
  publish-failed :
      Lifecycle.IsLawful C
      → (want : KReference) (kmesh : KMesh) (is : List Ingress) (w : World A) (x : Err)
      → (publish C S A cl want kmesh is w).1 ≡ err x
      → IsNotReady (publish C S A cl want kmesh is w).0
  unfolding publish not_ready mark_binding_not_ready_with_details
  publish-failed L want kmesh is w x h =
      let after = kmesh_after kmesh is w.caches in
      elim (Result-cases (A.create_patch kmesh after)) [
        | inr (y, e) ↦ rw (e, publish) (L.condition-mark_false _ _ _ _)
        | inl (p, e) ↦ elim (Result-cases (A.marshal_json p)) [
          | inr (y, f) ↦ rw (e, f, publish) (L.condition-mark_false _ _ _ _)
          | inl (bytes, f) ↦
              let out = A.patch_status kmesh.meta.namespace kmesh.meta.name bytes w.server in
              elim (Result-cases out.1) [
                | inr (y, g) ↦ rw (e, f, g, publish) (L.condition-mark_false _ _ _ _)
                | inl (m, g) ↦ absurd (ok-ne-err (rw (e, f, g, publish) at h))
              ]
        ]
      ]

  -- The world when the mesh's ingresses are listed and its classes are read for the patch.
  abbrev listed_world : KMesh → World A → World A
  listed_world kmesh w = record w { caches = cl.before_patch (ingresses_for kmesh w).0 }

  reconcile_kmesh-IsPublished :
      (want : KReference) (w : World A) (k : KMesh)
      → (reconcile_kmesh C S A cl want w).1 ≡ ok k
      → (kmesh : KMesh) × (is : List Ingress) × (cl.get_kmesh want.namespace want.name ≡ ok kmesh)
        × ((ingresses_for kmesh w).1 ≡ ok is)
        × IsPublished kmesh is (listed_world kmesh w) (reconcile_kmesh C S A cl want w).0
  unfolding reconcile_kmesh
  reconcile_kmesh-IsPublished want w k h =
      elim (Result-cases (cl.get_kmesh want.namespace want.name)) [
        | inr (x, e) ↦ absurd (err-ne-ok (rw (e, reconcile_kmesh) at h))
        | inl (kmesh, e) ↦ elim (Result-cases (ingresses_for kmesh w).1) [
          | inr (x, f) ↦ absurd (err-ne-ok (rw (e, f, reconcile_kmesh) at h))
          | inl (is, f) ↦ (
            kmesh,
            is,
            e,
            f,
            rw (e, f, reconcile_kmesh)
                (publish-IsPublished want kmesh k is (listed_world kmesh w)
                  (rw (e, f, reconcile_kmesh) at h)),
          )
        ]
      ]

  reconcile_kmesh-failed :
      Lifecycle.IsLawful C
      → (want : KReference) (w : World A) (x : Err) → (reconcile_kmesh C S A cl want w).1 ≡ err x
      → IsNotReady (reconcile_kmesh C S A cl want w).0
        ⊎ ((kmesh : KMesh) × ((ingresses_for kmesh w).1 ≡ err x)
            × ((reconcile_kmesh C S A cl want w).0.binding ≡ w.binding))
  unfolding reconcile_kmesh not_ready mark_binding_not_ready_with_details
  reconcile_kmesh-failed L want w x h =
      elim (Result-cases (cl.get_kmesh want.namespace want.name)) [
        | inr (y, e) ↦ inl (rw (e, reconcile_kmesh) (L.condition-mark_false _ _ _ _))
        | inl (kmesh, e) ↦ elim (Result-cases (ingresses_for kmesh w).1) [
          | inr (y, f) ↦ inr (
            kmesh,
            f ∙ ap err (err-injective (rw (e, f, reconcile_kmesh) at h)),
            rw (e, f, reconcile_kmesh),
          )
          | inl (is, f) ↦ inl (
              rw (e, f, reconcile_kmesh)
                (publish-failed L want kmesh is (listed_world kmesh w) x
                  (rw (e, f, reconcile_kmesh) at h)))
        ]
      ]

  IsPublished-stored :
      MeshApi.IsLawful A
      → (kmesh : KMesh) (is : List Ingress) (w w' : World A) → IsPublished kmesh is w w'
      → A.stored kmesh.meta.namespace kmesh.meta.name w.server ≡ some kmesh.status
      → A.stored kmesh.meta.namespace kmesh.meta.name w'.server
        ≡ some (kmesh_after kmesh is w.caches).status
  IsPublished-stored L kmesh is w w' p h =
      L.stored-patch_status kmesh (kmesh_after kmesh is w.caches) p.patch p.bytes _ _ w.server
        w'.server p.patched p.created p.marshalled h p.accepted

  module _ (w : World A) where
    -- `ReconcileKind` panics exactly on a binding that names no mesh.
    pub reconcile_kind-panicked :
        ((reconcile_kind C S A cl w).1 ≡ panicked) ↔ (w.binding.spec.kmesh ≡ none)
    unfolding reconcile_kind
    reconcile_kind-panicked = ground arith

    -- A reconcile without an error lists the ingresses of the mesh that the binding names and
    -- marks the binding ready; where the server had stored the mesh's status as the lister gave
    -- it, it now stores that status with these ingresses and with the classes known for the mesh when
    -- the patch is made. The listing leaves the classes as they were when it began, which was
    -- after the binding's were joined to the earlier ones.
    pub reconcile_kind_succeeds :
        Lifecycle.IsLawful C
        → MeshApi.IsLawful A
        → (want : KReference) (kmesh : KMesh) → w.binding.spec.kmesh ≡ some want
        → cl.get_kmesh want.namespace want.name ≡ ok kmesh
        → A.stored kmesh.meta.namespace kmesh.meta.name w.server ≡ some kmesh.status
        → (reconcile_kind C S A cl w).1 ≡ returned none
        → (is : List Ingress) × ((ingresses_for kmesh w).1 ≡ ok is)
          × IsReady (reconcile_kind C S A cl w).0
          × (A.stored kmesh.meta.namespace kmesh.meta.name (reconcile_kind C S A cl w).0.server
              ≡ some (record (kmesh.status) {
                broker_classes =
                    classes_of kmesh.meta.uid (cl.before_patch (ingresses_for kmesh w).0);
                ingresses = is;
              }))
          × (classes_of kmesh.meta.uid (ingresses_for kmesh w).0
              ≡ classes_of kmesh.meta.uid (
                  cl.before_listing
                    (cache_classes S kmesh.meta.uid w.binding.spec.classes w.caches)))
    unfolding reconcile_kind mark_binding_ready reconcile_ingresses
    reconcile_kind_succeeds LC LA want kmesh e g st h =
        elim (Result-cases (reconcile_kmesh C S A cl want w).1) [
          | inr (x, f) ↦ absurd (returned_some-ne-none (rw (e, f, reconcile_kind) at h))
          | inl (k, f) ↦
              let (found, is, g', i, p) = reconcile_kmesh-IsPublished want w k f in
              let same : found ≡ kmesh = ok-injective (sym g' ∙ g) in
              let i' = subst (λ m. (ingresses_for m w).1 ≡ ok is) same i in
              let p' =
                subst (λ m. IsPublished m is (listed_world m w) (reconcile_kmesh C S A cl want w).0)
                  same p in
              (
                is,
                i',
                rw (e, f, reconcile_kind) (LC.condition-mark_true _ _),
                simp (e, f, reconcile_kind)
                    (IsPublished-stored LA kmesh is (listed_world kmesh w) _ p' st),
                refl,
              )
        ]

    -- A reconcile that returns an error leaves the binding marked not ready, unless the error is
    -- that of the listing of the ingresses: then it leaves the binding as it was.
    pub reconcile_kind_fails :
        Lifecycle.IsLawful C
        → (x : Err) → (reconcile_kind C S A cl w).1 ≡ returned (some x)
        → IsNotReady (reconcile_kind C S A cl w).0
          ⊎ ((kmesh : KMesh) × ((ingresses_for kmesh w).1 ≡ err x)
              × ((reconcile_kind C S A cl w).0.binding ≡ w.binding))
    unfolding reconcile_kind
    reconcile_kind_fails L x h = elim (Option-cases w.binding.spec.kmesh) [
      | inl e ↦ absurd (panicked-ne-returned (rw (e, reconcile_kind) at h))
      | inr (want, e) ↦ elim (Result-cases (reconcile_kmesh C S A cl want w).1) [
        | inr (y, f) ↦
            simp (e, f, reconcile_kind)
              (reconcile_kmesh-failed L want w x
                (f ∙ ap err (returned-injective (rw (e, f, reconcile_kind) at h))))
        | inl (k, f) ↦ absurd (returned_some-ne-none (sym (rw (e, f, reconcile_kind) at h)))
      ]
    ]
