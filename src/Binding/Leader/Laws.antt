-- ===== src/Binding/Leader/Laws.antt =====
-- A leader's run of the generated reconciler on a broker binding, from its key to the server.
use k_mesh.Base.{
  ◌≡◌, refl, sym, ap, ◌∙◌, subst, ◌⊎◌, inl, inr, Bool, true, false, Option, none, some, List,
  Bool-cases, Option-cases,
}
use k_mesh.Base.Text.{Text, text}
use k_mesh.Base.Result.{Err, ok}
use k_mesh.Api.{
  KReference, Ingress, KMesh, KMeshStatus, BrokerBinding, BrokerBindingSpec, BrokerBindingStatus,
}
use k_mesh.Api.Lifecycle.{
  ConditionSet, condition_ready, mark_binding_ready, mark_binding_not_ready_with_details,
}
use k_mesh.Api.Lifecycle
use k_mesh.Machinery.StringSet.{StringSet}
use k_mesh.Machinery.MeshApi.{MeshApi}
use k_mesh.Machinery.MeshApi
use k_mesh.Binding.{Cluster}
use k_mesh.Binding.Ingresses.{reconcile_ingresses}
use k_mesh.Binding.Reconcile.{Outcome, returned, panicked, cache_classes, reconcile_kind}
use k_mesh.Binding.Reconcile
use k_mesh.Binding.Reconcile.Meta.{reconcile_kind-meta}
use k_mesh.Binding.Reconcile.Classes.{classes_of}
use k_mesh.Binding.Reconcile.Laws.{reconcile_kind-panicked, reconcile_kind_succeeds}
use k_mesh.Reconciler.{Client, World, Impl}
use k_mesh.Reconciler.Kinds.{binding_resource}
use k_mesh.Reconciler.Status.Laws.{StoresStatus, RetriesConflicts}
use k_mesh.Reconciler.Status.Kept.{Keeps}
use k_mesh.Reconciler.Run.{State, reconcile, finish}
use k_mesh.Reconciler.Run.Stored.{finish-IsStored}
use k_mesh.Reconciler.Run.Leading.{leading_state, reconcile-finish, finish-ne-none, finish-Keeps}
use k_mesh.Binding.Leader.{joint_client, kind_world, after_kind, event_of, RunsKind}

-- An outcome that is not a panic is a return.
Outcome-returned : (o : Outcome) → ¬ (o ≡ panicked) → (e : Option Err) × (o ≡ returned e)
Outcome-returned (returned e) h = (e, refl)
Outcome-returned panicked h = absurd (h refl)

module _ (C : ConditionSet) (S : StringSet) (A : MeshApi) (cl : Cluster)
    (same : BrokerBindingStatus → BrokerBindingStatus → Bool)
    (B : Client (binding_resource same)) where
  abbrev IsReadyStatus : BrokerBindingStatus → Type 0
  IsReadyStatus st = C.condition condition_ready st.status ≡ some (text "True")

  -- Documented behaviour of `equality.Semantic.DeepEqual`: equal statuses have equal conditions.
  abbrev pub Respects : Type 0
  Respects =
      (a b : BrokerBindingStatus)
      → same a b ≡ true
      → C.condition condition_ready a.status ≡ C.condition condition_ready b.status

  -- The lister gave a binding that is ready, or the server now stores a ready status for it.
  abbrev pub IsSettled :
      StoresStatus (joint_client same A B) → BrokerBinding → World (joint_client same A B) → Type 0
  IsSettled L o w =
      IsReadyStatus o.status
      ⊎ ((st : BrokerBindingStatus) × (L.stored w.server o.meta.namespace o.meta.name ≡ some st)
          × IsReadyStatus st)

  module _ (im : Impl (joint_client same A B)) (k : RunsKind same A B C S cl im)
      (original : BrokerBinding) (w : World (joint_client same A B)) where
    -- The world and the outcome of `ReconcileKind` in this run.
    abbrev pub kind_run : Reconcile.World A × Outcome
    kind_run = reconcile_kind C S A cl (kind_world same A B (im.pre_process original) w)

    -- The binding that the run leaves.
    abbrev resource : BrokerBinding
    resource = im.post_process kind_run.0.binding original

    resource-meta : resource.meta ≡ original.meta
    resource-meta =
        k.post_meta kind_run.0.binding original
        ∙ reconcile_kind-meta C S A cl (kind_world same A B (im.pre_process original) w)
        ∙ k.pre_meta original

    kind_run-returned :
        (want : KReference)
        → original.spec.kmesh ≡ some want
        → (e : Option Err) × (kind_run.1 ≡ returned e)
    kind_run-returned want e =
        let pre = im.pre_process original in
        let named : pre.spec.kmesh ≡ some want = ap (λ z. z.kmesh) (k.pre_spec original) ∙ e in
        Outcome-returned kind_run.1
          (λ p. cc ((reconcile_kind-panicked C S A cl (kind_world same A B pre w)).0 p))

    -- A ready binding that the end of the run does not fail to store is settled.
    finish-IsSettled :
        (L : StoresStatus (joint_client same A B)) (s : State) (v : World (joint_client same A B))
        → RetriesConflicts im
        → Respects
        → s.is_leader ≡ true
        → IsReadyStatus kind_run.0.binding.status
        → (finish S im s original resource none v).1 ≡ none
        → IsSettled L original (finish S im s original resource none v).0
    finish-IsSettled L s v r eq leader ready h =
        let ready' : IsReadyStatus resource.status =
          k.post_ready kind_run.0.binding original ready in
        elim (Bool-cases (same original.status resource.status)) [
          | inl e ↦ inl (eq original.status resource.status e ∙ ready')
          | inr e ↦
              let m = sym resource-meta in
              let (st, stored, equal) =
                finish-IsStored S L im s original resource none v r k.updates leader
                  (ap (λ z. z.namespace) m) (ap (λ z. z.name) m) e h in
              inr (
                st,
                subst
                    (λ z.
                      L.stored (finish S im s original resource none v).0.server z.namespace z.name
                      ≡ some st)
                    resource-meta stored,
                eq st resource.status equal ∙ ready',
              )
        ]

    -- The run of the leader is that of `ReconcileKind`, and the end of the generated `Reconcile`.
    reconcile-kind_run :
        (key namespace name : Text) (e : Option Err)
        → im.split_key key ≡ ok (namespace, name)
        → im.is_leader_for namespace name ≡ true
        → B.lister_get namespace name ≡ ok original
        → original.meta.deleted ≡ false
        → kind_run.1 ≡ returned e
        → reconcile S im key w
          ≡ finish S im
              (leading_state S im namespace name)
              original
              resource
              (event_of same A B e)
              (after_kind same A B kind_run.0 w)
    reconcile-kind_run key namespace name e split leader found live q =
        reconcile-finish S im key namespace name original kind_run.0.binding (event_of same A B e) w
          (after_kind same A B kind_run.0 w) split leader found live k.finalizes k.updates
          (k.runs (im.pre_process original) w e q)

    -- The mesh is published with these classes of the binding, and the binding is settled.
    abbrev pub IsPublishedTo :
        StoresStatus (joint_client same A B)
        → KMesh
        → BrokerBindingSpec
        → World (joint_client same A B)
        → Type 0
    IsPublishedTo L kmesh spec out =
        let known =
          cl.before_listing (cache_classes S kmesh.meta.uid spec.classes w.server.caches) in
        (is : List Ingress) × ((reconcile_ingresses cl (im.pre_process original) kmesh.meta.uid
            known).1
          ≡ ok is)
        × (A.stored kmesh.meta.namespace kmesh.meta.name out.server.meshes
            ≡ some (record (kmesh.status) {
              broker_classes = classes_of kmesh.meta.uid (
                  cl.before_patch
                    (reconcile_ingresses cl (im.pre_process original) kmesh.meta.uid known).0);
              ingresses = is;
            }))
        × IsSettled L original out

    -- A status of a mesh is not touched by the updates of the binding's.
    Keeps-mesh :
        (ns name : Text) (status : KMeshStatus)
        → Keeps (joint_client same A B) (λ t. A.stored ns name t.meshes ≡ some status)
    Keeps-mesh ns name status = record { update = λ o t h. h; fetch = λ o t h. h }

    finish-IsPublishedTo :
        (L : StoresStatus (joint_client same A B)) (s : State) (want : KReference) (kmesh : KMesh)
        → Lifecycle.IsLawful C
        → MeshApi.IsLawful A
        → Respects
        → RetriesConflicts im
        → s.is_leader ≡ true
        → original.spec.kmesh ≡ some want
        → cl.get_kmesh want.namespace want.name ≡ ok kmesh
        → A.stored kmesh.meta.namespace kmesh.meta.name w.server.meshes ≡ some kmesh.status
        → kind_run.1 ≡ returned none
        → (finish S im s original resource none (after_kind same A B kind_run.0 w)).1 ≡ none
        → IsPublishedTo L kmesh original.spec
            (finish S im s original resource none (after_kind same A B kind_run.0 w)).0
    finish-IsPublishedTo L s want kmesh LC LA eq r leader names got st q h =
        let v = after_kind same A B kind_run.0 w in
        let spec = k.pre_spec original in
        let (is, i, ready, stored, _) =
          reconcile_kind_succeeds C S A cl (kind_world same A B (im.pre_process original) w) LC LA
            want kmesh (ap (λ z. z.kmesh) spec ∙ names) got st q in
        subst (λ z. IsPublishedTo L kmesh z (finish S im s original resource none v).0) spec
          (
            is,
            i,
            finish-Keeps S im s original resource v none (Keeps-mesh _ _ _) r stored,
            finish-IsSettled L s v r eq leader ready h,
          )

    -- When a leader's run on a binding to a mesh ends without an error, and the server had, when it
    -- began, the status of the mesh that the lister gives, then the mesh's ingresses were listed
    -- once the classes of the binding were known for it, the server stores the mesh's status with exactly them and
    -- with the classes known for the mesh when the patch was made, and either the lister gave a binding that was ready or
    -- the server stores a ready status for it.
    pub reconcile-published :
        (L : StoresStatus (joint_client same A B)) (key namespace name : Text) (want : KReference)
        (kmesh : KMesh)
        → Lifecycle.IsLawful C
        → MeshApi.IsLawful A
        → Respects
        → RetriesConflicts im
        → im.split_key key ≡ ok (namespace, name)
        → im.is_leader_for namespace name ≡ true
        → B.lister_get namespace name ≡ ok original
        → original.meta.deleted ≡ false
        → original.spec.kmesh ≡ some want
        → cl.get_kmesh want.namespace want.name ≡ ok kmesh
        → A.stored kmesh.meta.namespace kmesh.meta.name w.server.meshes ≡ some kmesh.status
        → (reconcile S im key w).1 ≡ none
        → IsPublishedTo L kmesh original.spec (reconcile S im key w).0
    reconcile-published L key namespace name want kmesh LC LA eq r split leader found live names got
          st h =
        let run = λ (e : Option Err) (q : kind_run.1 ≡ returned e).
          reconcile-kind_run key namespace name e split leader found live q in
        let (e, q) = kind_run-returned want names in
        elim (Option-cases e) [
          | inr (x, same_e) ↦
              let q' : kind_run.1 ≡ returned (some x) = q ∙ ap returned same_e in
              absurd (
                finish-ne-none S im (leading_state S im namespace name) original resource
                  (after_kind same A B kind_run.0 w) x (sym (ap (λ z. z.1) (run (some x) q')) ∙ h))
          | inl same_e ↦
              let q' : kind_run.1 ≡ returned none = q ∙ ap returned same_e in
              subst (λ z. IsPublishedTo L kmesh original.spec z.0) (sym (run none q'))
                (finish-IsPublishedTo L (leading_state S im namespace name) want kmesh LC LA eq r
                  leader names got st q' (sym (ap (λ z. z.1) (run none q')) ∙ h))
        ]
