-- ===== src/Webhook/Admitted.antt =====
-- What the webhook (cmd/webhook) lets pass, and what the schemes and the controller of broker
-- bindings then make of it.
use k_mesh.Base.{◌≡◌, refl, true, inl, inr, Option, none, some, List, [], ◌∷◌, In, sym, subst}
use k_mesh.Base.Text.{Text, text}
use k_mesh.Base.Result.{ok}
use k_mesh.Api.{Ingress, BrokerBinding, BrokerBindingSpec}
use k_mesh.Api.Lifecycle.{FieldError, missing, via_field, validate, validate_spec}
use k_mesh.Clientset.{GroupVersionKind}
use k_mesh.Scheme.{
  SchemeApi, add_known_types, recognizes-add_known_types, with_kind, scheme_group_version,
  struct_name,
}
use k_mesh.Scheme
use k_mesh.Machinery.StringSet.{StringSet}
use k_mesh.Machinery.StringSet
use k_mesh.Binding.{Broker, Caches, Cluster}
use k_mesh.Binding.Delivery.{broker_filter-reconcile_ingresses}
use k_mesh.Binding.Handlers.{object, broker_class, broker_filter}
use k_mesh.Binding.Ingresses.{reconcile_ingresses}
use k_mesh.Binding.Reconcile.{cache_classes}
use k_mesh.Binding.Reconcile.Classes.{cache_classes_lem}
use k_mesh.Webhook.{
  set_binding_defaults, Crd, kmesh_crd, broker_binding_crd, struct_of, types, validate_crd,
  set_defaults,
}

-- Every resource that the webhook admits stands under the name of its type, so that a scheme with
-- the types of the package knows it.
pub types-recognizes :
    (S : SchemeApi) (s : S.Scheme) (q : GroupVersionKind) (t : Crd)
    → Scheme.IsLawful S
    → In (q, t) types
    → S.recognizes q (add_known_types S s).0 ≡ true
unfolding types
types-recognizes S s q t L (inl e) =
    subst (λ p. S.recognizes p.0 (add_known_types S s).0 ≡ true) (sym e)
      (recognizes-add_known_types S L (struct_of kmesh_crd) s)
types-recognizes S s q t L (inr (inl e)) =
    subst (λ p. S.recognizes p.0 (add_known_types S s).0 ≡ true) (sym e)
      (recognizes-add_known_types S L (struct_of broker_binding_crd) s)
types-recognizes S s q t L (inr (inr x)) = elim x [ ]

-- A specification that passes has a class.
validate_spec-none :
    (spec : BrokerBindingSpec) (cs : List Text)
    → validate_spec (record spec { classes = cs }) ≡ none
    → (c : Text) × In c cs
unfolding validate_spec
validate_spec-none spec [] h = cc h
validate_spec-none spec (c ∷ cs) h = (c, inl refl)

via_field-none : (f : Text) (e : Option FieldError) → via_field f e ≡ none → e ≡ none
via_field-none f none h = refl
via_field-none f (some (missing path)) h = cc h

-- A defaulted binding that the webhook's validation lets pass names a class. Once a reconcile of
-- it lists the ingresses of its mesh, the filter of the broker events accepts the brokers of every
-- class that it names.
pub validate_crd-broker_filter :
    (S : StringSet) (cl : Cluster) (bb : BrokerBinding) (uid : Text) (s : Caches)
    (is : List Ingress)
    → StringSet.IsLawful S
    → validate_crd broker_binding_crd (set_defaults broker_binding_crd bb) ≡ none
    → (reconcile_ingresses cl bb uid (cache_classes S uid bb.spec.classes s)).1 ≡ ok is
    → ((c : Text) × In c bb.spec.classes)
      × ((c : Text) (b : Broker)
          → In c bb.spec.classes
          → broker_class b ≡ some c
          → broker_filter
              (object b)
              (reconcile_ingresses cl bb uid (cache_classes S uid bb.spec.classes s)).0
            ≡ true)
unfolding validate_crd set_defaults set_binding_defaults validate
validate_crd-broker_filter S cl bb uid s is L h done = (
  validate_spec-none bb.spec bb.spec.classes (via_field-none (text "spec") _ h),
  λ c b at e.
      broker_filter-reconcile_ingresses cl bb uid (cache_classes S uid bb.spec.classes s) is b c
        done e (((cache_classes_lem S uid bb.spec.classes s L).0 c).1 (inl at)),
)
