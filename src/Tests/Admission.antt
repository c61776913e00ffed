-- ===== src/Tests/Admission.antt =====
-- A binding that the webhook lets pass, with one broker and one trigger of its class.
use k_mesh.Base.{◌≡◌, refl, true, some, [], ◌∷◌, In}
use k_mesh.Base.Text.{Text, text, text_eq}
use k_mesh.Base.Dict.{lookup, insert}
use k_mesh.Api.Lifecycle.{validate, validate_spec}
use k_mesh.Binding.{Broker, Caches}
use k_mesh.Binding.Handlers.{object, broker_class, broker_filter}
use k_mesh.Binding.Ingresses.{reconcile_ingresses}
use k_mesh.Binding.Reconcile.{cache_classes}
use k_mesh.Webhook.{set_defaults, set_binding_defaults, validate_crd}
use k_mesh.Webhook.Admitted.{validate_crd-broker_filter}
use k_mesh.Tests.Machines.{sets, sets_lawful}
use k_mesh.Tests.Cluster.{binding, cluster, with_both, full}

abbrev mesh_uid : Text
mesh_uid = text "mesh"

abbrev learned : Caches
learned = cache_classes sets mesh_uid binding.spec.classes with_both

validate_crd-broker_filter_example :
    ((c : Text) × In c binding.spec.classes)
    × ((c : Text) (b : Broker)
        → In c binding.spec.classes
        → broker_class b ≡ some c
        → broker_filter (object b) (reconcile_ingresses cluster binding mesh_uid learned).0 ≡ true)
unfolding validate_crd set_defaults set_binding_defaults validate validate_spec reconcile_ingresses
    cache_classes text_eq lookup insert
validate_crd-broker_filter_example =
    validate_crd-broker_filter sets cluster binding mesh_uid with_both (full ∷ []) sets_lawful refl
      refl
