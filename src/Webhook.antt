-- ===== src/Webhook.antt =====
-- cmd/webhook/main.go: the resources that the webhook defaults and validates, and its admission
-- controllers; with the two other programs under cmd. The admission of knative.dev/pkg/webhook, and
-- the main functions of knative.dev/pkg and knative.dev/hack, are parameters.
pub mod Admitted
use k_mesh.Base.{ℕ, Bool, true, Option, none, some, List, [], ◌∷◌}
use k_mesh.Base.Text.{Text, text}
use k_mesh.Base.Result.{Err}
use k_mesh.Api.{KMesh, BrokerBinding}
use k_mesh.Api.Lifecycle.{FieldError, validate, validate_kmesh}
use k_mesh.Clientset.{GroupVersionKind}
use k_mesh.Scheme.{scheme_group_version, with_kind, KnownType, kmesh_struct, broker_binding_struct}

-- `resourcesemantics.GenericCRD`: the resources, known by the type of the empty object
pub data Crd : Type 0 where
  kmesh_crd : Crd
  broker_binding_crd : Crd

abbrev pub ObjectOf : Crd → Type 0
ObjectOf kmesh_crd = KMesh
ObjectOf broker_binding_crd = BrokerBinding

abbrev pub struct_of : Crd → KnownType
struct_of kmesh_crd = kmesh_struct
struct_of broker_binding_crd = broker_binding_struct

-- `(*KMesh).SetDefaults` and `(*BrokerBinding).SetDefaults`
unfoldable pub set_kmesh_defaults : KMesh → KMesh
set_kmesh_defaults m = m

unfoldable pub set_binding_defaults : BrokerBinding → BrokerBinding
set_binding_defaults b = b

-- `(*KMesh).GetGroupVersionKind` and `(*BrokerBinding).GetGroupVersionKind`
unfoldable pub kmesh_group_version_kind : GroupVersionKind
kmesh_group_version_kind = with_kind scheme_group_version (text "KMesh")

unfoldable pub binding_group_version_kind : GroupVersionKind
binding_group_version_kind = with_kind scheme_group_version (text "BrokerBinding")

-- The methods that a resource is called by.
unfoldable pub set_defaults : (t : Crd) → ObjectOf t → ObjectOf t
set_defaults kmesh_crd = set_kmesh_defaults
set_defaults broker_binding_crd = set_binding_defaults

unfoldable pub validate_crd : (t : Crd) → ObjectOf t → Option FieldError
validate_crd kmesh_crd = validate_kmesh
validate_crd broker_binding_crd = validate

-- `types`
unfoldable pub types : List (GroupVersionKind × Crd)
types =
    (with_kind scheme_group_version (text "KMesh"), kmesh_crd)
    ∷ (with_kind scheme_group_version (text "BrokerBinding"), broker_binding_crd)
    ∷ []

-- `callbacks`
abbrev pub callbacks : {Callback : Type 0} → List (GroupVersionKind × Callback)
callbacks = []

-- The arguments of `defaulting.NewAdmissionController`, which are the first ones of
-- `validation.NewAdmissionController`.
pub record Admission (Context : Type 0) : Type 0 where
  pub name : Text
  pub path : Text
  pub types : List (GroupVersionKind × Crd)
  pub infuse : Context → Context
  pub disallow_unknown_fields : Bool

module _ {Context Impl : Type 0} where
  -- `NewDefaultingAdmissionController`
  unfoldable pub new_defaulting_admission_controller :
      (Context → Admission Context → Impl) → Context → Impl
  new_defaulting_admission_controller make c = make c (record {
    name = text "defaulting.webhook.mesh.knative.dev";
    path = text "/defaulting";
    types = types;
    infuse = λ c. c;
    disallow_unknown_fields = true;
  })

  -- `NewValidationAdmissionController`
  unfoldable pub new_validation_admission_controller :
      {Callback : Type 0}
      → (Context → Admission Context → List (GroupVersionKind × Callback) → Impl)
      → Context
      → Impl
  new_validation_admission_controller make c =
      make c
        (record {
          name = text "validation.webhook.mesh.knative.dev";
          path = text "/resource-validation";
          types = types;
          infuse = λ c. c;
          disallow_unknown_fields = true;
        })
        callbacks

  -- `NewConfigValidationController`, over the names of the config maps of logging and of metrics
  -- and their constructors
  unfoldable pub new_config_validation_controller :
      {Constructor : Type 0}
      → (Context → Text → Text → List (Text × Constructor) → Impl)
      → Text × Constructor
      → Text × Constructor
      → Context
      → Impl
  new_config_validation_controller make logging metrics c =
      make c (text "config.webhook.mesh.knative.dev") (text "/config-validation")
        (logging ∷ metrics ∷ [])

-- `webhook.Options`
pub record WebhookOptions : Type 0 where
  pub service_name : Text
  pub port : ℕ
  pub secret_name : Text

-- `main`: the context of the signals gets the options, and the shared main function the component
-- and the constructors of its controllers.
unfoldable pub webhook_main :
    {Context Constructor W : Type 0}
    → (WebhookOptions → Context → Context)
    → (Context → Text → List Constructor → W)
    → Context
    → Constructor
    → Constructor
    → Constructor
    → Constructor
    → W
webhook_main with_options run signals certificates defaulting validation configs =
    let options : WebhookOptions = record {
      service_name = text "webhook";
      port = 8443;
      secret_name = text "webhook-certs";
    } in
    run (with_options options signals) (text "webhook")
      (certificates ∷ defaulting ∷ validation ∷ configs ∷ [])

-- `main` of cmd/controller
unfoldable pub controller_main :
    {Constructor W : Type 0} → (Text → List Constructor → W) → Constructor → Constructor → W
controller_main run kmesh brokerbinding = run (text "controller") (kmesh ∷ brokerbinding ∷ [])

-- `main` of cmd/schema: the two types are registered and the command runs; the answer is the line
-- with which it ends the program where it failed.
unfoldable pub schema_main :
    {Registry : Type 0}
    → (Crd → Registry → Registry)
    → (Text → Registry → Option Err)
    → Registry
    → Option (Text × Err)
schema_main register execute r =
    elim (execute (text "knative.dev/kmesh") (register broker_binding_crd (register kmesh_crd r))) [
      | none ↦ none
      | some e ↦ some (text "Error during command execution: ", e)
    ]
