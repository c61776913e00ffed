-- ===== src/Api/Lifecycle.antt =====
-- pkg/apis/mesh/v1alpha1/*_lifecycle.go and *_validation.go: conditions and validation. The
-- condition manager of knative.dev/pkg/apis is a parameter.
use k_mesh.Base.{◌≡◌, Option, none, some, List, [], ◌∷◌}
use k_mesh.Base.Text.{Text, text}
use k_mesh.Api.{
  DuckStatus, KMesh, KMeshStatus, BrokerBinding, BrokerBindingSpec, BrokerBindingStatus,
}

-- `apis.ConditionManager` of a living condition set with no dependent conditions.
pub record ConditionSet : Type 0 where
  pub initialize : DuckStatus → DuckStatus
  pub mark_true : Text → DuckStatus → DuckStatus
  pub mark_false : Text → Text → Text → DuckStatus → DuckStatus
  -- `GetCondition(t).Status`, where the condition is set
  pub condition : Text → DuckStatus → Option Text

-- Documented behaviour: `MarkTrue` and `MarkFalse` set the condition's status, and
-- `InitializeConditions` leaves no known condition without one and does not touch a set one.
pub record IsLawful (C : ConditionSet) : Type 0 where
  pub condition-mark_true :
      (t : Text) (s : DuckStatus) → C.condition t (C.mark_true t s) ≡ some (text "True")
  pub condition-mark_false :
      (t reason msg : Text) (s : DuckStatus)
      → C.condition t (C.mark_false t reason msg s) ≡ some (text "False")
  pub condition-initialize_none :
      (s : DuckStatus)
      → C.condition (text "Ready") s ≡ none
      → C.condition (text "Ready") (C.initialize s) ≡ some (text "Unknown")
  pub condition-initialize_some :
      (s : DuckStatus) {v : Text}
      → C.condition (text "Ready") s ≡ some v
      → C.condition (text "Ready") (C.initialize s) ≡ some v

-- `apis.ConditionReady`
abbrev pub condition_ready : Text
condition_ready = text "Ready"

module _ (C : ConditionSet) where
  -- `(*KMeshStatus).InitializeConditions`
  unfoldable pub kmesh_initialize_conditions : KMeshStatus → KMeshStatus
  kmesh_initialize_conditions s = record s { status = C.initialize s.status }

  unfoldable pub mark_unhealthy : KMeshStatus → KMeshStatus
  mark_unhealthy s = record s {
    status =
        C.mark_false condition_ready (text "KMeshUnhealthy")
          (text "KMesh is currently unhealthy. One of the event hops is not ready.") s.status;
  }

  unfoldable pub mark_healthy : KMeshStatus → KMeshStatus
  mark_healthy s = record s { status = C.mark_true condition_ready s.status }

  -- `(*BrokerBindingStatus).InitializeConditions`
  unfoldable pub initialize_conditions : BrokerBindingStatus → BrokerBindingStatus
  initialize_conditions s = record s { status = C.initialize s.status }

  -- The format and its arguments are taken together, as the formatted message.
  unfoldable pub mark_binding_not_ready_with_details :
      Text → Text → BrokerBindingStatus → BrokerBindingStatus
  mark_binding_not_ready_with_details reason msg s = record s {
    status = C.mark_false condition_ready reason msg s.status;
  }

  unfoldable pub mark_binding_not_ready : BrokerBindingStatus → BrokerBindingStatus
  unfolding mark_binding_not_ready_with_details
  mark_binding_not_ready =
      mark_binding_not_ready_with_details (text "BrokerImplNotReady")
        (text "Broker implementation is not ready yet")

  unfoldable pub mark_binding_ready : BrokerBindingStatus → BrokerBindingStatus
  mark_binding_ready s = record s { status = C.mark_true condition_ready s.status }

  -- `(*Reconciler).ReconcileKind` of pkg/reconciler/kmesh: every mesh is marked healthy.
  unfoldable pub reconcile_kmesh_kind : KMesh → KMesh
  unfolding mark_healthy
  reconcile_kmesh_kind m = record m { status = mark_healthy m.status }

-- `apis.FieldError`: the fields that are missing, with the path to each.
pub data FieldError : Type 0 where
  missing : List Text → FieldError

-- `(*FieldError).ViaField`
abbrev pub via_field : Text → Option FieldError → Option FieldError
via_field f none = none
via_field f (some (missing path)) = some (missing (f ∷ path))

unfoldable pub validate_spec : BrokerBindingSpec → Option FieldError
validate_spec spec = elim spec.classes [ [] ↦ some (missing (text "classes" ∷ [])) | _ ∷ _ ↦ none ]

unfoldable pub validate : BrokerBinding → Option FieldError
unfolding validate_spec
validate bb = via_field (text "spec") (validate_spec bb.spec)

unfoldable pub validate_kmesh : KMesh → Option FieldError
validate_kmesh m = none
