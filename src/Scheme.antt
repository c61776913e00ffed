-- ===== src/Scheme.antt =====
-- pkg/apis/mesh/register.go and pkg/apis/mesh/v1alpha1/register.go: the API group and the types that
-- a scheme learns, with the schemes of the clientset. The scheme of apimachinery is a parameter.
use k_mesh.Base.{◌≡◌, refl, inl, inr, Bool, true, Option, none, some, List, [], ◌∷◌, In}
use k_mesh.Base.Text.{Text, text}
use k_mesh.Base.Result.{Err}
use k_mesh.Clientset.{GroupVersionKind, GroupVersionResource}

-- `mesh.GroupName`
abbrev pub group_name : Text
group_name = text "mesh.knative.dev"

-- `schema.GroupVersion`, `schema.GroupKind` and `schema.GroupResource`
pub record GroupVersion : Type 0 where
  pub group : Text
  pub version : Text

pub record GroupKind : Type 0 where
  pub group : Text
  pub kind : Text

pub record GroupResource : Type 0 where
  pub group : Text
  pub resource : Text

-- `SchemeGroupVersion`
abbrev pub scheme_group_version : GroupVersion
scheme_group_version = record { group = group_name; version = text "v1alpha1" }

-- `GroupVersion.WithKind` and `GroupVersion.WithResource`
abbrev pub with_kind : GroupVersion → Text → GroupVersionKind
with_kind v k = record { group = v.group; version = v.version; kind = k }

abbrev pub with_resource : GroupVersion → Text → GroupVersionResource
with_resource v r = record { group = v.group; version = v.version; resource = r }

-- `Kind`
unfoldable pub kind : Text → GroupKind
kind k = let q = with_kind scheme_group_version k in record { group = q.group; kind = q.kind }

-- `Resource`
unfoldable pub resource : Text → GroupResource
resource r =
    let q = with_resource scheme_group_version r in
    record { group = q.group; resource = q.resource }

-- The Go types of the package that a scheme can know.
pub data KnownType : Type 0 where
  kmesh_struct : KnownType
  kmesh_list_struct : KnownType
  broker_binding_struct : KnownType
  broker_binding_list_struct : KnownType

-- The name of each, which is the kind that a scheme knows it by.
abbrev pub struct_name : KnownType → Text
struct_name kmesh_struct = text "KMesh"
struct_name kmesh_list_struct = text "KMeshList"
struct_name broker_binding_struct = text "BrokerBinding"
struct_name broker_binding_list_struct = text "BrokerBindingList"

-- `runtime.Scheme`, and `metav1.AddToGroupVersion`
pub record SchemeApi : Type 1 where
  pub Scheme : Type 0
  pub add_types : GroupVersion → List KnownType → Scheme → Scheme
  pub add_to_group_version : GroupVersion → Scheme → Scheme
  -- `Recognizes`
  pub recognizes : GroupVersionKind → Scheme → Bool

-- Documented behaviour: a type is added under its name, and nothing is taken away.
pub record IsLawful (S : SchemeApi) : Type 0 where
  pub recognizes-add_types :
      (v : GroupVersion) (ts : List KnownType) (s : S.Scheme) (t : KnownType)
      → In t ts
      → S.recognizes (with_kind v (struct_name t)) (S.add_types v ts s) ≡ true
  pub recognizes-add_to_group_version :
      (v : GroupVersion) (s : S.Scheme) (q : GroupVersionKind)
      → S.recognizes q s ≡ true
      → S.recognizes q (S.add_to_group_version v s) ≡ true

abbrev known_types : List KnownType
known_types =
    kmesh_struct ∷ kmesh_list_struct ∷ broker_binding_struct ∷ broker_binding_list_struct ∷ []

known_types-In : (t : KnownType) → In t known_types
known_types-In kmesh_struct = inl refl
known_types-In kmesh_list_struct = inr (inl refl)
known_types-In broker_binding_struct = inr (inr (inl refl))
known_types-In broker_binding_list_struct = inr (inr (inr (inl refl)))

module _ (S : SchemeApi) where
  -- `addKnownTypes`
  unfoldable pub add_known_types : S.Scheme → S.Scheme × Option Err
  add_known_types s = (
    S.add_to_group_version scheme_group_version (S.add_types scheme_group_version known_types s),
    none,
  )

  -- The scheme knows every type of the package afterwards.
  pub recognizes-add_known_types :
      IsLawful S
      → (t : KnownType) (s : S.Scheme)
      → S.recognizes (with_kind scheme_group_version (struct_name t)) (add_known_types s).0 ≡ true
  unfolding add_known_types
  recognizes-add_known_types L t s =
      L.recognizes-add_to_group_version _ _ _
        (L.recognizes-add_types scheme_group_version known_types s t (known_types-In t))

  -- The `init` of pkg/client/clientset/versioned/scheme, and of its sibling under fake; `none` is the
  -- panic of `Must`.
  unfoldable pub init_client_scheme : S.Scheme → Option S.Scheme
  unfolding add_known_types
  init_client_scheme s =
      let meta : GroupVersion = record { group = []; version = text "v1" } in
      let (t, e) = add_known_types (S.add_to_group_version meta s) in
      elim e [ none ↦ some t | some x ↦ none ]

  -- The scheme of a clientset is made without a panic, and knows every type of the package.
  pub init_client_scheme-recognizes :
      IsLawful S
      → (s : S.Scheme)
      → (u : S.Scheme) × (init_client_scheme s ≡ some u)
        × ((t : KnownType) → S.recognizes (with_kind scheme_group_version (struct_name t)) u ≡ true)
  unfolding init_client_scheme add_known_types
  init_client_scheme-recognizes L s = (_, refl, λ t. recognizes-add_known_types L t _)
