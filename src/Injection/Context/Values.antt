-- ===== src/Injection/Context/Values.antt =====
-- pkg/client/injection: the values that stand in a context, and the context itself. A value under a
-- key is a field, or an entry of a map where the key has a selector.
use k_mesh.Base.{ℕ, Option, none, List, []}
use k_mesh.Base.Text.{Text}
use k_mesh.Base.Dict.{Dict}
use k_mesh.Informers.{Factory}
use k_mesh.Informers.Resources.{binding_type, mesh_type}
use k_mesh.Injection.{Tweak, Filtered}

-- The two kinds, each with its packages.
pub data KindName : Type 0 where
  kmesh_kind brokerbinding_kind : KindName

-- The Go type by which a factory knows the informer of a kind.
abbrev pub type_name : KindName → Text
type_name kmesh_kind = mesh_type
type_name brokerbinding_kind = binding_type

-- What the context holds of knative.dev/pkg: the scope, the resync period, the resource version,
-- and the dynamic client, if it is there.
pub record Ambient (Dyn : Type 0) : Type 0 where
  pub scope : Option Text
  pub resync : ℕ
  pub resource_version : Text
  pub dynamic : Option Dyn

-- A value of `versioned.Interface`: a clientset, or `wrapClient`.
pub data Versioned (Set Dyn : Type 0) : Type 0 where
  of_config : Set → Versioned Set Dyn
  of_dynamic : Dyn → Versioned Set Dyn

-- The factory that an informer points to: the plain one, or that of a selector.
pub data FactoryRef : Type 0 where
  plain_factory : FactoryRef
  selected_factory : Text → FactoryRef

-- `kMeshInformer` and `brokerBindingInformer`, and the structs `group` and `version` before them
pub record TypedInformer : Type 0 where
  pub factory : FactoryRef
  pub namespace : Text
  pub tweak_list_options : Option Tweak

-- `Mesh` of the factory: a group with the factory's namespace and tweak
unfoldable pub mesh_of : FactoryRef → Factory Tweak → TypedInformer
mesh_of ref f = record {
  factory = ref;
  namespace = f.namespace;
  tweak_list_options = f.tweak_list_options;
}

-- `V1alpha1` of a group
unfoldable pub v1alpha1_of : TypedInformer → TypedInformer
v1alpha1_of g = record {
  factory = g.factory;
  namespace = g.namespace;
  tweak_list_options = g.tweak_list_options;
}

-- `KMeshes` and `BrokerBindings` of a version
unfoldable pub informer_of_version : TypedInformer → TypedInformer
informer_of_version v = record {
  factory = v.factory;
  namespace = v.namespace;
  tweak_list_options = v.tweak_list_options;
}

-- `f.Mesh().V1alpha1().KMeshes()` and `f.Mesh().V1alpha1().BrokerBindings()`
unfoldable pub typed_informer : FactoryRef → Factory Tweak → TypedInformer
unfolding mesh_of v1alpha1_of informer_of_version
typed_informer ref f = informer_of_version (v1alpha1_of (mesh_of ref f))

-- `wrapper` of the four packages, with the field that the package has
pub record ClientWrapper (V : Type 0) : Type 0 where
  pub client : V
  pub namespace : Text
  pub resource_version : Text
  pub selector : Text

-- A value of `KMeshInformer` or `BrokerBindingInformer`.
pub data InformerValue (V : Type 0) : Type 0 where
  shared : TypedInformer → InformerValue V
  wrapped : ClientWrapper V → InformerValue V

-- The informers of a kind: of its plain package, and of its filtered one.
pub record KindInformers (V : Type 0) : Type 0 where
  pub unfiltered : Option (InformerValue V)
  pub by_selector : Dict (InformerValue V)

pub record Context (V : Type 0) : Type 0 where
  pub client : Option V
  pub label_key : Option (List Text)
  pub factory : Option (Factory Tweak)
  pub filtered : Option Filtered
  pub kmeshes : KindInformers V
  pub brokerbindings : KindInformers V

abbrev pub no_informers : {V : Type 0} → KindInformers V
no_informers = record { unfiltered = none; by_selector = [] }

-- A context with none of these values.
abbrev pub background : {V : Type 0} → Context V
background = record {
  client = none;
  label_key = none;
  factory = none;
  filtered = none;
  kmeshes = no_informers;
  brokerbindings = no_informers;
}
