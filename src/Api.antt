-- ===== src/Api.antt =====
-- pkg/apis/mesh/v1alpha1: the types of the API group `mesh.knative.dev/v1alpha1`. Types of
-- vendored packages (duck, metav1, eventing) hold the fields that this program reads or writes;
-- what a vendored accessor such as `IsReady` answers is a field of its own.
pub mod Lifecycle
use k_mesh.Base.{ℕ, Bool, Option, List}
use k_mesh.Base.Text.{Text}

-- `duckv1.KReference`
pub record KReference : Type 0 where
  pub kind : Text
  pub namespace : Text
  pub name : Text
  pub api_version : Text

-- `duckv1.Destination`
pub record Destination : Type 0 where
  pub ref : Option KReference
  pub uri : Option Text

-- `duckv1.Addressable`; the URL is its printed form
pub record Addressable : Type 0 where
  pub url : Text

-- `apis.Condition`, without its severity and its time stamp
pub record Condition : Type 0 where
  pub type_name : Text
  pub status : Text
  pub reason : Text
  pub message : Text

-- `duckv1.Status`
pub record DuckStatus : Type 0 where
  pub observed_generation : ℕ
  pub conditions : List Condition

-- `metav1.ObjectMeta`: what the program uses of it
pub record ObjectMeta : Type 0 where
  pub namespace : Text
  pub name : Text
  pub uid : Text
  pub resource_version : Text
  pub finalizers : List Text
  pub deleted : Bool

-- `Egress`
pub record Egress : Type 0 where
  pub destination : Option Destination
  pub name : Text

-- `Ingress`
pub record Ingress : Type 0 where
  pub address : Option Addressable
  pub name : Text
  pub egresses : List Egress

-- `KMeshStatus`
pub record KMeshStatus : Type 0 where
  pub status : DuckStatus
  pub broker_classes : List Text
  pub ingresses : List Ingress

-- `KMesh`
pub record KMesh : Type 0 where
  pub meta : ObjectMeta
  pub status : KMeshStatus

-- `BrokerBindingSpec`
pub record BrokerBindingSpec : Type 0 where
  pub classes : List Text
  pub kmesh : Option KReference

-- `BrokerBindingStatus`
pub record BrokerBindingStatus : Type 0 where
  pub status : DuckStatus

-- `BrokerBinding`
pub record BrokerBinding : Type 0 where
  pub meta : ObjectMeta
  pub spec : BrokerBindingSpec
  pub status : BrokerBindingStatus
