-- ===== src/Clientset/Dynamic.antt =====
-- injection/client/client.go: the client that works through the dynamic client of client-go, by
-- converting to and from unstructured objects.
pub mod Laws
use k_mesh.Base.{Option, List, []}
use k_mesh.Base.Text.{Text, text}
use k_mesh.Base.Result.{Err, failure, wrap, Result, ok, err}
use k_mesh.Clientset.{
  GroupVersionKind, GroupVersionResource, Kind, ObjectList, ListOptions, Interface,
}

-- `dynamic.ResourceInterface` of a resource in a namespace, on unstructured objects.
pub record Dynamic (K : Kind) : Type 1 where
  pub Server : Type 0
  pub Unstructured : Type 0
  pub UnstructuredList : Type 0
  pub create :
      GroupVersionResource → Text → Unstructured → K.Options → Server → Server × Result Unstructured
  pub update :
      GroupVersionResource → Text → Unstructured → K.Options → Server → Server × Result Unstructured
  pub update_status :
      GroupVersionResource → Text → Unstructured → K.Options → Server → Server × Result Unstructured
  pub delete : GroupVersionResource → Text → Text → K.Options → Server → Server × Option Err
  pub delete_collection :
      GroupVersionResource → Text → K.Options → ListOptions K → Server → Server × Option Err
  pub get : GroupVersionResource → Text → Text → K.Options → Server → Server × Result Unstructured
  pub list : GroupVersionResource → Text → ListOptions K → Server → Server × Result UnstructuredList
  -- name, type of the patch, patch, options, subresources
  pub patch :
      GroupVersionResource
      → Text
      → Text
      → Text
      → K.Bytes
      → K.Options
      → List Text
      → Server
      → Server × Result Unstructured

-- `json.Marshal` and `json.Unmarshal` at the four types that are converted.
pub record Json (K : Kind) (D : Dynamic K) : Type 0 where
  pub marshal_object : K.Object → Result Text
  pub unmarshal_object : Text → Result K.Object
  pub marshal_unstructured : D.Unstructured → Result Text
  pub unmarshal_unstructured : Text → Result D.Unstructured
  pub marshal_list : D.UnstructuredList → Result Text
  pub unmarshal_list : Text → Result (ObjectList K)

-- `convert`, at the types that its arguments have.
unfoldable pub convert : {A B : Type 0} → (A → Result Text) → (Text → Result B) → A → Result B
convert marshal unmarshal from = elim (marshal from) [
  | err e ↦ err (wrap (text "Marshal() = ") e)
  | ok bs ↦ elim (unmarshal bs) [ err e ↦ err (wrap (text "Unmarshal() = ") e) | ok to ↦ ok to ]
]

module _ {K : Kind} (D : Dynamic K) (J : Json K D) (ns : Text) where
  abbrev pub group_kind : GroupVersionKind
  group_kind = record { group = text "mesh.knative.dev"; version = text "v1alpha1"; kind = K.kind }

  abbrev pub group_resource : GroupVersionResource
  group_resource = record {
    group = text "mesh.knative.dev";
    version = text "v1alpha1";
    resource = K.resource;
  }

  abbrev pub to_unstructured : K.Object → Result D.Unstructured
  to_unstructured = convert J.marshal_object J.unmarshal_unstructured

  -- What each method does with the answer of the dynamic client.
  unfoldable pub converted : D.Server × Result D.Unstructured → D.Server × Result K.Object
  unfolding convert
  converted (s, err e) = (s, err e)
  converted (s, ok uo) = (s, convert J.marshal_unstructured J.unmarshal_object uo)

  -- `Create`, `Update` and `UpdateStatus`, over the method of the dynamic client that they call
  unfoldable pub write_object :
      (GroupVersionResource
        → Text
        → D.Unstructured
        → K.Options
        → D.Server
        → D.Server × Result D.Unstructured)
      → K.Object
      → K.Options
      → D.Server
      → D.Server × Result K.Object
  unfolding convert converted
  write_object call o opts s = elim (to_unstructured (K.with_kind group_kind o)) [
    | err e ↦ (s, err e)
    | ok uo ↦ converted (call group_resource ns uo opts s)
  ]

  unfoldable pub dynamic_get : Text → K.Options → D.Server → D.Server × Result K.Object
  unfolding converted
  dynamic_get name opts s = converted (D.get group_resource ns name opts s)

  unfoldable pub converted_list :
      D.Server × Result D.UnstructuredList → D.Server × Result (ObjectList K)
  unfolding convert
  converted_list (s, err e) = (s, err e)
  converted_list (s, ok uo) = (s, convert J.marshal_list J.unmarshal_list uo)

  unfoldable pub dynamic_list : ListOptions K → D.Server → D.Server × Result (ObjectList K)
  unfolding converted_list
  dynamic_list opts s = converted_list (D.list group_resource ns opts s)

  -- `Patch`: the subresources are not handed on.
  unfoldable pub dynamic_patch :
      Text → Text → K.Bytes → K.Options → List Text → D.Server → D.Server × Result K.Object
  unfolding converted
  dynamic_patch name pt bytes opts subresources s =
      converted (D.patch group_resource ns name pt bytes opts [] s)

  unfoldable pub dynamic_watch : ListOptions K → D.Server → D.Server × Result K.Watch
  dynamic_watch opts s = (s, err (failure (text "NYI: Watch")))

  -- `wrapMeshV1alpha1KMeshImpl` and `wrapMeshV1alpha1BrokerBindingImpl`
  unfoldable pub dynamic_client : Interface K D.Server
  unfolding write_object dynamic_get dynamic_list dynamic_patch dynamic_watch
  dynamic_client = record {
    create = write_object D.create;
    update = write_object D.update;
    update_status = write_object D.update_status;
    delete = D.delete group_resource ns;
    delete_collection = D.delete_collection group_resource ns;
    get = dynamic_get;
    list = dynamic_list;
    watch = dynamic_watch;
    patch = dynamic_patch;
  }
