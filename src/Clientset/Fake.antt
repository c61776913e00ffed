-- ===== src/Clientset/Fake.antt =====
-- clientset/versioned/typed/mesh/v1alpha1/fake/fake_kmesh.go and fake_brokerbinding.go: the client
-- for tests, which turns each call into an action.
pub mod Laws
use k_mesh.Base.{Bool, true, false, Option, none, some, List, [], ◌∷◌, ◌++◌, if◌then◌else◌}
use k_mesh.Base.Text.{Text, text}
use k_mesh.Base.Dict.{Dict}
use k_mesh.Base.Result.{Err, Result, ok, err}
use k_mesh.Clientset.{GroupVersionKind, GroupVersionResource, Kind, ObjectList, ListOptions}

-- `testing.Action`, with the arguments of its constructors.
pub data Action (K : Kind) : Type 0 where
  get_action : GroupVersionResource → Text → Text → Action K
  list_action : GroupVersionResource → GroupVersionKind → Text → ListOptions K → Action K
  watch_action : GroupVersionResource → Text → ListOptions K → Action K
  create_action : GroupVersionResource → Text → K.Object → Action K
  update_action : GroupVersionResource → Text → K.Object → Action K
  update_subresource_action : GroupVersionResource → Text → Text → K.Object → Action K
  delete_action : GroupVersionResource → Text → Text → Action K
  delete_collection_action : GroupVersionResource → Text → ListOptions K → Action K
  -- namespace, name, type of the patch, patch, subresources
  patch_subresource_action :
      GroupVersionResource → Text → Text → Text → K.Bytes → List Text → Action K

-- `testing.Fake`: what its reactors answer to an action, an object or `nil`, and an error or
-- `nil`; and the label selectors of the API machinery.
pub record Fake (K : Kind) : Type 1 where
  pub Server : Type 0
  pub Selector : Type 0
  pub invokes : Action K → Server → Server × Option K.Object × Option Err
  pub invokes_list : Action K → Server → Server × Option (ObjectList K) × Option Err
  pub invokes_watch : Action K → Server → Server × Option K.Watch × Option Err
  -- the label selector of `testing.ExtractFromListOptions`, if there is one
  pub extract_label : ListOptions K → Option Selector
  -- `labels.Everything()`
  pub everything : Selector
  -- `label.Matches(labels.Set(item.Labels))`
  pub matches : Selector → Dict Text → Bool

module _ {K : Kind} (F : Fake K) (ns : Text) where
  -- `kmeshesResource` and `brokerbindingsResource`
  abbrev pub fake_resource : GroupVersionResource
  fake_resource = record {
    group = text "mesh.knative.dev";
    version = text "v1alpha1";
    resource = K.resource;
  }

  -- `kmeshesKind` and `brokerbindingsKind`
  abbrev pub fake_kind : GroupVersionKind
  fake_kind = record { group = text "mesh.knative.dev"; version = text "v1alpha1"; kind = K.kind }

  abbrev pub Answer : Type 0 → Type 0
  Answer A = F.Server × Option A × Option Err

  -- `if obj == nil { return nil, err }; return obj.(*T), err`
  abbrev pub cast : {A : Type 0} → Answer A → Answer A
  cast (s, none, e) = (s, none, e)
  cast (s, some o, e) = (s, some o, e)

  unfoldable pub fake_get : Text → K.Options → F.Server → Answer K.Object
  fake_get name options s = cast (F.invokes (get_action fake_resource ns name) s)

  -- The loop over the items of the list.
  unfoldable pub append_matching : F.Selector → List K.Object → List K.Object → List K.Object
  append_matching label items [] = items
  append_matching label items (item ∷ rest) =
      append_matching label
        (if F.matches label (K.labels_of item) then items ++ item ∷ [] else items) rest

  abbrev pub label_of : ListOptions K → F.Selector
  label_of opts = elim (F.extract_label opts) [ none ↦ F.everything | some l ↦ l ]

  -- `List` from the answer of the reactors on
  unfoldable pub filtered_list : ListOptions K → Answer (ObjectList K) → Answer (ObjectList K)
  unfolding append_matching
  filtered_list opts (s, none, e) = (s, none, e)
  filtered_list opts (s, some l, e) =
      (s, some (record { meta = l.meta; items = append_matching (label_of opts) [] l.items }), e)

  unfoldable pub fake_list : ListOptions K → F.Server → Answer (ObjectList K)
  unfolding filtered_list
  fake_list opts s =
      filtered_list opts (F.invokes_list (list_action fake_resource fake_kind ns opts) s)

  unfoldable pub fake_watch : ListOptions K → F.Server → Answer K.Watch
  fake_watch opts = F.invokes_watch (watch_action fake_resource ns opts)

  unfoldable pub fake_create : K.Object → K.Options → F.Server → Answer K.Object
  fake_create o opts s = cast (F.invokes (create_action fake_resource ns o) s)

  unfoldable pub fake_update : K.Object → K.Options → F.Server → Answer K.Object
  fake_update o opts s = cast (F.invokes (update_action fake_resource ns o) s)

  unfoldable pub fake_update_status : K.Object → K.Options → F.Server → Answer K.Object
  fake_update_status o opts s =
      cast (F.invokes (update_subresource_action fake_resource (text "status") ns o) s)

  unfoldable pub fake_delete : Text → K.Options → F.Server → F.Server × Option Err
  fake_delete name opts s =
      let (s', _, e) = F.invokes (delete_action fake_resource ns name) s in (s', e)

  unfoldable pub fake_delete_collection :
      K.Options → ListOptions K → F.Server → F.Server × Option Err
  fake_delete_collection opts list_opts s =
      let (s', _, e) = F.invokes_list (delete_collection_action fake_resource ns list_opts) s in
      (s', e)

  unfoldable pub fake_patch :
      Text → Text → K.Bytes → K.Options → List Text → F.Server → Answer K.Object
  fake_patch name pt bytes opts subresources s =
      cast (F.invokes (patch_subresource_action fake_resource ns name pt bytes subresources) s)

-- `KMeshInterface` and `BrokerBindingInterface` as the fake clients implement them.
pub record FakeClient {K : Kind} (F : Fake K) : Type 0 where
  pub get : Text → K.Options → F.Server → F.Server × Option K.Object × Option Err
  pub list : ListOptions K → F.Server → F.Server × Option (ObjectList K) × Option Err
  pub watch : ListOptions K → F.Server → F.Server × Option K.Watch × Option Err
  pub create : K.Object → K.Options → F.Server → F.Server × Option K.Object × Option Err
  pub update : K.Object → K.Options → F.Server → F.Server × Option K.Object × Option Err
  pub update_status : K.Object → K.Options → F.Server → F.Server × Option K.Object × Option Err
  pub delete : Text → K.Options → F.Server → F.Server × Option Err
  pub delete_collection : K.Options → ListOptions K → F.Server → F.Server × Option Err
  pub patch :
      Text
      → Text
      → K.Bytes
      → K.Options
      → List Text
      → F.Server
      → F.Server × Option K.Object × Option Err

-- `&FakeKMeshes{c, namespace}` and `&FakeBrokerBindings{c, namespace}`
unfoldable pub fake_client : {K : Kind} (F : Fake K) → Text → FakeClient F
unfolding fake_get fake_list fake_watch fake_create fake_update fake_update_status fake_delete
    fake_delete_collection fake_patch
fake_client F ns = record {
  get = fake_get F ns;
  list = fake_list F ns;
  watch = fake_watch F ns;
  create = fake_create F ns;
  update = fake_update F ns;
  update_status = fake_update_status F ns;
  delete = fake_delete F ns;
  delete_collection = fake_delete_collection F ns;
  patch = fake_patch F ns;
}
