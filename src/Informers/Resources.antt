-- ===== src/Informers/Resources.antt =====
-- externalversions/generic.go and the informers of both kinds: what an informer lists and watches,
-- and the informer of a resource by its name.
pub mod Again
use k_mesh.Base.{ℕ, Bool, true, false, ◌&&◌, Option, none, some, List, [], ◌∷◌, if◌then◌else◌}
use k_mesh.Base.Text.{Text, text, text_eq}
use k_mesh.Base.Result.{Err, failure, Result, ok, err}
use k_mesh.Clientset.{GroupVersionResource, Kind, ObjectList, ListOptions, Interface}
use k_mesh.Informers.{Factory, informer_for}

module _ {K : Kind} where
  -- `if tweakListOptions != nil { tweakListOptions(&options) }`
  abbrev pub tweaked : Option (ListOptions K → ListOptions K) → ListOptions K → ListOptions K
  tweaked none options = options
  tweaked (some tweak) options = tweak options

module _ {K : Kind} {Server : Type 0} where
  -- `ListFunc` of `NewFilteredKMeshInformer` and `NewFilteredBrokerBindingInformer`
  unfoldable pub list_func :
      (Text → Interface K Server)
      → Text
      → Option (ListOptions K → ListOptions K)
      → ListOptions K
      → Server
      → Server × Result (ObjectList K)
  list_func client namespace tweak options = (client namespace).list (tweaked tweak options)

  -- `WatchFunc` of the same
  unfoldable pub watch_func :
      (Text → Interface K Server)
      → Text
      → Option (ListOptions K → ListOptions K)
      → ListOptions K
      → Server
      → Server × Result K.Watch
  watch_func client namespace tweak options = (client namespace).watch (tweaked tweak options)

-- `schema.GroupResource`
pub record GroupResource : Type 0 where
  pub group : Text
  pub resource : Text

-- `genericInformer`
pub record GenericInformer : Type 0 where
  pub informer : ℕ
  pub resource : GroupResource

abbrev pub same_resource : GroupVersionResource → GroupVersionResource → Bool
same_resource r s =
    text_eq r.group s.group && (text_eq r.version s.version && text_eq r.resource s.resource)

-- `v1alpha1.SchemeGroupVersion.WithResource(resource)`
abbrev pub with_resource : Text → GroupVersionResource
with_resource resource = record {
  group = text "mesh.knative.dev";
  version = text "v1alpha1";
  resource = resource;
}

-- The Go types of both kinds, by which the factory knows their informers.
abbrev pub binding_type : Text
binding_type = text "*v1alpha1.BrokerBinding"

abbrev pub mesh_type : Text
mesh_type = text "*v1alpha1.KMesh"

-- The type that a case of the switch asks the factory for.
unfoldable pub type_of_resource : GroupVersionResource → Option Text
type_of_resource r =
    if same_resource r (with_resource (text "brokerbindings"))
    then some binding_type
    else (if same_resource r (with_resource (text "kmeshes")) then some mesh_type else none)

module _ {Tweak : Type 0} where
  -- `ForResource`; a resource's informer asks the factory for the informer of its type.
  unfoldable pub for_resource :
      GroupVersionResource → Factory Tweak → Factory Tweak × Result GenericInformer
  unfolding type_of_resource
  for_resource r f = elim (type_of_resource r) [
    | none ↦ (f, err (failure (text "no informer found")))
    | some t ↦
        let (g, informer) = informer_for t f in
        (
          g,
          ok (record {
            informer = informer;
            resource = record { group = r.group; resource = r.resource };
          }),
        )
  ]
