-- ===== src/Clientset/Typed.antt =====
-- clientset/versioned/typed/mesh/v1alpha1/kmesh.go and brokerbinding.go: the client that sends
-- requests. The builder of client-go is written as the fields that its calls set.
pub mod Laws
use k_mesh.Base.{ℕ, Bool, true, false, Option, none, some, List, [], ◌∷◌}
use k_mesh.Base.Text.{Text, text}
use k_mesh.Base.Result.{Err, Result, ok, err}
use k_mesh.Clientset.{Kind, ObjectList, ListOptions, Interface, timeout_of}

pub data Verb : Type 0 where
  get_verb post_verb put_verb delete_verb : Verb
  patch_verb : Text → Verb

pub data Params (K : Kind) : Type 0 where
  call_params : K.Options → Params K
  list_params : ListOptions K → Params K

pub data Body (K : Kind) : Type 0 where
  object_body : K.Object → Body K
  options_body : K.Options → Body K
  bytes_body : K.Bytes → Body K

-- `rest.Request`: what its builder's calls have set.
pub record Request (K : Kind) : Type 0 where
  pub verb : Verb
  pub namespace : Text
  pub resource : Text
  pub name : Option Text
  pub sub_resources : List Text
  pub params : Option (Params K)
  pub timeout : Option ℕ
  pub body : Option (Body K)

-- `rest.Interface`: the requests that it sends, read into an object, into a list, into a watch, or
-- for their error alone.
pub record Rest (K : Kind) : Type 1 where
  pub Server : Type 0
  pub into : Request K → Server → Server × Result K.Object
  pub into_list : Request K → Server → Server × Result (ObjectList K)
  pub into_watch : Request K → Server → Server × Result K.Watch
  pub into_error : Request K → Server → Server × Option Err

module _ (K : Kind) where
  -- `c.client.Verb().Namespace(c.ns).Resource(...)`
  abbrev pub request : Verb → Text → Request K
  request v ns = record {
    verb = v;
    namespace = ns;
    resource = K.resource;
    name = none;
    sub_resources = [];
    params = none;
    timeout = none;
    body = none;
  }

  -- `.Name(name)`
  abbrev pub named : Text → Request K → Request K
  named n q = record q { name = some n }

  -- `.SubResource(names...)`
  abbrev pub sub_resource : List Text → Request K → Request K
  sub_resource names q = record q { sub_resources = names }

  -- `.VersionedParams(&opts, scheme.ParameterCodec)`
  abbrev pub with_params : Params K → Request K → Request K
  with_params p q = record q { params = some p }

  -- `.Timeout(timeout)`
  abbrev pub with_timeout : ℕ → Request K → Request K
  with_timeout t q = record q { timeout = some t }

  -- `.Body(obj)`
  abbrev pub with_body : Body K → Request K → Request K
  with_body b q = record q { body = some b }

module _ {K : Kind} (R : Rest K) (ns : Text) where
  unfoldable pub typed_get : Text → K.Options → R.Server → R.Server × Result K.Object
  typed_get name options =
      R.into (with_params K (call_params options) (named K name (request K get_verb ns)))

  unfoldable pub typed_list : ListOptions K → R.Server → R.Server × Result (ObjectList K)
  typed_list opts =
      R.into_list (
        with_timeout K (timeout_of opts) (with_params K (list_params opts) (request K get_verb ns)))

  unfoldable pub typed_watch : ListOptions K → R.Server → R.Server × Result K.Watch
  typed_watch opts =
      let opts' = record opts { watch = true } in
      R.into_watch (
        with_timeout K (timeout_of opts)
          (with_params K (list_params opts') (request K get_verb ns)))

  unfoldable pub typed_create : K.Object → K.Options → R.Server → R.Server × Result K.Object
  typed_create o opts =
      R.into
        (with_body K (object_body o) (with_params K (call_params opts) (request K post_verb ns)))

  unfoldable pub typed_update : K.Object → K.Options → R.Server → R.Server × Result K.Object
  typed_update o opts = R.into (
      with_body K (object_body o)
        (with_params K (call_params opts) (named K (K.name_of o) (request K put_verb ns))))

  unfoldable pub typed_update_status : K.Object → K.Options → R.Server → R.Server × Result K.Object
  typed_update_status o opts = R.into (
      with_body K (object_body o) (
        with_params K (call_params opts)
          (sub_resource K (text "status" ∷ []) (named K (K.name_of o) (request K put_verb ns)))))

  unfoldable pub typed_delete : Text → K.Options → R.Server → R.Server × Option Err
  typed_delete name opts =
      R.into_error (with_body K (options_body opts) (named K name (request K delete_verb ns)))

  unfoldable pub typed_delete_collection :
      K.Options → ListOptions K → R.Server → R.Server × Option Err
  typed_delete_collection opts list_opts = R.into_error (
      with_body K (options_body opts) (
        with_timeout K (timeout_of list_opts)
          (with_params K (list_params list_opts) (request K delete_verb ns))))

  unfoldable pub typed_patch :
      Text → Text → K.Bytes → K.Options → List Text → R.Server → R.Server × Result K.Object
  typed_patch name pt bytes opts subresources = R.into (
      with_body K (bytes_body bytes) (
        with_params K (call_params opts)
          (sub_resource K subresources (named K name (request K (patch_verb pt) ns)))))

  -- `newKMeshes` and `newBrokerBindings`, with the methods of their results
  unfoldable pub typed_client : Interface K R.Server
  unfolding typed_get typed_list typed_watch typed_create typed_update typed_update_status
      typed_delete typed_delete_collection typed_patch
  typed_client = record {
    create = typed_create;
    update = typed_update;
    update_status = typed_update_status;
    delete = typed_delete;
    delete_collection = typed_delete_collection;
    get = typed_get;
    list = typed_list;
    watch = typed_watch;
    patch = typed_patch;
  }
