-- ===== src/Clientset.antt =====
-- pkg/client: the clients of the API group, over the kind of resource. This file has the kind,
-- the interface that every client implements, and what a request to the API server carries.
-- The options of a call, a watch and a body's bytes are handed through, and are opaque.
pub mod Typed
pub mod Dynamic
pub mod Fake
pub mod Kinds
pub mod Config
pub mod Simple
use Prim.Native.Nat.{◌^◌}
use k_mesh.Base.{ℕ, ◌≡◌, ◌*◌, ◌%◌, Bool, Option, none, some, List}
use k_mesh.Base.Text.{Text}
use k_mesh.Base.Dict.{Dict}
use k_mesh.Base.Result.{Err, Result, ok, err}

-- `schema.GroupVersionKind`
pub record GroupVersionKind : Type 0 where
  pub group : Text
  pub version : Text
  pub kind : Text

-- `schema.GroupVersionResource`
pub record GroupVersionResource : Type 0 where
  pub group : Text
  pub version : Text
  pub resource : Text

-- A kind of resource, with the types of its objects and of their lists.
pub record Kind : Type 1 where
  pub Object : Type 0
  pub ListMeta : Type 0
  pub Options : Type 0
  pub Bytes : Type 0
  pub Watch : Type 0
  pub resource : Text
  pub singular : Text
  pub kind : Text
  pub namespace_of : Object → Text
  pub name_of : Object → Text
  pub labels_of : Object → Dict Text
  -- `SetGroupVersionKind`
  pub with_kind : GroupVersionKind → Object → Object

-- `KMeshList` and `BrokerBindingList`
pub record ObjectList (K : Kind) : Type 0 where
  pub meta : K.ListMeta
  pub items : List K.Object

-- `metav1.ListOptions`: what the clients read of it, and the rest.
pub record ListOptions (K : Kind) : Type 0 where
  pub label_selector : Text
  -- a 64-bit word
  pub timeout_seconds : Option ℕ
  pub watch : Bool
  pub other : K.Options

-- `KMeshInterface` and `BrokerBindingInterface`, as a client of a server with this state.
pub record Interface (K : Kind) (Server : Type 0) : Type 0 where
  pub create : K.Object → K.Options → Server → Server × Result K.Object
  pub update : K.Object → K.Options → Server → Server × Result K.Object
  pub update_status : K.Object → K.Options → Server → Server × Result K.Object
  pub delete : Text → K.Options → Server → Server × Option Err
  pub delete_collection : K.Options → ListOptions K → Server → Server × Option Err
  pub get : Text → K.Options → Server → Server × Result K.Object
  pub list : ListOptions K → Server → Server × Result (ObjectList K)
  pub watch : ListOptions K → Server → Server × Result K.Watch
  -- name, type of the patch, patch, options, subresources
  pub patch : Text → Text → K.Bytes → K.Options → List Text → Server → Server × Result K.Object

-- `time.Duration(*opts.TimeoutSeconds) * time.Second`, as a 64-bit word of nanoseconds
unfoldable pub timeout_of : {K : Kind} → ListOptions K → ℕ
timeout_of o = elim o.timeout_seconds [ none ↦ 0 | some n ↦ n * 1000000000 % 2 ^ 64 ]

-- Two clients of the same server answer every call alike, and leave it in the same state.
pub record Agree {K : Kind} {Server : Type 0} (a b : Interface K Server) : Type 0 where
  pub create : (o : K.Object) (x : K.Options) (s : Server) → a.create o x s ≡ b.create o x s
  pub update : (o : K.Object) (x : K.Options) (s : Server) → a.update o x s ≡ b.update o x s
  pub update_status :
      (o : K.Object) (x : K.Options) (s : Server) → a.update_status o x s ≡ b.update_status o x s
  pub delete : (n : Text) (x : K.Options) (s : Server) → a.delete n x s ≡ b.delete n x s
  pub delete_collection :
      (x : K.Options) (l : ListOptions K) (s : Server)
      → a.delete_collection x l s ≡ b.delete_collection x l s
  pub get : (n : Text) (x : K.Options) (s : Server) → a.get n x s ≡ b.get n x s
  pub list : (l : ListOptions K) (s : Server) → a.list l s ≡ b.list l s
  pub watch : (l : ListOptions K) (s : Server) → a.watch l s ≡ b.watch l s
  pub patch :
      (n t : Text) (p : K.Bytes) (x : K.Options) (subs : List Text) (s : Server)
      → a.patch n t p x subs s ≡ b.patch n t p x subs s
