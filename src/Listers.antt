-- ===== src/Listers.antt =====
-- pkg/client/listers/mesh/v1alpha1: the listers of meshes and of broker bindings, over the
-- indexer of their informer.
pub mod Laws
use k_mesh.Base.{Option, none, some, List, [], ◌∷◌, ◌++◌}
use k_mesh.Base.Text.{Text, text}
use k_mesh.Base.Result.{Err, not_found, Result, ok, err}
use k_mesh.Clientset.{Kind}

-- `cache.Indexer` as the listers use it: the objects that `cache.ListAll` and
-- `cache.ListAllByNamespace` hand to their callback, in order, with the error; and `GetByKey`.
pub record Indexer (K : Kind) : Type 1 where
  pub Selector : Type 0
  pub list_all : Selector → List K.Object × Option Err
  pub list_all_by_namespace : Text → Selector → List K.Object × Option Err
  pub get_by_key : Text → Result (Option K.Object)

module _ {K : Kind} (I : Indexer K) where
  -- `ret = append(ret, m)` for each object
  unfoldable pub append_each : List K.Object → List K.Object → List K.Object
  append_each ret [] = ret
  append_each ret (m ∷ ms) = append_each (ret ++ m ∷ []) ms

  -- `List` of the lister
  unfoldable pub lister_list : I.Selector → List K.Object × Option Err
  unfolding append_each
  lister_list selector = let (ms, e) = I.list_all selector in (append_each [] ms, e)

  -- `List` of the namespace's lister
  unfoldable pub namespace_lister_list : Text → I.Selector → List K.Object × Option Err
  unfolding append_each
  namespace_lister_list namespace selector =
      let (ms, e) = I.list_all_by_namespace namespace selector in (append_each [] ms, e)

  -- `Get` of the namespace's lister; the error names the resource `kmesh` or `brokerbinding`
  unfoldable pub lister_get : Text → Text → Result K.Object
  lister_get namespace name = elim (I.get_by_key (namespace ++ (text "/" ++ name))) [
    | err e ↦ err e
    | ok none ↦ err (not_found (K.singular ++ (text " " ++ name)))
    | ok (some obj) ↦ ok obj
  ]

-- `KMeshLister` and `BrokerBindingLister`, with the listers of their namespaces.
pub record Lister {K : Kind} (I : Indexer K) : Type 0 where
  pub list : I.Selector → List K.Object × Option Err
  pub namespace_list : Text → I.Selector → List K.Object × Option Err
  pub get : Text → Text → Result K.Object

-- `NewKMeshLister` and `NewBrokerBindingLister`
unfoldable pub new_lister : {K : Kind} (I : Indexer K) → Lister I
unfolding lister_list namespace_lister_list lister_get
new_lister I = record {
  list = lister_list I;
  namespace_list = namespace_lister_list I;
  get = lister_get I;
}
