-- ===== src/Injection/Kinds.antt =====
-- The injection packages of broker bindings, which are those of meshes over another kind.
use k_mesh.Base.{ℕ, Option, List}
use k_mesh.Base.Text.{Text}
use k_mesh.Base.Result.{Result}
use k_mesh.Api.{BrokerBinding}
use k_mesh.Clientset.Kinds.{Typed, brokerbindings}
use k_mesh.Injection.{
  Labels, Wrapper, wrapper_in_namespace, set_resource_version, wrapper_list, wrapper_get,
  filtered_wrapper_list, filtered_wrapper_get,
}
use k_mesh.Injection.Context.{
  brokerbinding_kind, Ambient, InformerValue, Context, with_informer, with_dynamic_informer,
  get_informer,
}
use k_mesh.Injection.Context.Selected.{
  with_filtered_informers, with_dynamic_filtered_informers, get_filtered_informer,
}

module _ {V : Type 0} where
  unfoldable pub brokerbinding_with_informer : Context V → Option (Context V × ℕ)
  brokerbinding_with_informer = with_informer brokerbinding_kind

  unfoldable pub brokerbinding_with_dynamic_informer :
      {Dyn : Type 0} → Ambient Dyn → Context V → Option (Context V)
  brokerbinding_with_dynamic_informer am = with_dynamic_informer am brokerbinding_kind

  unfoldable pub get_brokerbinding_informer : Context V → Option (InformerValue V)
  get_brokerbinding_informer = get_informer brokerbinding_kind

  unfoldable pub brokerbinding_with_filtered_informers : Context V → Option (Context V × List ℕ)
  brokerbinding_with_filtered_informers = with_filtered_informers brokerbinding_kind

  unfoldable pub brokerbinding_with_dynamic_filtered_informers : Context V → Option (Context V)
  brokerbinding_with_dynamic_filtered_informers = with_dynamic_filtered_informers brokerbinding_kind

  unfoldable pub get_filtered_brokerbinding_informer : Text → Context V → Option (InformerValue V)
  get_filtered_brokerbinding_informer = get_filtered_informer brokerbinding_kind

module _ {ListMeta Options Bytes Watch : Type 0} (Server : Type 0)
    (B : Labels (brokerbindings ListMeta Options Bytes Watch)) where
  abbrev Bindings : Type 0
  Bindings = Wrapper (brokerbindings ListMeta Options Bytes Watch) Server

  unfoldable pub brokerbinding_wrapper_in_namespace : Text → Bindings → Bindings
  brokerbinding_wrapper_in_namespace = wrapper_in_namespace B

  unfoldable pub set_brokerbinding_resource_version : Text → Bindings → Bindings
  set_brokerbinding_resource_version = set_resource_version B

  unfoldable pub brokerbinding_wrapper_list :
      Bindings → B.Selector → Server → Server × Result (List (Typed BrokerBinding))
  brokerbinding_wrapper_list = wrapper_list B

  unfoldable pub brokerbinding_wrapper_get :
      Bindings → Text → Server → Server × Result (Typed BrokerBinding)
  brokerbinding_wrapper_get = wrapper_get B

  unfoldable pub filtered_brokerbinding_wrapper_list :
      Bindings → B.Selector → Server → Server × Result (List (Typed BrokerBinding))
  filtered_brokerbinding_wrapper_list = filtered_wrapper_list B

  unfoldable pub filtered_brokerbinding_wrapper_get :
      Bindings → Text → Server → Server × Result (Typed BrokerBinding)
  filtered_brokerbinding_wrapper_get = filtered_wrapper_get B
