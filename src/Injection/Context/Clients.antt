-- ===== src/Injection/Context/Clients.antt =====
-- injection/client/client.go: the client of a context, and the wrappers that read through it.
use k_mesh.Base.{Option, none, some}
use k_mesh.Base.Text.{Text}
use k_mesh.Clientset.{Kind, Interface}
use k_mesh.Clientset.Config.{Rates, Config, Makers, Clientset, new_for_config_or_die}
use k_mesh.Injection.{Wrapper}
use k_mesh.Injection.Context.{Ambient, Versioned, of_config, of_dynamic, ClientWrapper, Context}

module _ {R : Rates} (M : Makers R) (Dyn : Type 0) where
  abbrev pub Client : Type 0
  Client = Versioned (Clientset M) Dyn

  -- `withClientFromConfig`
  unfoldable pub with_client_from_config : Config R → Context Client → Option (Context Client)
  unfolding new_for_config_or_die
  with_client_from_config cfg c = elim (new_for_config_or_die M cfg) [
    | none ↦ none
    | some set ↦ some (record c { client = some (of_config set) })
  ]

  -- `withClientFromDynamic`; `dynamicclient.Get` panics where there is no dynamic client
  unfoldable pub with_client_from_dynamic : Ambient Dyn → Context Client → Option (Context Client)
  with_client_from_dynamic am c = elim am.dynamic [
    | none ↦ none
    | some dyn ↦ some (record c { client = some (of_dynamic dyn) })
  ]

-- A wrapper of the context, with the interface that its client has for the kind.
abbrev pub wrapper_of :
    {V Server : Type 0} {K : Kind}
    → (V → Text → Interface K Server)
    → ClientWrapper V
    → Wrapper K Server
wrapper_of interface w = record {
  client = interface w.client;
  namespace = w.namespace;
  resource_version = w.resource_version;
  selector = w.selector;
}
