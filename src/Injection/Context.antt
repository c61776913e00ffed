-- ===== src/Injection/Context.antt =====
-- pkg/client/injection: what the packages of the client, the factories and the informers put into
-- a context and read from it. A value under a key is a field, or an entry of a map where the key
-- has a selector; `none` is a panic. The injection of knative.dev/pkg runs each function once.
pub mod Values
pub mod Clients
pub mod Selected
pub mod Setup
pub mod Loop
pub mod Last
pub mod Fakes
use k_mesh.Base.{ℕ, Option, none, some, List, [], ◌∷◌, ◌++◌}
use k_mesh.Base.Text.{Text}
use k_mesh.Base.Dict.{Dict, lookup, insert}
use k_mesh.Clientset.{Kind, ListOptions, Interface}
use k_mesh.Clientset.Config.{Rates, Config, Makers, Clientset, new_for_config_or_die}
use k_mesh.Informers.{Factory, informer_for}
use k_mesh.Informers.Resources.{binding_type, mesh_type}
use k_mesh.Injection.{
  Tweak, Filtered, with_informer_factory, with_filtered_factories, get_filtered, Wrapper,
}
pub use k_mesh.Injection.Context.Values.{
  KindName, kmesh_kind, brokerbinding_kind, type_name, Ambient, Versioned, of_config, of_dynamic,
  FactoryRef, plain_factory, selected_factory, TypedInformer, ClientWrapper, InformerValue, shared,
  wrapped, KindInformers, Context, no_informers, background,
}
unfoldable pub use k_mesh.Injection.Context.Values.{
  typed_informer, mesh_of, v1alpha1_of, informer_of_version,
}

module _ {V : Type 0} where
  abbrev pub of_kind : KindName → Context V → KindInformers V
  of_kind kmesh_kind c = c.kmeshes
  of_kind brokerbinding_kind c = c.brokerbindings

  -- `context.WithValue(ctx, Key{}, inf)` of a kind's plain package
  abbrev pub put_informer : KindName → InformerValue V → Context V → Context V
  put_informer kmesh_kind i c = record c { kmeshes = record (c.kmeshes) { unfiltered = some i } }
  put_informer brokerbinding_kind i c = record c {
    brokerbindings = record (c.brokerbindings) { unfiltered = some i };
  }

  -- `context.WithValue(ctx, Key{Selector: selector}, inf)` of its filtered package
  abbrev pub put_filtered_informer : KindName → Text → InformerValue V → Context V → Context V
  put_filtered_informer kmesh_kind s i c = record c {
    kmeshes = record (c.kmeshes) { by_selector = insert s i c.kmeshes.by_selector };
  }
  put_filtered_informer brokerbinding_kind s i c = record c {
    brokerbindings = record (c.brokerbindings) {
      by_selector = insert s i c.brokerbindings.by_selector;
    };
  }

  -- `client.Get`
  unfoldable pub get_client : Context V → Option V
  get_client c = c.client

  -- `factory.Get`
  unfoldable pub get_factory : Context V → Option (Factory Tweak)
  get_factory c = c.factory

  -- `WithSelectors`
  unfoldable pub with_selectors : List Text → Context V → Context V
  with_selectors selectors c = record c { label_key = some selectors }

  -- `withInformerFactory` of the package factory
  unfoldable pub with_factory : {Dyn : Type 0} → Ambient Dyn → Context V → Option (Context V)
  unfolding get_client
  with_factory am c = elim (get_client c) [
    | none ↦ none
    | some v ↦ some (record c { factory = some (with_informer_factory am.scope am.resync) })
  ]

  -- `withInformerFactory` of the package filtered
  unfoldable pub with_filtered_factory :
      {Dyn : Type 0} → Ambient Dyn → Context V → Option (Context V)
  unfolding get_client
  with_filtered_factory am c = elim (get_client c) [
    | none ↦ none
    | some v ↦ elim (with_filtered_factories am.scope am.resync c.label_key) [
      | none ↦ none
      | some g ↦ some (record c { filtered = some g })
    ]
  ]

  -- `filtered.Get(ctx, selector)`
  unfoldable pub get_filtered_factory : Text → Context V → Option (Factory Tweak)
  get_filtered_factory s c = elim c.filtered [ none ↦ none | some g ↦ get_filtered s g ]

  abbrev pub factory_at : FactoryRef → Context V → Option (Factory Tweak)
  factory_at plain_factory c = get_factory c
  factory_at (selected_factory s) c = get_filtered_factory s c

  -- A change of the factory that an informer points to.
  abbrev pub set_factory : FactoryRef → Factory Tweak → Context V → Context V
  set_factory plain_factory f c = record c { factory = some f }
  set_factory (selected_factory s) f c = record c {
    filtered = elim c.filtered [
      | none ↦ none
      | some g ↦ some (record g { factories = insert s f g.factories })
    ];
  }

  -- `(*kMeshInformer).Informer` and `(*brokerBindingInformer).Informer`
  unfoldable pub shared_informer : KindName → TypedInformer → Context V → Option (Context V × ℕ)
  unfolding get_factory get_filtered_factory
  shared_informer k i c = elim (factory_at i.factory c) [
    | none ↦ none
    | some f ↦
        let (g, informer) = informer_for (type_name k) f in
        some (set_factory i.factory g c, informer)
  ]

  -- `withInformer` of a kind's plain package
  unfoldable pub with_informer : KindName → Context V → Option (Context V × ℕ)
  unfolding get_factory typed_informer shared_informer
  with_informer k c = elim (get_factory c) [
    | none ↦ none
    | some f ↦
        let inf = typed_informer plain_factory f in
        shared_informer k inf (put_informer k (shared inf) c)
  ]

  -- `withDynamicInformer` of a kind's plain package
  unfoldable pub with_dynamic_informer :
      {Dyn : Type 0} → Ambient Dyn → KindName → Context V → Option (Context V)
  unfolding get_client
  with_dynamic_informer am k c = elim (get_client c) [
    | none ↦ none
    | some v ↦ some (
        put_informer k
          (wrapped (record {
            client = v;
            namespace = [];
            resource_version = am.resource_version;
            selector = [];
          }))
          c)
  ]

  -- `Get` of a kind's plain package
  unfoldable pub get_informer : KindName → Context V → Option (InformerValue V)
  get_informer k c = (of_kind k c).unfiltered
