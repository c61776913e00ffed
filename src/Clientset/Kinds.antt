-- ===== src/Clientset/Kinds.antt =====
-- The two kinds of resource of the API group, and their clients.
use k_mesh.Base.Text.{Text, text}
use k_mesh.Base.Dict.{Dict}
use k_mesh.Api.{ObjectMeta, KMesh, BrokerBinding}
use k_mesh.Clientset.{GroupVersionKind, Kind, Interface}
use k_mesh.Clientset.Typed.{Rest, typed_client}
use k_mesh.Clientset.Dynamic.{Dynamic, Json, dynamic_client}
use k_mesh.Clientset.Fake.{Fake, FakeClient, fake_client}
use k_mesh.Listers.{Indexer, Lister, new_lister}

-- An object with its type and its labels, which the reconcilers do not read.
pub record Typed (A : Type 0) : Type 0 where
  pub type_meta : GroupVersionKind
  pub labels : Dict Text
  pub object : A

module _ (ListMeta Options Bytes Watch : Type 0) where
  abbrev kind_of : {A : Type 0} → (A → ObjectMeta) → Text → Text → Text → Kind
  kind_of {A} meta resource singular kind = record {
    Object = Typed A;
    ListMeta = ListMeta;
    Options = Options;
    Bytes = Bytes;
    Watch = Watch;
    resource = resource;
    singular = singular;
    kind = kind;
    namespace_of = λ o. (meta o.object).namespace;
    name_of = λ o. (meta o.object).name;
    labels_of = λ o. o.labels;
    with_kind = λ k o. record o { type_meta = k };
  }

  abbrev pub kmeshes : Kind
  kmeshes = kind_of {A = KMesh} (λ m. m.meta) (text "kmeshes") (text "kmesh") (text "KMesh")

  abbrev pub brokerbindings : Kind
  brokerbindings =
      kind_of {A = BrokerBinding} (λ b. b.meta) (text "brokerbindings") (text "brokerbinding")
        (text "BrokerBinding")

  -- The clients of broker bindings, in a namespace; those of meshes are the general ones.
  unfoldable pub typed_brokerbindings :
      (R : Rest brokerbindings) → Text → Interface brokerbindings R.Server
  typed_brokerbindings R = typed_client R

  unfoldable pub dynamic_brokerbindings :
      (D : Dynamic brokerbindings)
      → Json brokerbindings D
      → Text
      → Interface brokerbindings D.Server
  dynamic_brokerbindings D J = dynamic_client D J

  unfoldable pub fake_brokerbindings : (F : Fake brokerbindings) → Text → FakeClient F
  fake_brokerbindings F = fake_client F

  unfoldable pub brokerbinding_lister : (I : Indexer brokerbindings) → Lister I
  brokerbinding_lister I = new_lister I

  unfoldable pub typed_kmeshes : (R : Rest kmeshes) → Text → Interface kmeshes R.Server
  typed_kmeshes R = typed_client R

  unfoldable pub dynamic_kmeshes :
      (D : Dynamic kmeshes) → Json kmeshes D → Text → Interface kmeshes D.Server
  dynamic_kmeshes D J = dynamic_client D J
