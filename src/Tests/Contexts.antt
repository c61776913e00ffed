-- ===== src/Tests/Contexts.antt =====
-- A context with a client, in one namespace, and the informers that it is given.
use k_mesh.Base.{ℕ, ◌≡◌, refl, none, some, List, [], ◌∷◌, In, length, Option}
use k_mesh.Base.Text.{Text, text, text_eq}
use k_mesh.Base.Dict.{lookup, insert}
use k_mesh.Informers.{informer_for}
use k_mesh.Injection.{with_informer_factory}
use k_mesh.Injection.Context.{
  kmesh_kind, brokerbinding_kind, get_informer, with_factory, with_informer, Ambient, TypedInformer,
  shared, Context, background, get_client, with_filtered_factory,
}
use k_mesh.Injection.Context.Selected.{with_filtered_informers, get_filtered_informer}
use k_mesh.Injection.Context.Setup.{Ready, set_up, HasInformer}
use k_mesh.Injection.Context.Last.{ListsBy, with_filtered_informers-last}
use k_mesh.Binding.Handlers.{new_caches}
use k_mesh.Binding.Controller.{Outside, Made, new_controller, kmesh_new_controller}
use k_mesh.Binding.Controller.Creation.{new_controller-set_up}
use k_mesh.Controllers.Kinds.{kmesh_agent, binding_agent}
use k_mesh.Tests.Clients.{api}

abbrev ambient : Ambient ℕ
ambient = record {
  scope = some (text "ns");
  resync = 30;
  resource_version = text "7";
  dynamic = none;
}

abbrev with_client : Context ℕ
with_client = record background { client = some 1 }

abbrev labelled : Context ℕ
labelled = record with_client { label_key = some (text "app=a" ∷ text "app=b" ∷ []) }

with_filtered_informers-last_example :
    (c₁ : Context ℕ) × (c₂ : Context ℕ) × (infs : List ℕ) × (with_filtered_factory ambient labelled
      ≡ some c₁)
    × (with_filtered_informers kmesh_kind c₁ ≡ some (c₂, infs))
    × (length infs ≡ 2)
    × ((q : Text)
        → In q (text "app=a" ∷ text "app=b" ∷ [])
        → (i : TypedInformer) × (get_filtered_informer kmesh_kind q c₂ ≡ some (shared i))
          × ListsBy api i c₂ (text "app=b"))
unfolding get_client
with_filtered_informers-last_example =
    with_filtered_informers-last api ambient kmesh_kind labelled 1 (text "app=a")
      (text "app=b" ∷ []) refl refl

abbrev ready_value : Option (Ready ℕ) → Ready ℕ
ready_value none = (with_client, 0, 0)
ready_value (some r) = r

abbrev ready : Ready ℕ
ready = ready_value (set_up ambient with_client)

-- A context with a Kubernetes client and no event recorder; the agent's name is the recorder.
abbrev outside : Outside Text ℕ ℕ ℕ
outside = record {
  event_recorder = none;
  kube_client = some 3;
  new_recorder = λ kube agent. agent;
  addressable = some 4;
  brokers = some 5;
  triggers = some 6;
}

new_controller-set_up_example :
    (m : Made ℕ Text ℕ ℕ) × (new_controller outside ready.0 ≡ some m)
    × (kmesh_new_controller outside ready.0 ≡ some (m.kmesh_informer, kmesh_agent))
    × (get_informer brokerbinding_kind ready.0 ≡ some m.enqueues)
    × (m.caches ≡ new_caches)
    × (m.kmesh_client_set ≡ 1)
    × (m.broker_informer ≡ 5)
    × (m.trigger_informer ≡ 6)
    × (m.uri_resolver ≡ 4)
    × (m.recorder ≡ binding_agent)
    × HasInformer kmesh_kind ready.1 (some (text "ns")) ready.0
    × HasInformer brokerbinding_kind ready.2 (some (text "ns")) ready.0
unfolding set_up with_factory get_client with_informer_factory with_informer text_eq lookup insert
    informer_for
new_controller-set_up_example =
    new_controller-set_up ambient with_client ready 1 outside 3 4 5 6 refl refl refl refl refl refl
