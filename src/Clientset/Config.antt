-- ===== src/Clientset/Config.antt =====
-- pkg/client/clientset/versioned: clientset.go and mesh_client.go, which make the clients from a
-- configuration of client-go.
pub mod Limits
use k_mesh.Base.{Bool, true, false, not, ◌&&◌, Option, none, some, List, [], ◌∷◌, if◌then◌else◌}
use k_mesh.Base.Text.{Text, text}
use k_mesh.Base.Result.{Err, failure, Result, ok, err, ◌>>=◌}

-- The types of client-go, `QPS > 0` and `Burst > 0`, and its functions.
pub record Rates : Type 1 where
  pub Qps : Type 0
  pub Burst : Type 0
  pub Limiter : Type 0
  pub Other : Type 0
  pub qps_positive : Qps → Bool
  pub burst_positive : Burst → Bool
  -- `flowcontrol.NewTokenBucketRateLimiter`
  pub new_limiter : Qps → Burst → Limiter
  -- `rest.DefaultKubernetesUserAgent`
  pub default_user_agent : Text

-- `rest.Config`: the fields that the code reads or writes, and the rest. The serializer is set or not.
pub record Config (R : Rates) : Type 0 where
  pub rate_limiter : Option R.Limiter
  pub qps : R.Qps
  pub burst : R.Burst
  pub group_version : Option (Text × Text)
  pub api_path : Text
  pub without_conversion : Bool
  pub user_agent : Text
  pub other : R.Other

-- `rest.RESTClientFor` and `discovery.NewDiscoveryClientForConfig`
pub record Makers (R : Rates) : Type 1 where
  pub Rest : Type 0
  pub Discovery : Type 0
  pub rest_client_for : Config R → Result Rest
  pub new_discovery_client_for_config : Config R → Result Discovery

-- `Clientset`, with the REST client of its `MeshV1alpha1Client`
pub record Clientset {R : Rates} (M : Makers R) : Type 0 where
  pub discovery_client : M.Discovery
  pub mesh_v1alpha1 : M.Rest

abbrev pub burst_required : Err
burst_required = failure (
    text
      "burst is required to be greater than 0 when RateLimiter is not set and QPS is set to greater than 0")

module _ {R : Rates} where
  -- `setConfigDefaults`
  unfoldable pub set_config_defaults : Config R → Config R
  set_config_defaults c = record c {
    group_version = some (text "mesh.knative.dev", text "v1alpha1");
    api_path = text "/apis";
    without_conversion = true;
    user_agent = elim c.user_agent [ [] ↦ R.default_user_agent | x ∷ s ↦ x ∷ s ];
  }

  -- The two conditions, on the limiter, the rate and the burst.
  abbrev pub choose_limiter : Config R → Option R.Limiter → Bool → Bool → Result (Config R)
  choose_limiter c (some limiter) qps burst = ok c
  choose_limiter c none false burst = ok c
  choose_limiter c none true false = err burst_required
  choose_limiter c none true true =
      ok (record c { rate_limiter = some (R.new_limiter c.qps c.burst) })

  -- The copy of the configuration that `NewForConfig` of the clientset works on.
  unfoldable pub with_rate_limiter : Config R → Result (Config R)
  with_rate_limiter c =
      choose_limiter c c.rate_limiter (R.qps_positive c.qps) (R.burst_positive c.burst)

module _ {R : Rates} (M : Makers R) where
  -- `NewForConfig` of the group's client
  unfoldable pub group_new_for_config : Config R → Result M.Rest
  unfolding set_config_defaults
  group_new_for_config c = M.rest_client_for (set_config_defaults c)

  -- `NewForConfig` of the clientset
  unfoldable pub new_for_config : Config R → Result (Clientset M)
  unfolding with_rate_limiter group_new_for_config
  new_for_config c = with_rate_limiter c >>= λ copied. group_new_for_config copied >>= λ mesh.
      M.new_discovery_client_for_config copied >>= λ discovery.
      ok (record { discovery_client = discovery; mesh_v1alpha1 = mesh })

  -- `NewForConfigOrDie` of the clientset, which goes to the clients at once; `none` is a panic
  unfoldable pub new_for_config_or_die : Config R → Option (Clientset M)
  unfolding group_new_for_config
  new_for_config_or_die c = elim (group_new_for_config c) [
    | err e ↦ none
    | ok mesh ↦ elim (M.new_discovery_client_for_config c) [
      | err e ↦ none
      | ok discovery ↦ some (record { discovery_client = discovery; mesh_v1alpha1 = mesh })
    ]
  ]

  -- `New` of the clientset, over a REST client and the discovery client on it
  unfoldable pub new_clientset : (M.Rest → M.Discovery) → M.Rest → Clientset M
  new_clientset new_discovery_client c = record {
    discovery_client = new_discovery_client c;
    mesh_v1alpha1 = c;
  }
