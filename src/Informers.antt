-- ===== src/Informers.antt =====
-- pkg/client/informers/externalversions: the factory of shared informers. An informer is known by
-- its address, a Go type by its name, and `order` is the order in which Go ranges over the map of
-- informers. The client that the factory holds is handed through.
pub mod Steps
pub mod Start
pub mod Runs
pub mod Waiting
pub mod Resources
use k_mesh.Base.{
  ℕ, ◌+◌, ◌≡◌, ◌↔◌, Bool, true, false, Option, none, some, List, [], ◌∷◌, ◌++◌, In, if◌then◌else◌,
}
use k_mesh.Base.Text.{Text}
use k_mesh.Base.Dict.{Dict, lookup, insert}

-- A call of `newFunc`: the informer that it returned, and its resync period.
pub record Created : Type 0 where
  pub informer : ℕ
  pub resync : ℕ

-- `sharedInformerFactory`, over the functions that tweak list options; with the addresses still
-- free, the informers created, and the goroutines started, an informer for each `informer.Run`.
pub record Factory (Tweak : Type 0) : Type 0 where
  pub namespace : Text
  pub tweak_list_options : Option Tweak
  pub default_resync : ℕ
  pub custom_resync : Dict ℕ
  pub informers : Dict ℕ
  pub started_informers : Dict Bool
  pub next : ℕ
  pub created : List Created
  pub runs : List ℕ

-- `f.startedInformers[informerType]`
abbrev pub is_started : Text → Dict Bool → Bool
is_started t d = elim (lookup t d) [ none ↦ false | some b ↦ b ]

-- `SharedInformerOption`, and what `Start` does.
abbrev pub Change : Type 0 → Type 0
Change Tweak = Factory Tweak → Factory Tweak

-- The first loop of `WaitForCacheSync`: the informers that are started.
pub started_only : Dict Bool → List (Text × ℕ) → Dict ℕ → Dict ℕ
started_only started [] informers = informers
started_only started ((t, informer) ∷ rest) informers =
    started_only started rest
      (if is_started t started then insert t informer informers else informers)

-- The second loop.
pub wait_each : (ℕ → Bool) → List (Text × ℕ) → Dict Bool → Dict Bool
wait_each synced [] res = res
wait_each synced ((t, informer) ∷ rest) res = wait_each synced rest (insert t (synced informer) res)

module _ {Tweak : Type 0} where
  -- The loop of `WithCustomResyncConfig`, over the entries of its argument by their types.
  unfoldable pub with_custom_resync_config : List (Text × ℕ) → Change Tweak
  with_custom_resync_config [] f = f
  with_custom_resync_config ((k, v) ∷ rest) f =
      with_custom_resync_config rest (record f { custom_resync = insert k v f.custom_resync })

  unfoldable pub with_tweak_list_options : Option Tweak → Change Tweak
  with_tweak_list_options t f = record f { tweak_list_options = t }

  unfoldable pub with_namespace : Text → Change Tweak
  with_namespace ns f = record f { namespace = ns }

  apply_factory_options : List (Change Tweak) → Change Tweak
  apply_factory_options [] f = f
  apply_factory_options (opt ∷ opts) f = apply_factory_options opts (opt f)

  -- `NewSharedInformerFactoryWithOptions`
  unfoldable pub new_factory_with_options : ℕ → List (Change Tweak) → Factory Tweak
  unfolding apply_factory_options
  new_factory_with_options default_resync options = apply_factory_options options (record {
    namespace = [];
    tweak_list_options = none;
    default_resync = default_resync;
    custom_resync = [];
    informers = [];
    started_informers = [];
    next = 0;
    created = [];
    runs = [];
  })

  -- `NewSharedInformerFactory`
  unfoldable pub new_factory : ℕ → Factory Tweak
  unfolding new_factory_with_options
  new_factory default_resync = new_factory_with_options default_resync []

  -- `NewFilteredSharedInformerFactory`
  unfoldable pub new_filtered_factory : ℕ → Text → Option Tweak → Factory Tweak
  unfolding new_factory_with_options with_namespace with_tweak_list_options
  new_filtered_factory default_resync ns tweak =
      new_factory_with_options default_resync
        (with_namespace ns ∷ with_tweak_list_options tweak ∷ [])

  abbrev pub resync_period : Text → Factory Tweak → ℕ
  resync_period t f = elim (lookup t f.custom_resync) [ none ↦ f.default_resync | some p ↦ p ]

  -- `InformerFor`, from the type of its object on
  unfoldable pub informer_for : Text → Factory Tweak → Factory Tweak × ℕ
  informer_for t f = elim (lookup t f.informers) [
    | some informer ↦ (f, informer)
    | none ↦ (
      record f {
        informers = insert t f.next f.informers;
        next = f.next + 1;
        created = f.created ++ record { informer = f.next; resync = resync_period t f } ∷ [];
      },
      f.next,
    )
  ]

  -- The loop of `Start`.
  pub start_loop : List (Text × ℕ) → Change Tweak
  start_loop [] f = f
  start_loop ((t, informer) ∷ rest) f = start_loop rest (
      if is_started t f.started_informers then f else record f {
        started_informers = insert t true f.started_informers;
        runs = f.runs ++ informer ∷ [];
      })

  -- `Start`
  unfoldable pub start : (Dict ℕ → List (Text × ℕ)) → Change Tweak
  unfolding start_loop
  start order f = start_loop (order f.informers) f

  -- `WaitForCacheSync`, with what `cache.WaitForCacheSync` answers for an informer
  unfoldable pub wait_for_cache_sync :
      (Dict ℕ → List (Text × ℕ)) → (ℕ → Bool) → Factory Tweak → Dict Bool
  unfolding started_only wait_each
  wait_for_cache_sync order synced f =
      wait_each synced (order (started_only f.started_informers (order f.informers) [])) []
