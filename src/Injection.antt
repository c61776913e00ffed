-- ===== src/Injection.antt =====
-- pkg/client/injection/informers: the factories of informers that a context holds, and the lister
-- that reads through a client where there is no informer. A context's value under a key is an entry
-- of a map; resource versions, and what the options hold besides, are handed through.
pub mod Selectors
pub mod Context
pub mod Kinds
use k_mesh.Base.{ℕ, Bool, true, false, Option, none, some, List, [], ◌∷◌}
use k_mesh.Base.Text.{Text}
use k_mesh.Base.Dict.{Dict, lookup, insert}
use k_mesh.Base.Result.{Err, Result, ok, err}
use k_mesh.Clientset.{Kind, ObjectList, ListOptions, Interface}
use k_mesh.Informers.{
  Factory, Change, with_namespace, with_tweak_list_options, new_factory_with_options,
}

-- The function that the filtered factories are given: it sets the label selector to the variable
-- `selector` of the loop.
pub data Tweak : Type 0 where
  sets_label_selector : Tweak

-- The context's factories by their selectors, and the variable of the loop, of which Go 1.16, the
-- version of go.mod, has one for all rounds.
pub record Filtered : Type 0 where
  pub factories : Dict (Factory Tweak)
  pub selector : Text

-- `if injection.HasNamespaceScope(ctx)`
abbrev pub scoped : {T : Type 0} → Option Text → List (Change T) → List (Change T)
scoped none options = options
scoped (some namespace) options = with_namespace namespace ∷ options

-- `withInformerFactory` of the package factory
unfoldable pub with_informer_factory : {T : Type 0} → Option Text → ℕ → Factory T
unfolding new_factory_with_options with_namespace
with_informer_factory scope resync = new_factory_with_options resync (scoped scope [])

-- The factory that a round of the loop makes.
unfoldable pub filtered_factory : Option Text → ℕ → Factory Tweak
unfolding new_factory_with_options with_namespace with_tweak_list_options
filtered_factory scope resync =
    new_factory_with_options resync
      (scoped scope (with_tweak_list_options (some sets_label_selector) ∷ []))

-- A round of the loop: the variable is set, and the factory is put under the selector.
unfoldable pub selector_round : Option Text → ℕ → Text → Filtered → Filtered
unfolding filtered_factory
selector_round scope resync s c = record {
  factories = insert s (filtered_factory scope resync) c.factories;
  selector = s;
}

-- The loop over the selectors.
unfoldable pub with_each_selector : Option Text → ℕ → List Text → Filtered → Filtered
unfolding selector_round
with_each_selector scope resync [] c = c
with_each_selector scope resync (s ∷ ss) c =
    with_each_selector scope resync ss (selector_round scope resync s c)

-- `withInformerFactory` of the package filtered; `none` is the panic without a label key
unfoldable pub with_filtered_factories : Option Text → ℕ → Option (List Text) → Option Filtered
unfolding with_each_selector
with_filtered_factories scope resync none = none
with_filtered_factories scope resync (some selectors) =
    some (with_each_selector scope resync selectors (record { factories = []; selector = [] }))

-- `Get` of the package filtered; `none` is a panic
unfoldable pub get_filtered : Text → Filtered → Option (Factory Tweak)
get_filtered selector c = lookup selector c.factories

-- The options with which an informer of the factory lists, once the loop has ended.
unfoldable pub tweaked_options :
    {K : Kind} → Filtered → Factory Tweak → ListOptions K → ListOptions K
tweaked_options c f options = elim f.tweak_list_options [
  | none ↦ options
  | some sets_label_selector ↦ record options { label_selector = c.selector }
]

-- What `wrapper` reads of the API machinery: the text of a selector, the requirements of one, and
-- the options with a resource version.
pub record Labels (K : Kind) : Type 1 where
  pub Selector : Type 0
  pub Requirements : Type 0
  pub selector_string : Selector → Text
  pub parse_to_requirements : Text → Result Requirements
  pub add : Requirements → Selector → Selector
  pub list_at : Text → K.Options
  pub get_at : Text → K.Options

-- `wrapper`, of the plain package (with a resource version) or of the filtered one (with a selector)
pub record Wrapper (K : Kind) (Server : Type 0) : Type 0 where
  pub client : Text → Interface K Server
  pub namespace : Text
  pub resource_version : Text
  pub selector : Text

module _ {K : Kind} {Server : Type 0} (B : Labels K) where
  -- `KMeshes` and `BrokerBindings`
  unfoldable pub wrapper_in_namespace : Text → Wrapper K Server → Wrapper K Server
  wrapper_in_namespace namespace w = record w { namespace = namespace }

  -- `SetResourceVersion`
  unfoldable pub set_resource_version : Text → Wrapper K Server → Wrapper K Server
  set_resource_version version w = record w { resource_version = version }

  abbrev pub items_of : Server × Result (ObjectList K) → Server × Result (List K.Object)
  items_of (s, err e) = (s, err e)
  items_of (s, ok lo) = (s, ok lo.items)

  -- `List`
  unfoldable pub wrapper_list :
      Wrapper K Server → B.Selector → Server → Server × Result (List K.Object)
  wrapper_list w selector s = items_of (
      (w.client w.namespace).list
        (record {
          label_selector = B.selector_string selector;
          timeout_seconds = none;
          watch = false;
          other = B.list_at w.resource_version;
        })
        s)

  -- `List` of the filtered package
  unfoldable pub filtered_wrapper_list :
      Wrapper K Server → B.Selector → Server → Server × Result (List K.Object)
  filtered_wrapper_list w selector s = elim (B.parse_to_requirements w.selector) [
    | err e ↦ (s, err e)
    | ok reqs ↦ items_of (
        (w.client w.namespace).list
          (record {
            label_selector = B.selector_string (B.add reqs selector);
            timeout_seconds = none;
            watch = false;
            other = B.list_at [];
          })
          s)
  ]

  -- `Get`
  unfoldable pub wrapper_get : Wrapper K Server → Text → Server → Server × Result K.Object
  wrapper_get w name = (w.client w.namespace).get name (B.get_at w.resource_version)

  -- `Get` of the filtered package
  unfoldable pub filtered_wrapper_get : Wrapper K Server → Text → Server → Server × Result K.Object
  filtered_wrapper_get w name = (w.client w.namespace).get name (B.get_at [])
