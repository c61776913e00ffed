-- ===== src/Tests/Factories.antt =====
-- A factory for one namespace whose two informers are requested and started.
use k_mesh.Informers.Waiting.{wait_for_cache_sync-is_started}
use k_mesh.Base.{true, ◌==◌, ℕ, ◌≡◌, ◌↔◌, refl, some, List, [], ◌∷◌, In, NoRepeats, map}
use k_mesh.Base.Text.{Text, text}
use k_mesh.Base.Dict.{lookup}
use k_mesh.Informers.{
  Factory, new_factory_with_options, informer_for, start, is_started, wait_for_cache_sync,
}
use k_mesh.Informers.Steps.{
  RangesOver, Setting, namespace_setting, change, done, more, request, begin, Reachable,
}
use k_mesh.Informers.Runs.{Reachable-start}
use k_mesh.Informers.Resources.{mesh_type, binding_type}
use k_mesh.Tests.Maps.{entries, In-entries}

ranges_over : RangesOver entries
ranges_over = In-entries

abbrev settings : List (Setting ℕ)
settings = namespace_setting (text "knative-mesh") ∷ []

abbrev fresh : Factory ℕ
fresh = new_factory_with_options 30 (map change settings)

abbrev requested : Factory ℕ
requested = (informer_for mesh_type fresh).0

abbrev started : Factory ℕ
started = start entries requested

-- Started with the informer of meshes, and then asked for that of bindings.
abbrev factory : Factory ℕ
factory = (informer_for binding_type started).0

factory-Reachable : Reachable entries 30 settings factory
factory-Reachable =
    more (more (more done (request mesh_type refl)) (begin refl)) (request binding_type refl)

Reachable-start_example :
    NoRepeats factory.runs
    × ((j k : Text) (v : ℕ)
        → lookup j factory.informers ≡ some v
        → lookup k factory.informers ≡ some v
        → j ≡ k)
    × NoRepeats (start entries factory).runs
    × ((v : ℕ)
        → In v (start entries factory).runs ↔ ((k : Text) × (lookup k factory.informers ≡ some v)))
Reachable-start_example = Reachable-start entries ranges_over 30 settings factory factory-Reachable

-- The cache of the first informer is synced.
wait_for_cache_sync-is_started_example :
    (lookup mesh_type (wait_for_cache_sync entries (λ i. i == 0) factory) ≡ some true) ↔ (
      (i : ℕ) × (lookup mesh_type factory.informers ≡ some i)
      × (is_started mesh_type factory.started_informers ≡ true)
      × ((i == 0) ≡ true))
wait_for_cache_sync-is_started_example =
    wait_for_cache_sync-is_started entries ranges_over (λ i. i == 0) factory mesh_type true
