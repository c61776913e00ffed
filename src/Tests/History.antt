-- ===== src/Tests/History.antt =====
-- A run in which a mesh learns a class, a broker and a trigger are seen, and reconciles run.
use k_mesh.Base.{◌≡◌, refl, inl, inr, some, List, [], ◌∷◌, In}
use k_mesh.Base.Text.{Text, text, text_eq}
use k_mesh.Base.Result.{ok}
use k_mesh.Api.{KReference, Ingress}
use k_mesh.Binding.{Broker, Caches}
use k_mesh.Binding.Ingresses.{reconcile_ingresses}
use k_mesh.Binding.Ingresses.Brokers.{IsReadyBroker}
use k_mesh.Binding.Reconcile.{cache_classes}
use k_mesh.Binding.Handlers.{
  new_caches, broker_class, broker_filter, brokers_handler, broker_reference, trigger_filter,
  trigger_handler, Handled, handled, panicked,
}
use k_mesh.Binding.Events.{
  broker, trigger, System, accept_broker, accept_trigger, run_handler, learn_classes, reconcile,
}
use k_mesh.Binding.History.{
  Moment, accepted, ran, learned, reconciled, moment, Run, start, next, RangesEach, latest, lasting,
  latest_broker,
}
use k_mesh.Binding.History.Classes.{IsLearned}
use k_mesh.Binding.History.Listed.{
  ListsAfter, Run-reconcile_ingresses_sound, Run-reconcile_ingresses_complete,
}
use k_mesh.Tests.Cluster.{binding, broker_b, trigger_t, cluster, ranges, full}
use k_mesh.Tests.Machines.{sets, sets_lawful}

abbrev mesh_uid : Text
mesh_uid = text "mesh"

abbrev after_handler : Handled → Caches
after_handler (handled s keys) = s
after_handler panicked = new_caches

abbrev after_reconcile : Caches → Caches
after_reconcile s = (reconcile_ingresses cluster binding mesh_uid s).0

-- The class is learned and opened, the broker stored, its triggers opened, and one stored.
abbrev opened : Caches
opened = after_reconcile (cache_classes sets mesh_uid (text "kafka" ∷ []) new_caches)

abbrev with_b : Caches
with_b = after_handler (brokers_handler broker_b opened)

abbrev open_b : Caches
open_b = after_reconcile with_b

abbrev with_t : Caches
with_t = after_handler (trigger_handler trigger_t open_b)

abbrev seen : List Moment
seen =
    ran (trigger trigger_t)
    ∷ accepted
    ∷ reconciled cluster
    ∷ ran (broker broker_b)
    ∷ accepted
    ∷ reconciled cluster
    ∷ learned mesh_uid (text "kafka" ∷ [])
    ∷ []

abbrev quiet : Caches → System
quiet s = record { caches = s; pending = [] }

seen_start :
    Run sets (reconciled cluster ∷ learned mesh_uid (text "kafka" ∷ []) ∷ []) (quiet opened)
unfolding moment
seen_start =
    next (next start (learn_classes mesh_uid (text "kafka" ∷ []) refl))
      (reconcile cluster binding mesh_uid refl)

seen_broker :
    Run sets
      (ran (broker broker_b)
        ∷ accepted
        ∷ reconciled cluster
        ∷ learned mesh_uid (text "kafka" ∷ [])
        ∷ [])
      (quiet with_b)
unfolding moment broker_filter broker_class brokers_handler reconcile_ingresses cache_classes
    text_eq new_caches
seen_broker =
    next {y = quiet with_b}
      (next {y = record { caches = opened; pending = broker broker_b ∷ [] }} seen_start
        (accept_broker broker_b refl refl))
      (run_handler [] [] (broker broker_b) with_b [] refl refl refl)

seen_Run : Run sets seen (quiet with_t)
unfolding moment broker_filter broker_class brokers_handler reconcile_ingresses cache_classes
    text_eq trigger_filter trigger_handler new_caches
seen_Run =
    next {y = quiet with_t}
      (next {y = record { caches = open_b; pending = trigger trigger_t ∷ [] }}
        (next {y = quiet open_b} seen_broker (reconcile cluster binding mesh_uid refl))
        (accept_trigger trigger_t refl refl))
      (run_handler [] [] (trigger trigger_t) with_t
        (record { namespace = text "ns"; name = text "binding" } ∷ []) refl refl refl)

seen_ranges : RangesEach seen
seen_ranges = (tt, (tt, (ranges, (tt, (tt, (ranges, (tt, tt)))))))

seen_done : (reconcile_ingresses cluster binding mesh_uid with_t).1 ≡ ok (full ∷ [])
unfolding brokers_handler broker_class reconcile_ingresses cache_classes text_eq trigger_handler
    new_caches
seen_done = refl

Run-reconcile_ingresses_sound_example :
    (c : Text) × (k : Text) × (bref : KReference) × (b : Broker) × IsLearned seen mesh_uid c
    × (latest_broker c k seen ≡ some bref)
    × IsReadyBroker cluster bref b
    × ListsAfter seen cluster bref b full
Run-reconcile_ingresses_sound_example =
    Run-reconcile_ingresses_sound sets seen (quiet with_t) cluster binding mesh_uid (full ∷ [])
      sets_lawful seen_Run seen_ranges ranges seen_done full (inl refl)

Run-reconcile_ingresses_complete_example :
    (i : Ingress) × In i (full ∷ [])
    × ListsAfter seen cluster (broker_reference broker_b) broker_b i
unfolding latest lasting text_eq broker_class
Run-reconcile_ingresses_complete_example =
    Run-reconcile_ingresses_complete sets seen (quiet with_t) cluster binding mesh_uid (full ∷ [])
      (text "kafka") (text "ub") (broker_reference broker_b) broker_b sets_lawful seen_Run
      seen_ranges ranges seen_done
      (text "kafka" ∷ [], inr (inr (inr (inr (inr (inr (inl refl)))))), inl refl) refl (refl, refl)
