-- ===== src/Binding/Handlers/Laws.antt =====
-- What the handlers do to the caches, and how a filter protects its handler.
use k_mesh.Base.{
  ◌≡◌, inl, inr, true, ◌&&◌, subst, Option, none, some, List, [], ◌∷◌, arith, if◌then◌else◌,
  Option-cases,
}
use k_mesh.Base.Text.{Text, text_eq, text_eq_iff}
use k_mesh.Base.Dict.{lookup, insert, lookup-insert}
use k_mesh.Binding.{Broker, Trigger, Caches, TriggerBrokerCache}
use k_mesh.Binding.Tracking.{Has, Grows, insert-Grows}
use k_mesh.Binding.Ingresses.Listing.{triggers_at}
use k_mesh.Binding.Ingresses.Classes.{brokers_at}
use k_mesh.Binding.Handlers.{
  object, handled, panicked, NamespacedName, is_some, broker_class, broker_filter, brokers_handler,
  broker_reference, trigger_key, trigger_filter, trigger_handler, trigger_reference, track_broker,
  track_trigger,
}

-- Both maps of tracked things only grow.
abbrev pub CachesGrow : Caches → Caches → Type 0
CachesGrow s t =
    Grows s.tracked_brokers t.tracked_brokers × Grows s.tracked_triggers t.tracked_triggers

broker_filter-Has :
    (b : Broker) (s : Caches)
    → broker_filter (object b) s ≡ true
    → (c : Text) × (broker_class b ≡ some c) × Has s.tracked_brokers c
unfolding broker_filter
broker_filter-Has b s h = ground arith

pub broker_filter-CachesGrow :
    (b : Broker) (s t : Caches)
    → CachesGrow s t
    → broker_filter (object b) s ≡ true
    → broker_filter (object b) t ≡ true
unfolding broker_filter
broker_filter-CachesGrow b s t g h =
    let (c, e, has) = broker_filter-Has b s h in rw (e, broker_filter) (g.0 c has)

pub trigger_filter-CachesGrow :
    (a : Trigger) (s t : Caches)
    → CachesGrow s t
    → trigger_filter (object a) s ≡ true
    → trigger_filter (object a) t ≡ true
unfolding trigger_filter
trigger_filter-CachesGrow a s t g h = g.1 (trigger_key a) h

is_some-ne-none : {A : Type 0} (o : Option A) → o ≡ none → is_some o ≡ true → ⊥
is_some-ne-none none e h = cc
is_some-ne-none (some a) e h = cc

pub handled-injective :
    {s t : Caches} {k l : List NamespacedName} → handled s k ≡ handled t l → s ≡ t
handled-injective h = cc

pub handled-ne-panicked : {s : Caches} {k : List NamespacedName} → panicked ≡ handled s k → ⊥
handled-ne-panicked h = cc

CachesGrow-refl : (s : Caches) → CachesGrow s s
CachesGrow-refl s = (λ k h. h, λ k h. h)

pub brokers_handler-CachesGrow :
    (b : Broker) (s t : Caches) (keys : List NamespacedName)
    → brokers_handler b s ≡ handled t keys
    → CachesGrow s t
unfolding brokers_handler
brokers_handler-CachesGrow b s t keys h = elim (Option-cases (broker_class b)) [
  | inl e ↦
      subst (CachesGrow s) (handled-injective (rw (e, brokers_handler) at h)) (CachesGrow-refl s)
  | inr (c, e) ↦ elim (Option-cases (lookup c s.tracked_brokers)) [
    | inl q ↦ absurd (handled-ne-panicked (rw (e, q, brokers_handler) at h))
    | inr (k, q) ↦
        subst (CachesGrow s) (handled-injective (rw (e, q, brokers_handler) at h))
          (insert-Grows c _ s.tracked_brokers, λ j x. x)
  ]
]

pub trigger_handler-CachesGrow :
    (a : Trigger) (s t : Caches) (keys : List NamespacedName)
    → trigger_handler a s ≡ handled t keys
    → CachesGrow s t
unfolding trigger_handler
trigger_handler-CachesGrow a s t keys h =
    elim (Option-cases (lookup (trigger_key a) s.tracked_triggers)) [
      | inl q ↦ absurd (handled-ne-panicked (rw (q, trigger_handler) at h))
      | inr (k, q) ↦
          subst (CachesGrow s) (handled-injective (rw (q, trigger_handler) at h))
            (λ j x. x, insert-Grows (trigger_key a) _ s.tracked_triggers)
    ]

-- A broker that the filter accepts is handled without a panic, and stored for its class under
-- its UID; every other reference, of this class and of the others, stays as it was.
pub brokers_handler_accepted :
    (b : Broker) (s : Caches)
    → broker_filter (object b) s ≡ true
    → (c : Text) × (t : Caches) × (broker_class b ≡ some c)
      × (brokers_handler b s ≡ handled t [])
      × ((d uid : Text)
          → lookup uid (brokers_at d t.tracked_brokers) ≡ (
              if text_eq d c && text_eq uid b.uid
              then some (broker_reference b)
              else lookup uid (brokers_at d s.tracked_brokers)))
unfolding brokers_handler
brokers_handler_accepted b s h =
    let (c, e, has) = broker_filter-Has b s h in
    elim (Option-cases (lookup c s.tracked_brokers)) [
      | inl q ↦ absurd (is_some-ne-none (lookup c s.tracked_brokers) q has)
      | inr (k, q) ↦ (
        c,
        track_broker c b k s,
        e,
        rw (e, q, brokers_handler),
        λ d uid. ground (
          arith,
          lookup-insert d c
              (record k { broker_refs = insert b.uid (broker_reference b) k.broker_refs })
              s.tracked_brokers,
          text_eq_iff d c,
          lookup-insert uid b.uid (broker_reference b) k.broker_refs,
        ),
      )
    ]

-- A trigger of a tracked broker is handled without a panic: it is stored for that broker under
-- its UID, every other reference stays as it was, and one key is enqueued, which is the namespace
-- and the name of the binding that tracks the broker.
pub trigger_handler_accepted :
    (a : Trigger) (s : Caches)
    → trigger_filter (object a) s ≡ true
    → (t : Caches) × (cache : TriggerBrokerCache) × (lookup (trigger_key a) s.tracked_triggers
        ≡ some cache)
      × (trigger_handler a s
          ≡ handled t (
              record {
                namespace = cache.broker_binding.meta.namespace;
                name = cache.broker_binding.meta.name;
              }
              ∷ []))
      × ((d uid : Text)
          → lookup uid (triggers_at d t.tracked_triggers) ≡ (
              if text_eq d (trigger_key a) && text_eq uid a.uid
              then some (trigger_reference a)
              else lookup uid (triggers_at d s.tracked_triggers)))
unfolding trigger_handler trigger_filter
trigger_handler_accepted a s h = elim (Option-cases (lookup (trigger_key a) s.tracked_triggers)) [
  | inl q ↦ absurd (is_some-ne-none (lookup (trigger_key a) s.tracked_triggers) q h)
  | inr (k, q) ↦ (
    track_trigger a k s,
    k,
    q,
    rw (q, trigger_handler),
    λ d uid. ground (
      arith,
      lookup-insert d (trigger_key a)
          (record k { trigger_refs = insert a.uid (trigger_reference a) k.trigger_refs })
          s.tracked_triggers,
      text_eq_iff d (trigger_key a),
      lookup-insert uid a.uid (trigger_reference a) k.trigger_refs,
    ),
  )
]
