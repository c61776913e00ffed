-- ===== src/Binding/History/Tracked.antt =====
-- The tracked brokers and triggers of a run, entry by entry.
use k_mesh.Base.{
  ◌≡◌, refl, ap, sym, ◌∙◌, Bool, true, false, Option, none, some, List, [], ◌∷◌, ◌&&◌, arith, inl,
  inr, Option-cases, if◌then◌else◌,
}
use k_mesh.Base.Text.{Text, text_eq, text_eq_iff}
use k_mesh.Base.Dict.{Dict, lookup, insert, lookup-insert}
use k_mesh.Api.{KReference}
use k_mesh.Machinery.StringSet.{StringSet}
use k_mesh.Binding.{Broker, Trigger, Caches}
use k_mesh.Binding.Ingresses.Brokers.{broker_gone}
use k_mesh.Binding.Ingresses.Egresses.{trigger_gone}
use k_mesh.Binding.Ingresses.Classes.{brokers_at}
use k_mesh.Binding.Ingresses.Listing.{triggers_at}
use k_mesh.Binding.Pruning.{Prunes}
use k_mesh.Binding.Listed.{reconcile_ingresses-pruned}
use k_mesh.Binding.Reconcile.{cache_classes}
use k_mesh.Binding.Handlers.{
  handled, NamespacedName, broker_class, brokers_handler, broker_reference, trigger_key,
  trigger_handler, trigger_reference, track_broker, track_trigger, new_caches,
}
use k_mesh.Binding.Handlers.Laws.{handled-injective, handled-ne-panicked}
use k_mesh.Binding.Events.{
  broker, trigger, System, Step, accept_broker, accept_trigger, run_handler, learn_classes,
  reconcile,
}
use k_mesh.Binding.History.{
  Moment, moment, accepted, ran, learned, reconciled, Run, start, next, RangesEach, has_class,
  heard_broker, heard_trigger, lost_broker, lost_trigger, latest, lasting,
}
use k_mesh.Binding.History.Slots.{IsBetween, Changes, IsBetween-Changes}

-- A broker's handler that returns has stored its reference for its class, and nothing else.
brokers_handler_entry :
    (b : Broker) (s t : Caches) (keys : List NamespacedName) (c uid : Text)
    → brokers_handler b s ≡ handled t keys
    → lookup uid (brokers_at c t.tracked_brokers) ≡ (
        if has_class c b && text_eq uid b.uid
        then some (broker_reference b)
        else lookup uid (brokers_at c s.tracked_brokers))
unfolding brokers_handler
brokers_handler_entry b s t keys c uid h = elim (Option-cases (broker_class b)) [
  | inl e ↦
      rw (e, has_class)
        (ap (λ (z : Caches). lookup uid (brokers_at c z.tracked_brokers))
          (sym (handled-injective (rw (e, brokers_handler) at h))))
  | inr (d, e) ↦ elim (Option-cases (lookup d s.tracked_brokers)) [
    | inl q ↦ absurd (handled-ne-panicked (rw (e, q, brokers_handler) at h))
    | inr (k, q) ↦
        let same : track_broker d b k s ≡ t = handled-injective (rw (e, q, brokers_handler) at h) in
        rw (← same) (
          ground (
            arith,
            lookup-insert c d
                (record k { broker_refs = insert b.uid (broker_reference b) k.broker_refs })
                s.tracked_brokers,
            text_eq_iff c d,
            lookup-insert uid b.uid (broker_reference b) k.broker_refs,
          ))
  ]
]

brokers_handler-triggers :
    (b : Broker) (s t : Caches) (keys : List NamespacedName)
    → brokers_handler b s ≡ handled t keys
    → t.tracked_triggers ≡ s.tracked_triggers
unfolding brokers_handler
brokers_handler-triggers b s t keys h = ground arith

trigger_handler-brokers :
    (a : Trigger) (s t : Caches) (keys : List NamespacedName)
    → trigger_handler a s ≡ handled t keys
    → t.tracked_brokers ≡ s.tracked_brokers
unfolding trigger_handler
trigger_handler-brokers a s t keys h = ground arith

-- So for a trigger, and the broker that it names.
trigger_handler_entry :
    (a : Trigger) (s t : Caches) (keys : List NamespacedName) (key uid : Text)
    → trigger_handler a s ≡ handled t keys
    → lookup uid (triggers_at key t.tracked_triggers) ≡ (
        if text_eq key (trigger_key a) && text_eq uid a.uid
        then some (trigger_reference a)
        else lookup uid (triggers_at key s.tracked_triggers))
unfolding trigger_handler
trigger_handler_entry a s t keys key uid h =
    elim (Option-cases (lookup (trigger_key a) s.tracked_triggers)) [
      | inl q ↦ absurd (handled-ne-panicked (rw (q, trigger_handler) at h))
      | inr (k, q) ↦
          let same : track_trigger a k s ≡ t = handled-injective (rw (q, trigger_handler) at h) in
          rw (← same) (
            ground (
              arith,
              lookup-insert key (trigger_key a)
                  (record k { trigger_refs = insert a.uid (trigger_reference a) k.trigger_refs })
                  s.tracked_triggers,
              text_eq_iff key (trigger_key a),
              lookup-insert uid a.uid (trigger_reference a) k.trigger_refs,
            ))
    ]

-- What keeps an entry as it is changes nothing in it.
Changes-same :
    {heard : Moment → Option KReference} {lost : Moment → KReference → Bool} (m : Moment)
    (before after : Option KReference)
    → heard m ≡ none
    → after ≡ before
    → Changes heard lost m before after
Changes-same m before after e q = record {
  stored = λ r k. cc;
  sub = λ r _ k. sym q ∙ k;
  keep = λ r _ _ k. q ∙ k;
}

-- What a handler stores is what is heard.
Changes-stored :
    {heard : Moment → Option KReference} {lost : Moment → KReference → Bool} (m : Moment)
    (before after : Option KReference) (hit : Bool) (v : KReference)
    → heard m ≡ (if hit then some v else none)
    → after ≡ (if hit then some v else before)
    → Changes heard lost m before after
Changes-stored m before after true v e q = record {
  stored = λ r k. q ∙ sym e ∙ k;
  sub = λ r k. cc;
  keep = λ r k. cc;
}
Changes-stored m before after false v e q = Changes-same m before after e q

-- A reconcile deletes from a map only what is lost.
Changes-Prunes :
    {heard : Moment → Option KReference} {lost : Moment → KReference → Bool} (m : Moment)
    (gone : KReference → Bool) (d d' : Dict KReference) (uid : Text)
    → heard m ≡ none
    → ((r : KReference) → lost m r ≡ gone r)
    → Prunes gone d d'
    → Changes heard lost m (lookup uid d) (lookup uid d')
Changes-Prunes m gone d d' uid e same p = record {
  stored = λ r k. cc;
  sub = λ r _ k. p.sub uid r k;
  keep = λ r _ l k. p.keep uid r k (sym (same r) ∙ l);
}

module _ (S : StringSet) where
  Step-Changes_broker :
      (x y : System) (c uid : Text) (st : Step S x y)
      → RangesEach (moment st ∷ [])
      → Changes
          (heard_broker c uid)
          lost_broker
          (moment st)
          (lookup uid (brokers_at c x.caches.tracked_brokers))
          (lookup uid (brokers_at c y.caches.tracked_brokers))
  unfolding moment cache_classes
  Step-Changes_broker x y c uid (accept_broker b h e) g = Changes-same accepted _ _ refl (rw e refl)
  Step-Changes_broker x y c uid (accept_trigger t h e) g =
      Changes-same accepted _ _ refl (rw e refl)
  Step-Changes_broker x y c uid (learn_classes u classes e) g =
      Changes-same (learned u classes) _ _ refl (rw e refl)
  Step-Changes_broker x y c uid (reconcile cl bb u e) g = rw e (
      Changes-Prunes (reconciled cl) (broker_gone cl) _ _ uid refl (λ r. refl)
        ((reconcile_ingresses-pruned cl g.0 bb u x.caches).1 c))
  Step-Changes_broker x y c uid (run_handler before after (broker b) s keys at h e) g = rw e (
      Changes-stored (ran (broker b)) _ _ (has_class c b && text_eq uid b.uid) (broker_reference b)
        refl (brokers_handler_entry b x.caches s keys c uid h))
  Step-Changes_broker x y c uid (run_handler before after (trigger a) s keys at h e) g =
      rw (e, trigger_handler-brokers a x.caches s keys h)
        (Changes-same (ran (trigger a)) _ _ refl refl)

  Step-Changes_trigger :
      (x y : System) (key uid : Text) (st : Step S x y)
      → RangesEach (moment st ∷ [])
      → Changes
          (heard_trigger key uid)
          lost_trigger
          (moment st)
          (lookup uid (triggers_at key x.caches.tracked_triggers))
          (lookup uid (triggers_at key y.caches.tracked_triggers))
  unfolding moment cache_classes
  Step-Changes_trigger x y key uid (accept_broker b h e) g =
      Changes-same accepted _ _ refl (rw e refl)
  Step-Changes_trigger x y key uid (accept_trigger t h e) g =
      Changes-same accepted _ _ refl (rw e refl)
  Step-Changes_trigger x y key uid (learn_classes u classes e) g =
      Changes-same (learned u classes) _ _ refl (rw e refl)
  Step-Changes_trigger x y key uid (reconcile cl bb u e) g = rw e (
      Changes-Prunes (reconciled cl) (trigger_gone cl) _ _ uid refl (λ r. refl)
        ((reconcile_ingresses-pruned cl g.0 bb u x.caches).2 key))
  Step-Changes_trigger x y key uid (run_handler before after (broker b) s keys at h e) g =
      rw (e, brokers_handler-triggers b x.caches s keys h)
        (Changes-same (ran (broker b)) _ _ refl refl)
  Step-Changes_trigger x y key uid (run_handler before after (trigger a) s keys at h e) g = rw e (
      Changes-stored (ran (trigger a)) _ _ (text_eq key (trigger_key a) && text_eq uid a.uid)
        (trigger_reference a) refl (trigger_handler_entry a x.caches s keys key uid h))

  -- In every state that a run comes to, a reference that is tracked for a class is the last one
  -- that a broker's handler stored for that class and UID; and the last one stored is tracked,
  -- unless a reconcile since has seen that its broker does not exist.
  pub Run-tracked_brokers :
      (h : List Moment) (x : System) (c uid : Text)
      → Run S h x
      → RangesEach h
      → IsBetween
          (heard_broker c uid)
          lost_broker
          h
          (lookup uid (brokers_at c x.caches.tracked_brokers))
  unfolding new_caches latest lasting lookup
  Run-tracked_brokers _ _ c uid start g = record { at_most = λ r q. cc; at_least = λ r q. cc }
  Run-tracked_brokers _ y c uid (next {h} {x} r st) (g, gs) =
      IsBetween-Changes (heard_broker c uid) lost_broker h (moment st) _ _
        (Run-tracked_brokers h x c uid r gs) (Step-Changes_broker x y c uid st (g, tt))

  -- The same for the triggers tracked for a broker.
  pub Run-tracked_triggers :
      (h : List Moment) (x : System) (key uid : Text)
      → Run S h x
      → RangesEach h
      → IsBetween
          (heard_trigger key uid)
          lost_trigger
          h
          (lookup uid (triggers_at key x.caches.tracked_triggers))
  unfolding new_caches latest lasting lookup
  Run-tracked_triggers _ _ key uid start g = record { at_most = λ r q. cc; at_least = λ r q. cc }
  Run-tracked_triggers _ y key uid (next {h} {x} r st) (g, gs) =
      IsBetween-Changes (heard_trigger key uid) lost_trigger h (moment st) _ _
        (Run-tracked_triggers h x key uid r gs) (Step-Changes_trigger x y key uid st (g, tt))
