-- ===== src/Binding/Events.antt =====
-- The broker-binding controller as a system of interleaved steps. A filter runs without the
-- lock, so that anything may happen between an event's filter and its handler; a handler, the
-- update of the classes of a mesh and `reconcileIngresses` each run under the lock, as one step.
use k_mesh.Base.{◌≡◌, ◌≢◌, ap, sym, subst, true, List, [], ◌∷◌, ◌++◌, All}
use k_mesh.Base.Text.{Text}
use k_mesh.Api.{BrokerBinding}
use k_mesh.Machinery.StringSet.{StringSet}
use k_mesh.Binding.{Broker, Trigger, Caches, Cluster}
use k_mesh.Binding.Ingresses.{reconcile_ingresses}
use k_mesh.Binding.Ingresses.Growth.{reconcile_ingresses-Grows}
use k_mesh.Binding.Reconcile.{cache_classes}
use k_mesh.Binding.Handlers.{
  object, Handled, handled, panicked, NamespacedName, new_caches, broker_filter, brokers_handler,
  trigger_filter, trigger_handler,
}
use k_mesh.Binding.Handlers.Laws.{
  CachesGrow, broker_filter-CachesGrow, trigger_filter-CachesGrow, brokers_handler-CachesGrow,
  trigger_handler-CachesGrow, brokers_handler_accepted, trigger_handler_accepted,
}

-- An event whose filter has passed and whose handler is still to run.
pub data Pending : Type 0 where
  broker : Broker → Pending
  trigger : Trigger → Pending

pub record System : Type 0 where
  pub caches : Caches
  pub pending : List Pending

abbrev pub handle : Pending → Caches → Handled
handle (broker b) s = brokers_handler b s
handle (trigger t) s = trigger_handler t s

-- Informers accept and handle events; reconciles run for any binding, mesh and cluster.
pub data Step (S : StringSet) (x y : System) : Type 0 where
  accept_broker :
      (b : Broker)
      → broker_filter (object b) x.caches ≡ true
      → y ≡ record x { pending = broker b ∷ x.pending }
      → Step S x y
  accept_trigger :
      (t : Trigger)
      → trigger_filter (object t) x.caches ≡ true
      → y ≡ record x { pending = trigger t ∷ x.pending }
      → Step S x y
  run_handler :
      (before after : List Pending) (p : Pending) (s : Caches) (keys : List NamespacedName)
      → x.pending ≡ before ++ (p ∷ after)
      → handle p x.caches ≡ handled s keys
      → y ≡ record { caches = s; pending = before ++ after }
      → Step S x y
  learn_classes :
      (uid : Text) (classes : List Text)
      → y ≡ record x { caches = cache_classes S uid classes x.caches }
      → Step S x y
  reconcile :
      (cl : Cluster) (bb : BrokerBinding) (uid : Text)
      → y ≡ record x { caches = (reconcile_ingresses cl bb uid x.caches).0 }
      → Step S x y

pub data Reach (S : StringSet) : System → Type 0 where
  start : Reach S (record { caches = new_caches; pending = [] })
  next : {x y : System} → Reach S x → Step S x y → Reach S y

abbrev IsAccepted : Caches → Pending → Type 0
IsAccepted s (broker b) = broker_filter (object b) s ≡ true
IsAccepted s (trigger t) = trigger_filter (object t) s ≡ true

IsAccepted-CachesGrow :
    (s t : Caches) → CachesGrow s t → (p : Pending) → IsAccepted s p → IsAccepted t p
IsAccepted-CachesGrow s t g (broker b) h = broker_filter-CachesGrow b s t g h
IsAccepted-CachesGrow s t g (trigger a) h = trigger_filter-CachesGrow a s t g h

All-CachesGrow :
    (s t : Caches)
    → CachesGrow s t
    → (ps : List Pending) → All (IsAccepted s) ps
    → All (IsAccepted t) ps
All-CachesGrow s t g [] h = tt
All-CachesGrow s t g (p ∷ ps) (h, hs) =
    (IsAccepted-CachesGrow s t g p h, All-CachesGrow s t g ps hs)

All-remove :
    (s : Caches) (before after : List Pending) (p : Pending)
    → All (IsAccepted s) (before ++ (p ∷ after))
    → All (IsAccepted s) (before ++ after)
All-remove s [] after p (_, h) = h
All-remove s (q ∷ before) after p (k, h) = (k, All-remove s before after p h)

handle-CachesGrow :
    (p : Pending) (s t : Caches) (keys : List NamespacedName)
    → handle p s ≡ handled t keys
    → CachesGrow s t
handle-CachesGrow (broker b) = brokers_handler-CachesGrow b
handle-CachesGrow (trigger a) = trigger_handler-CachesGrow a

-- Every step of the system keeps what is tracked.
pub Step-CachesGrow : (S : StringSet) (x y : System) → Step S x y → CachesGrow x.caches y.caches
unfolding cache_classes
Step-CachesGrow S x y (accept_broker b h e) = rw e (λ k q. q, λ k q. q)
Step-CachesGrow S x y (accept_trigger t h e) = rw e (λ k q. q, λ k q. q)
Step-CachesGrow S x y (run_handler before after p s keys at h e) =
    rw e (handle-CachesGrow p x.caches s keys h)
Step-CachesGrow S x y (learn_classes uid classes e) = rw e (λ k q. q, λ k q. q)
Step-CachesGrow S x y (reconcile cl bb uid e) = rw e (reconcile_ingresses-Grows cl bb uid x.caches)

Step-IsAccepted_same_pending :
    (S : StringSet) (x y : System)
    → Step S x y
    → y.pending ≡ x.pending
    → All (IsAccepted x.caches) x.pending
    → All (IsAccepted y.caches) y.pending
Step-IsAccepted_same_pending S x y st e h =
    subst (All (IsAccepted y.caches)) (sym e)
      (All-CachesGrow x.caches y.caches (Step-CachesGrow S x y st) x.pending h)

Step-IsAccepted :
    (S : StringSet) (x y : System)
    → Step S x y
    → All (IsAccepted x.caches) x.pending
    → All (IsAccepted y.caches) y.pending
Step-IsAccepted S x y (accept_broker b k e) h = rw e (k, h)
Step-IsAccepted S x y (accept_trigger t k e) h = rw e (k, h)
Step-IsAccepted S x y (run_handler before after p s keys at k e) h = rw e (
    All-CachesGrow x.caches s (handle-CachesGrow p x.caches s keys k) (before ++ after)
      (All-remove x.caches before after p (subst (All (IsAccepted x.caches)) at h)))
Step-IsAccepted S x y (learn_classes uid classes e) h =
    Step-IsAccepted_same_pending S x y (learn_classes uid classes e) (ap (λ z. z.pending) e) h
Step-IsAccepted S x y (reconcile cl bb uid e) h =
    Step-IsAccepted_same_pending S x y (reconcile cl bb uid e) (ap (λ z. z.pending) e) h

Reach-IsAccepted : (S : StringSet) {x : System} → Reach S x → All (IsAccepted x.caches) x.pending
Reach-IsAccepted S start = tt
Reach-IsAccepted S (next {x} {y} r st) = Step-IsAccepted S x y st (Reach-IsAccepted S r)

handle_accepted : (s : Caches) (p : Pending) → IsAccepted s p → handle p s ≢ panicked
handle_accepted s (broker b) h = let (c, t, e, q, _) = brokers_handler_accepted b s h in λ k. cc
handle_accepted s (trigger a) h = let (t, k', e, q, _) = trigger_handler_accepted a s h in λ k. cc

All-get :
    (P : Pending → Type 0) (before after : List Pending) (p : Pending)
    → All P (before ++ (p ∷ after))
    → P p
All-get P [] after p h = h.0
All-get P (q ∷ before) after p h = All-get P before after p h.1

-- In every reachable state each accepted event can be handled: its handler does not write to a
-- nil map, whatever ran between its filter and now.
pub Reach-handle :
    (S : StringSet) (x : System) (before after : List Pending) (p : Pending)
    → Reach S x
    → x.pending ≡ before ++ (p ∷ after)
    → handle p x.caches ≢ panicked
Reach-handle S x before after p r e =
    handle_accepted x.caches p
      (All-get (IsAccepted x.caches) before after p (rw e at (Reach-IsAccepted S r)))
