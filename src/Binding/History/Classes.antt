-- ===== src/Binding/History/Classes.antt =====
-- The classes known for a mesh after a run: those of all bindings to it that were reconciled.
use k_mesh.Base.{◌≡◌, ◌≢◌, refl, sym, ap, subst, ◌↔◌, inl, inr, List, ◌∷◌, In, arith, Bool-cases}
use k_mesh.Base.Text.{Text, text_eq, text_eq_iff}
use k_mesh.Base.Dict.{lookup}
use k_mesh.Machinery.StringSet.{StringSet}
use k_mesh.Machinery.StringSet
use k_mesh.Api.{BrokerBinding}
use k_mesh.Binding.{Broker, Trigger, Caches, Cluster}
use k_mesh.Binding.Ingresses.{reconcile_ingresses}
use k_mesh.Binding.Reconcile.{cache_classes}
use k_mesh.Binding.Reconcile.Classes.{classes_of, cache_classes_lem}
use k_mesh.Binding.Handlers.{handled, NamespacedName, brokers_handler, trigger_handler, new_caches}
use k_mesh.Binding.Events.{
  Pending, broker, trigger, handle, System, Step, accept_broker, accept_trigger, run_handler,
  learn_classes, reconcile,
}
use k_mesh.Binding.History.{Moment, accepted, ran, learned, reconciled, moment, Run, start, next}

-- A binding with the class was reconciled for the mesh.
abbrev pub IsLearned : List Moment → Text → Text → Type 0
IsLearned h uid c = (classes : List Text) × In (learned uid classes) h × In c classes

brokers_handler-kmesh_cache :
    (b : Broker) (s t : Caches) (keys : List NamespacedName)
    → brokers_handler b s ≡ handled t keys
    → t.kmesh_cache ≡ s.kmesh_cache
unfolding brokers_handler
brokers_handler-kmesh_cache b s t keys h = ground arith

trigger_handler-kmesh_cache :
    (a : Trigger) (s t : Caches) (keys : List NamespacedName)
    → trigger_handler a s ≡ handled t keys
    → t.kmesh_cache ≡ s.kmesh_cache
unfolding trigger_handler
trigger_handler-kmesh_cache a s t keys h = ground arith

handle-kmesh_cache :
    (p : Pending) (s t : Caches) (keys : List NamespacedName)
    → handle p s ≡ handled t keys
    → t.kmesh_cache ≡ s.kmesh_cache
handle-kmesh_cache (broker b) = brokers_handler-kmesh_cache b
handle-kmesh_cache (trigger a) = trigger_handler-kmesh_cache a

-- A moment that teaches this mesh nothing.
IsLearned-cons :
    (h : List Moment) (m : Moment) (uid c : Text)
    → ((classes : List Text) → ¬ (learned uid classes ≡ m))
    → IsLearned (m ∷ h) uid c ↔ IsLearned h uid c
IsLearned-cons h m uid c other = (
  λ (classes, at, k). elim at [
    | inl e ↦ absurd (other classes e)
    | inr later ↦ (classes, later, k)
  ],
  λ (classes, at, k). (classes, inr at, k),
)

reconcile_ingresses-kmesh_cache :
    (cl : Cluster) (bb : BrokerBinding) (uid : Text) (s : Caches)
    → (reconcile_ingresses cl bb uid s).0.kmesh_cache ≡ s.kmesh_cache
unfolding reconcile_ingresses
reconcile_ingresses-kmesh_cache cl bb uid s = refl

learned-injective : {u v : Text} {cs ds : List Text} → learned u cs ≡ learned v ds → cs ≡ ds
learned-injective e = cc

learned_uid : {u v : Text} {cs ds : List Text} → learned u cs ≡ learned v ds → u ≡ v
learned_uid e = cc

module _ (S : StringSet) where
  abbrev Knows : List Moment → System → Type 0
  Knows h x = (uid c : Text) → In c (classes_of uid x.caches) ↔ IsLearned h uid c

  -- The maps of the classes stay, and the moment teaches nothing.
  Knows-same :
      (h : List Moment) (m : Moment) (x y : System)
      → y.caches.kmesh_cache ≡ x.caches.kmesh_cache
      → ((uid : Text) (classes : List Text) → ¬ (learned uid classes ≡ m))
      → Knows h x
      → Knows (m ∷ h) y
  Knows-same h m x y e other k uid c =
      let (from, to) = IsLearned-cons h m uid c (other uid) in
      rw e ((λ q. to ((k uid c).0 q), λ q. (k uid c).1 (from q)))

  Knows-learned_self :
      StringSet.IsLawful S
      → (h : List Moment) (x y : System) (u c : Text) (classes : List Text)
      → y.caches ≡ cache_classes S u classes x.caches
      → Knows h x
      → In c (classes_of u y.caches) ↔ IsLearned (learned u classes ∷ h) u c
  Knows-learned_self L h x y u c classes e k =
      let (from, to) = (cache_classes_lem S u classes x.caches L).0 c in
      rw e (
        λ q. elim (from q) [
          | inl new ↦ (classes, inl refl, new)
          | inr old ↦ let (cs, at, i) = (k u c).0 old in (cs, inr at, i)
        ],
        λ (cs, at, i). elim at [
          | inl same ↦ to (inl (subst (In c) (learned-injective same) i))
          | inr later ↦ to (inr ((k u c).1 (cs, later, i)))
        ],
      )

  Knows-learned :
      StringSet.IsLawful S
      → (h : List Moment) (x y : System) (u : Text) (classes : List Text)
      → y.caches ≡ cache_classes S u classes x.caches
      → Knows h x
      → Knows (learned u classes ∷ h) y
  Knows-learned L h x y u classes e k uid c = elim (Bool-cases (text_eq uid u)) [
    | inl same ↦
        subst (λ z. In c (classes_of z y.caches) ↔ IsLearned (learned u classes ∷ h) z c)
          (sym ((text_eq_iff uid u).0 same)) (Knows-learned_self L h x y u c classes e k)
    | inr other ↦
        let apart : uid ≢ u = λ q. ground (arith, text_eq_iff uid u) in
        let (from, to) =
          IsLearned-cons h (learned u classes) uid c (λ cs q. apart (learned_uid q)) in
        rw (e, (cache_classes_lem S u classes x.caches L).1 uid apart)
          ((λ q. to ((k uid c).0 q), λ q. (k uid c).1 (from q)))
  ]

  Step-Knows :
      StringSet.IsLawful S
      → (h : List Moment) (x y : System) (st : Step S x y) → Knows h x
      → Knows (moment st ∷ h) y
  unfolding moment
  Step-Knows L h x y (accept_broker b q e) k =
      Knows-same h accepted x y (rw e refl) (λ u cs z. cc) k
  Step-Knows L h x y (accept_trigger t q e) k =
      Knows-same h accepted x y (rw e refl) (λ u cs z. cc) k
  Step-Knows L h x y (run_handler before after p s keys at q e) k =
      Knows-same h (ran p) x y (rw e (handle-kmesh_cache p x.caches s keys q)) (λ u cs z. cc) k
  Step-Knows L h x y (learn_classes u classes e) k =
      Knows-learned L h x y u classes (ap (λ z. z.caches) e) k
  Step-Knows L h x y (reconcile cl bb u e) k =
      Knows-same h (reconciled cl) x y (rw e (reconcile_ingresses-kmesh_cache cl bb u x.caches))
        (λ v cs z. cc) k

  -- After a run, the classes known for a mesh are exactly those of the bindings to it that were
  -- reconciled in the run.
  pub Run-classes_of :
      (h : List Moment) (x : System) (uid c : Text)
      → StringSet.IsLawful S
      → Run S h x
      → In c (classes_of uid x.caches) ↔ IsLearned h uid c
  unfolding new_caches lookup
  Run-classes_of _ _ uid c L start = (λ k. absurd k, λ (cs, at, i). absurd at)
  Run-classes_of _ y uid c L (next {h} {x} r st) =
      Step-Knows L h x y st (λ u d. Run-classes_of h x u d L r) uid c
