-- ===== src/Clientset/Simple.antt =====
-- pkg/client/clientset/versioned/fake/clientset_generated.go: the clientset for tests, on the object
-- tracker of client-go, which is a parameter.
use mathlib.Core.Option.{some-injective}
use k_mesh.Base.{
  ◌≡◌, ◌↔◌, refl, ap, subst, ◌∙◌, inl, inr, Bool, true, false, Option, none, some, List, [], ◌∷◌,
  Option-cases,
}
use k_mesh.Base.Text.{Text, text}
use k_mesh.Base.Result.{Err, Result, ok, err}
use k_mesh.Clientset.{GroupVersionResource}

-- `testing.ObjectTracker`, over the objects and the watches
pub record Tracker : Type 1 where
  pub Object : Type 0
  pub Watch : Type 0
  pub State : Type 0
  -- `testing.NewObjectTracker`
  pub empty : State
  pub add : Object → State → State × Option Err
  pub watch : GroupVersionResource → Text → State → State × Result Watch

-- What a watch reactor returns: whether it handled the action, the watch, and the error.
pub record WatchReaction (T : Tracker) : Type 0 where
  pub handled : Bool
  pub ret : Option T.Watch
  pub failure : Option Err

-- `Clientset` as it is made: the tracker, and the resources that its two reactors, the reaction of the tracker
-- and the watch reaction, are for. The clients and the discovery point to the same `testing.Fake`.
pub record SimpleClientset (T : Tracker) : Type 0 where
  pub tracker : T.State
  pub reactors : List (Text × Text)
  pub watch_reactors : List Text

module _ (T : Tracker) where
  -- The loop over the objects; `none` is the panic.
  unfoldable pub add_objects : List T.Object → T.State → Option T.State
  add_objects [] s = some s
  add_objects (o ∷ os) s =
      let (s', e) = T.add o s in
      let rest = add_objects os s' in elim e [ none ↦ rest | some x ↦ none ]

  -- `NewSimpleClientset`
  unfoldable pub new_simple_clientset : List T.Object → Option (SimpleClientset T)
  unfolding add_objects
  new_simple_clientset objects = elim (add_objects objects T.empty) [
    | none ↦ none
    | some s ↦ some (record {
      tracker = s;
      reactors = (text "*", text "*") ∷ [];
      watch_reactors = text "*" ∷ [];
    })
  ]

  -- The function that is added as a watch reactor.
  unfoldable pub watch_reactor : GroupVersionResource → Text → T.State → T.State × WatchReaction T
  watch_reactor gvr ns s =
      let (s', r) = T.watch gvr ns s in
      elim r [
        | err e ↦ (s', record { handled = false; ret = none; failure = some e })
        | ok w ↦ (s', record { handled = true; ret = some w; failure = none })
      ]

  -- The tracker that took every object, the first one first.
  pub data Added : List T.Object → T.State → T.State → Type 0 where
    none_added : {s : T.State} → Added [] s s
    one_added :
        {o : T.Object} {os : List T.Object} {s t u : T.State}
        → T.add o s ≡ (t, none)
        → Added os t u
        → Added (o ∷ os) s u

  add_objects-some : (os : List T.Object) (s u : T.State) → add_objects os s ≡ some u → Added os s u
  unfolding add_objects
  add_objects-some [] s u h = subst (Added [] s) (some-injective _ _ h) none_added
  add_objects-some (o ∷ os) s u h = elim (Option-cases (T.add o s).1) [
    | inl e ↦
        one_added (ap (λ z. ((T.add o s).0, z)) e)
          (add_objects-some os (T.add o s).0 u (rw (e, add_objects) at h))
    | inr (x, e) ↦ cc (rw (e, add_objects) at h)
  ]

  Added-add_objects :
      {os : List T.Object} {s u : T.State} → Added os s u → add_objects os s ≡ some u
  unfolding add_objects
  Added-add_objects none_added = refl
  Added-add_objects (one_added {os = os} e k) =
      rw (ap (λ z. z.1) e, add_objects) (ap (λ z. add_objects os z.0) e ∙ Added-add_objects k)

  -- The clientset is made, without a panic, exactly if each object is added without an error to
  -- what the ones before it left, and its tracker is what that leaves.
  pub new_simple_clientset-Added :
      (os : List T.Object) (u : T.State)
      → ((cs : SimpleClientset T) × (new_simple_clientset os ≡ some cs) × (cs.tracker ≡ u))
        ↔ Added os T.empty u
  unfolding new_simple_clientset
  new_simple_clientset-Added os u = (
    λ (cs, made, same). elim (Option-cases (add_objects os T.empty)) [
      | inl e ↦ cc (rw (e, new_simple_clientset) at made)
      | inr (s, e) ↦ add_objects-some os T.empty u (
          e
          ∙ ap some (
              ap (λ c. c.tracker) (some-injective _ _ (rw (e, new_simple_clientset) at made))
              ∙ same))
    ],
    λ k. rw (Added-add_objects k, new_simple_clientset) ((_, refl, refl)),
  )
