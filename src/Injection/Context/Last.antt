-- ===== src/Injection/Context/Last.antt =====
-- What the informers of the filtered packages list.
use k_mesh.Base.{ℕ, ◌≡◌, refl, ap, ◌∙◌, inl, Option, some, List, [], ◌∷◌, In, length, arith}
use k_mesh.Base.Text.{Text}
use k_mesh.Clientset.{Kind, ListOptions, Interface}
use k_mesh.Injection.{
  sets_label_selector, Filtered, filtered_factory, with_each_selector, with_filtered_factories,
}
use k_mesh.Injection.Selectors.{
  last, with_each_selector-In, with_each_selector-selector, filtered_factory-tweak,
}
use k_mesh.Injection.Context.{
  KindName, Ambient, TypedInformer, shared, Context, get_client, with_filtered_factory,
}
use k_mesh.Injection.Context.Selected.{
  with_each_informer, with_filtered_informers, get_filtered_informer, informer_list, informer_watch,
}
use k_mesh.Injection.Context.Loop.{HasFactories, with_each_informer-LoopDone}

module _ {V : Type 0} (c : Context V) (scope : Option Text) (resync : ℕ) (s : Text)
    (ss : List Text) where
  -- The factories of the context after the loop over the selectors.
  abbrev made : Filtered
  made = with_each_selector scope resync (s ∷ ss) (record { factories = []; selector = [] })

  made-HasFactories : HasFactories (s ∷ ss) (last s ss) (record c { filtered = some made })
  made-HasFactories = record {
    filtered = made;
    held = refl;
    ended =
        with_each_selector-selector scope resync s ss (record { factories = []; selector = [] });
    each = λ q i. (
      filtered_factory scope resync,
      with_each_selector-In scope resync q (s ∷ ss) (record { factories = []; selector = [] }) i,
      filtered_factory-tweak scope resync,
    );
  }

with_filtered_informers_labels :
    {V : Type 0} (k : KindName) (labels : List Text) (c : Context V)
    → c.label_key ≡ some labels
    → with_filtered_informers k c ≡ with_each_informer k labels c []
unfolding with_filtered_informers
with_filtered_informers_labels k labels c e = simp (e, with_filtered_informers)

module _ {V : Type 0} {K : Kind} {Server : Type 0} (client : Text → Interface K Server) where
  -- The informer lists and watches by one selector, whatever the options say.
  pub record ListsBy (i : TypedInformer) (c : Context V) (selector : Text) : Type 0 where
    pub list :
        (options : ListOptions K) (srv : Server)
        → informer_list client i c options srv
          ≡ (client i.namespace).list (record options { label_selector = selector }) srv
    pub watch :
        (options : ListOptions K) (srv : Server)
        → informer_watch client i c options srv
          ≡ (client i.namespace).watch (record options { label_selector = selector }) srv

  HasFactories-ListsBy :
      (i : TypedInformer) (ss : List Text) (final : Text) (c : Context V)
      → i.tweak_list_options ≡ some sets_label_selector
      → HasFactories ss final c
      → ListsBy i c final
  unfolding informer_list informer_watch
  HasFactories-ListsBy i ss final c t h = record {
    list = λ options srv.
        rw (t, h.held, informer_list)
          (ap (λ l. (client i.namespace).list (record options { label_selector = l }) srv) h.ended);
    watch = λ options srv.
        rw (t, h.held, informer_watch)
          (ap (λ l. (client i.namespace).watch (record options { label_selector = l }) srv)
            h.ended);
  }

  -- The set-up of the filtered packages of a kind, in a context with a client and with selectors,
  -- succeeds and starts an informer for each selector; who gets the informer of any of the
  -- selectors has one that lists and watches by the last of them.
  pub with_filtered_informers-last :
      {Dyn : Type 0} (am : Ambient Dyn) (k : KindName) (c : Context V) (v : V) (s : Text)
      (ss : List Text)
      → get_client c ≡ some v
      → c.label_key ≡ some (s ∷ ss)
      → (c₁ : Context V) × (c₂ : Context V) × (infs : List ℕ) × (with_filtered_factory am c
          ≡ some c₁)
        × (with_filtered_informers k c₁ ≡ some (c₂, infs))
        × (length infs ≡ length (s ∷ ss))
        × ((q : Text)
            → In q (s ∷ ss)
            → (i : TypedInformer) × (get_filtered_informer k q c₂ ≡ some (shared i))
              × ListsBy i c₂ (last s ss))
  unfolding with_filtered_factory with_filtered_informers with_filtered_factories
  with_filtered_informers-last am k c v s ss e l =
      let c₁ : Context V = record c { filtered = some (made c am.scope am.resync s ss) } in
      let d =
        with_each_informer-LoopDone k (s ∷ ss) (last s ss) (s ∷ ss) c₁ [] (λ q i. i)
          (made-HasFactories c am.scope am.resync s ss) in
      (
        c₁,
        d.after,
        d.all,
        simp (e, l, with_filtered_factory, with_filtered_factories),
        with_filtered_informers_labels k (s ∷ ss) c₁ l ∙ d.ran,
        omega (arith, d.counted),
        λ q i.
            let (inf, got, t) = d.each q (inl i) in
            (inf, got, HasFactories-ListsBy inf (s ∷ ss) (last s ss) d.after t d.factories),
      )
