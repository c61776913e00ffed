-- ===== src/Injection/Context/Selected.antt =====
-- injection/informers/mesh/v1alpha1/{kmesh,brokerbinding}/filtered: the informers by selector.
use k_mesh.Base.{ℕ, Option, none, some, List, [], ◌∷◌, ◌++◌}
use k_mesh.Base.Text.{Text}
use k_mesh.Base.Dict.{lookup}
use k_mesh.Base.Result.{Result}
use k_mesh.Clientset.{Kind, ObjectList, ListOptions, Interface}
use k_mesh.Informers.Resources.{list_func, watch_func}
use k_mesh.Injection.{sets_label_selector}
use k_mesh.Injection.Context.{
  KindName, selected_factory, TypedInformer, InformerValue, shared, wrapped, Context, of_kind,
  put_filtered_informer, get_client, get_filtered_factory, typed_informer, shared_informer,
}

module _ {V : Type 0} where
  -- The body of the loop of `withInformer` of a kind's filtered package.
  unfoldable pub filtered_round : KindName → Text → Context V → Option (Context V × ℕ)
  unfolding get_filtered_factory typed_informer shared_informer
  filtered_round k s c = elim (get_filtered_factory s c) [
    | none ↦ none
    | some f ↦
        let inf = typed_informer (selected_factory s) f in
        shared_informer k inf (put_filtered_informer k s (shared inf) c)
  ]

  -- The loop, with the informers so far.
  unfoldable pub with_each_informer :
      KindName → List Text → Context V → List ℕ → Option (Context V × List ℕ)
  unfolding filtered_round
  with_each_informer k [] c infs = some (c, infs)
  with_each_informer k (s ∷ ss) c infs = elim (filtered_round k s c) [
    | none ↦ none
    | some (c', informer) ↦ with_each_informer k ss c' (infs ++ (informer ∷ []))
  ]

  -- `withInformer` of a kind's filtered package
  unfoldable pub with_filtered_informers : KindName → Context V → Option (Context V × List ℕ)
  unfolding with_each_informer
  with_filtered_informers k c = elim c.label_key [
    | none ↦ none
    | some selectors ↦ with_each_informer k selectors c []
  ]

  -- The loop of `withDynamicInformer` of a kind's filtered package.
  unfoldable pub with_each_wrapper : KindName → List Text → Context V → Option (Context V)
  unfolding get_client
  with_each_wrapper k [] c = some c
  with_each_wrapper k (s ∷ ss) c = elim (get_client c) [
    | none ↦ none
    | some v ↦ with_each_wrapper k ss (
        put_filtered_informer k s
          (wrapped (record { client = v; namespace = []; resource_version = []; selector = s })) c)
  ]

  -- `withDynamicInformer` of the same
  unfoldable pub with_dynamic_filtered_informers : KindName → Context V → Option (Context V)
  unfolding with_each_wrapper
  with_dynamic_filtered_informers k c = elim c.label_key [
    | none ↦ none
    | some selectors ↦ with_each_wrapper k selectors c
  ]

  -- `Get` of a kind's filtered package
  unfoldable pub get_filtered_informer : KindName → Text → Context V → Option (InformerValue V)
  get_filtered_informer k s c = lookup s (of_kind k c).by_selector

  -- The function that the informer was given, with the loop's variable as it stands now.
  abbrev pub tweak_function :
      {K : Kind} → TypedInformer → Context V → Option (ListOptions K → ListOptions K)
  tweak_function i c = elim i.tweak_list_options [
    | none ↦ none
    | some sets_label_selector ↦ some (λ options. elim c.filtered [
      | none ↦ options
      | some g ↦ record options { label_selector = g.selector }
    ])
  ]

  -- How the informer of `(*kMeshInformer).defaultInformer` lists, through the factory's client.
  unfoldable pub informer_list :
      {K : Kind} {Server : Type 0}
      → (Text → Interface K Server)
      → TypedInformer
      → Context V
      → ListOptions K
      → Server
      → Server × Result (ObjectList K)
  unfolding list_func
  informer_list client i c = list_func client i.namespace (tweak_function i c)

  -- How it watches.
  unfoldable pub informer_watch :
      {K : Kind} {Server : Type 0}
      → (Text → Interface K Server)
      → TypedInformer
      → Context V
      → ListOptions K
      → Server
      → Server × Result K.Watch
  unfolding watch_func
  informer_watch client i c = watch_func client i.namespace (tweak_function i c)
