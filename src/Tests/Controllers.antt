-- ===== src/Tests/Controllers.antt =====
-- A leader's promotion on small inputs.
use k_mesh.Base.{ℕ, ◌≡◌, refl, false, none, some, List, [], ◌∷◌, ◌++◌, filter_map, ◌%◌, ◌==◌}
use k_mesh.Base.Text.{Text, text}
use k_mesh.Base.Result.{ok}
use k_mesh.Clientset.{Kind}
use k_mesh.Listers.{Indexer}
use k_mesh.Controllers.{
  ControllerOptions, Built, NamespacedName, new_impl, promote_func, apply_each,
  apply_controller_options, dotted,
}
use k_mesh.Controllers.Options.{foldl, accepted_key, promote_func-new_impl}

-- A kind whose objects are numbers in one namespace, and a filter for the even ones.
abbrev numbers : Kind
numbers = record {
  Object = ℕ;
  ListMeta = ℕ;
  Options = ℕ;
  Bytes = ℕ;
  Watch = ℕ;
  resource = text "numbers";
  singular = text "number";
  kind = text "Number";
  namespace_of = λ n. text "a";
  name_of = λ n. n ∷ [];
  labels_of = λ n. [];
  with_kind = λ k n. n;
}

abbrev indexer : Indexer numbers
indexer = record {
  Selector = ℕ;
  list_all = λ _. (1 ∷ 2 ∷ 4 ∷ [], none);
  list_all_by_namespace = λ ns _. (1 ∷ 2 ∷ 4 ∷ [], none);
  get_by_key = λ k. ok none;
}

abbrev options : ControllerOptions ℕ ℕ ℕ
options = record {
  config_store = none;
  finalizer_name = [];
  agent_name = text "agent";
  skip_status_updates = false;
  demote_func = none;
  promote_filter_func = some (λ n. n % 2 == 0);
}

abbrev built : Built ℕ ℕ ℕ
built = record {
  config_store = none;
  finalizer_name = text "numbers.example";
  agent_name = text "agent";
  skip_status_updates = false;
  demote_func = none;
  promote_filter_func = some (λ n. n % 2 == 0);
  work_queue_name = text "pkg.numbers.Reconciler";
}

new_impl-built :
    new_impl
      (text "numbers.example")
      (text "numbers-controller")
      (text "pkg/numbers")
      (text "Reconciler")
      (options ∷ [])
    ≡ some built
unfolding new_impl apply_each apply_controller_options dotted
new_impl-built = refl

abbrev enqueue : ℕ → NamespacedName → List (ℕ × Text) → List (ℕ × Text)
enqueue bucket key trace = trace ++ (bucket, key.name) ∷ []

promote_func-new_impl_example : promote_func indexer 0 built enqueue 9 [] ≡ (
  foldl
      (λ v k. enqueue 9 k v)
      []
      (filter_map (accepted_key numbers (some (λ n. n % 2 == 0))) (1 ∷ 2 ∷ 4 ∷ [])),
  none,
)
promote_func-new_impl_example =
    promote_func-new_impl indexer (text "numbers.example") (text "numbers-controller")
      (text "pkg/numbers") (text "Reconciler") (options ∷ []) built 0 enqueue 9 [] new_impl-built
