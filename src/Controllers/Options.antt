-- ===== src/Controllers/Options.antt =====
-- What the options of a controller come to, and whom a promoted leader enqueues.
use mathlib.Core.Option.{some-injective, none-ne-some}
use k_mesh.Base.{
  ◌≡◌, ◌≢◌, refl, sym, ap, ◌∙◌, Bool, true, Option, none, some, List, [], ◌∷◌, filter_map,
  if◌then◌else◌, ◌≤◌, length, inl, inr, arith, Bool-cases, Option-cases,
}
use k_mesh.Base.Text.{Text}
use k_mesh.Clientset.{Kind}
use k_mesh.Listers.{Indexer, lister_list}
use k_mesh.Listers.Laws.{append_each-append}
use k_mesh.Controllers.{
  ControllerOptions, Built, NamespacedName, unless_empty, unless_nil, apply_controller_options,
  apply_each, new_impl, promote_func, promote_each,
}

-- `enq` for each key in turn.
abbrev pub foldl : {A W : Type 0} → (W → A → W) → W → List A → W
foldl f w [] = w
foldl f w (x ∷ xs) = foldl f (f w x) xs

abbrev pub accepts : {Object : Type 0} → Option (Object → Bool) → Object → Bool
accepts none x = true
accepts (some f) x = f x

-- The key of an object that the filter accepts.
abbrev pub accepted_key : (K : Kind) → Option (K.Object → Bool) → K.Object → Option NamespacedName
accepted_key K filter x =
    if accepts filter x
    then some (record { namespace = K.namespace_of x; name = K.name_of x })
    else none

-- The filter of the options, where there is one.
abbrev pub filter_of :
    {Store Demote Object : Type 0}
    → List (ControllerOptions Store Demote Object)
    → Option (Object → Bool)
filter_of [] = none
filter_of (o ∷ _) = o.promote_filter_func

-- A controller with a finalizer name, or a fatal exit on too many options functions.
abbrev pub IsNamed :
    {Store Demote Object : Type 0}
    → List (ControllerOptions Store Demote Object)
    → Option (Built Store Demote Object)
    → Type 0
IsNamed options (some b) = (b.finalizer_name ≢ []) × (length options ≤ 1)
IsNamed options none = 2 ≤ length options

unless_nil-none : {A : Type 0} (o : Option A) → unless_nil o none ≡ o
unless_nil-none none = refl
unless_nil-none (some x) = refl

unless_empty-ne : (s name : Text) → name ≢ [] → unless_empty s name ≢ []
unless_empty-ne [] name n = n
unless_empty-ne (c ∷ cs) name n = λ h. cc

promote_each-foldl :
    (K : Kind) {Bucket W : Type 0} (filter : Option (K.Object → Bool))
    (enq : Bucket → NamespacedName → W → W) (bucket : Bucket) (all : List K.Object) (w : W)
    → promote_each K filter enq bucket all w
      ≡ foldl (λ v k. enq bucket k v) w (filter_map (accepted_key K filter) all)
unfolding promote_each
promote_each-foldl K filter enq bucket [] w = refl
promote_each-foldl K none enq bucket (x ∷ xs) w =
    promote_each-foldl K none enq bucket xs
      (enq bucket (record { namespace = K.namespace_of x; name = K.name_of x }) w)
promote_each-foldl K (some f) enq bucket (x ∷ xs) w =
    let key : NamespacedName = record { namespace = K.namespace_of x; name = K.name_of x } in
    elim (Bool-cases (f x)) [
      | inl e ↦ rw (e, filter_map) (promote_each-foldl K (some f) enq bucket xs (enq bucket key w))
      | inr e ↦ rw (e, filter_map) (promote_each-foldl K (some f) enq bucket xs w)
    ]

module _ {Store Demote Object : Type 0} (finalizer agent path type_name : Text) where
  new_impl-filter_of :
      (options : List (ControllerOptions Store Demote Object)) (b : Built Store Demote Object)
      → new_impl finalizer agent path type_name options ≡ some b
      → b.promote_filter_func ≡ filter_of options
  unfolding new_impl apply_each apply_controller_options
  new_impl-filter_of [] b h =
      sym (ap (λ (c : Built Store Demote Object). c.promote_filter_func) (some-injective _ b h))
  new_impl-filter_of (o ∷ []) b h =
      sym (ap (λ (c : Built Store Demote Object). c.promote_filter_func) (some-injective _ b h))
      ∙ unless_nil-none o.promote_filter_func
  new_impl-filter_of (o ∷ p ∷ os) b h = absurd (none-ne-some b h)

  -- If the default is not empty, the controller's finalizer name is not; and more than one options
  -- function is fatal, as nothing else is.
  pub new_impl-finalizer_name :
      (options : List (ControllerOptions Store Demote Object))
      → finalizer ≢ []
      → IsNamed options (new_impl finalizer agent path type_name options)
  unfolding new_impl apply_each apply_controller_options
  new_impl-finalizer_name [] n = (n, omega arith)
  new_impl-finalizer_name (o ∷ []) n = (unless_empty-ne o.finalizer_name finalizer n, omega arith)
  new_impl-finalizer_name (o ∷ p ∷ os) n = omega arith

-- The promote function of a controller that was built enqueues, in the lister's order, the keys of
-- exactly the listed objects that the options' filter accepts, all of them where there is no
-- filter; where the lister fails it enqueues nothing and gives the error.
pub promote_func-new_impl :
    {K : Kind} (I : Indexer K) {Store Demote Bucket W : Type 0}
    (finalizer agent path type_name : Text)
    (options : List (ControllerOptions Store Demote K.Object)) (b : Built Store Demote K.Object)
    (everything : I.Selector) (enq : Bucket → NamespacedName → W → W) (bucket : Bucket) (w : W)
    → new_impl finalizer agent path type_name options ≡ some b
    → promote_func I everything b enq bucket w ≡ (elim (I.list_all everything).1 [
      | none ↦ (
        foldl
            (λ v k. enq bucket k v)
            w
            (filter_map (accepted_key K (filter_of options)) (I.list_all everything).0),
        none,
      )
      | some x ↦ (w, some x)
    ])
unfolding promote_func lister_list
promote_func-new_impl {K} I finalizer agent path type_name options b everything enq bucket w h =
    let listed = append_each-append I [] (I.list_all everything).0 in
    let chosen = new_impl-filter_of finalizer agent path type_name options b h in
    elim (Option-cases (I.list_all everything).1) [
      | inr (x, e) ↦ rw (e, promote_func, lister_list)
      | inl e ↦
          rw (e, promote_func, lister_list, listed, chosen)
            (ap (λ v. (v, none))
              (promote_each-foldl K (filter_of options) enq bucket (I.list_all everything).0 w))
    ]
