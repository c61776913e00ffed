-- ===== src/Injection/Selectors.antt =====
-- With which selector the filtered factories list.
use mathlib.Core.Option.{some-injective}
use k_mesh.Base.{
  ℕ, ◌≡◌, refl, sym, ap, ◌∙◌, inl, inr, Option, none, some, List, [], ◌∷◌, In, Bool-cases,
  if◌then◌else◌,
}
use k_mesh.Base.Text.{Text, text_eq, text_eq_iff}
use k_mesh.Base.Dict.{lookup, lookup-insert}
use k_mesh.Clientset.{Kind, ListOptions}
use k_mesh.Informers.{Factory}
use k_mesh.Injection.{
  Tweak, sets_label_selector, Filtered, filtered_factory, selector_round, with_each_selector,
  with_filtered_factories, get_filtered, tweaked_options,
}

-- The last of a list that is not empty.
abbrev pub last : {A : Type 0} → A → List A → A
last x [] = x
last x (y ∷ ys) = last y ys

module _ (scope : Option Text) (resync : ℕ) where
  selector_round-lookup :
      (k s : Text) (c : Filtered)
      → lookup k (selector_round scope resync s c).factories
        ≡ (if text_eq k s then some (filtered_factory scope resync) else lookup k c.factories)
  unfolding selector_round
  selector_round-lookup k s c = lookup-insert k s (filtered_factory scope resync) c.factories

  pub with_each_selector-selector :
      (s : Text) (ss : List Text) (c : Filtered)
      → (with_each_selector scope resync (s ∷ ss) c).selector ≡ last s ss
  unfolding with_each_selector selector_round
  with_each_selector-selector s [] c = refl
  with_each_selector-selector s (t ∷ ss) c =
      with_each_selector-selector t ss (selector_round scope resync s c)

  -- A selector's factory stays, or is made anew alike.
  with_each_selector-lookup :
      (k : Text) (ss : List Text) (c : Filtered)
      → lookup k c.factories ≡ some (filtered_factory scope resync)
      → lookup k (with_each_selector scope resync ss c).factories
        ≡ some (filtered_factory scope resync)
  unfolding with_each_selector
  with_each_selector-lookup k [] c h = h
  with_each_selector-lookup k (s ∷ ss) c h =
      with_each_selector-lookup k ss (selector_round scope resync s c)
        (elim (Bool-cases (text_eq k s)) [
          | inl e ↦ selector_round-lookup k s c ∙ rw e
          | inr e ↦ selector_round-lookup k s c ∙ rw e h
        ])

  pub with_each_selector-In :
      (k : Text) (ss : List Text) (c : Filtered)
      → In k ss
      → lookup k (with_each_selector scope resync ss c).factories
        ≡ some (filtered_factory scope resync)
  unfolding with_each_selector
  with_each_selector-In k [] c i = absurd i
  with_each_selector-In k (s ∷ ss) c (inl e) =
      with_each_selector-lookup k ss (selector_round scope resync s c)
        (selector_round-lookup k s c ∙ rw ((text_eq_iff k s).1 e))
  with_each_selector-In k (s ∷ ss) c (inr i) =
      with_each_selector-In k ss (selector_round scope resync s c) i

pub filtered_factory-tweak :
    (scope : Option Text) (resync : ℕ)
    → (filtered_factory scope resync).tweak_list_options ≡ some sets_label_selector
unfolding filtered_factory
filtered_factory-tweak none resync = refl
filtered_factory-tweak (some namespace) resync = refl

-- Once the context has the filtered factories, the factory of each selector is there, but with the
-- options of its informers it lists by the last of the selectors, whichever it is the factory of.
pub tweaked_options-with_filtered_factories :
    {K : Kind} (scope : Option Text) (resync : ℕ) (s : Text) (ss : List Text) (c : Filtered)
    (k : Text) (options : ListOptions K)
    → with_filtered_factories scope resync (some (s ∷ ss)) ≡ some c
    → In k (s ∷ ss)
    → (f : Factory Tweak) × (get_filtered k c ≡ some f)
      × (tweaked_options c f options ≡ record options { label_selector = last s ss })
unfolding with_filtered_factories get_filtered tweaked_options
tweaked_options-with_filtered_factories scope resync s ss c k options h i =
    let start : Filtered = record { factories = []; selector = [] } in
    let e : with_each_selector scope resync (s ∷ ss) start ≡ c = some-injective _ c h in
    (
      filtered_factory scope resync,
      ap (λ (d : Filtered). lookup k d.factories) (sym e)
          ∙ with_each_selector-In scope resync k (s ∷ ss) start i,
      rw (filtered_factory-tweak scope resync, tweaked_options)
          (ap (λ l. record options { label_selector = l })
            (ap (λ (d : Filtered). d.selector) (sym e)
              ∙ with_each_selector-selector scope resync s ss start)),
    )
