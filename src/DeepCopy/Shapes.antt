-- ===== src/DeepCopy/Shapes.antt =====
-- What a value of the API group stands for in a memory: its view, with every address followed,
-- and the addresses that are reached from it.
use k_mesh.Base.{
  ℕ, ◌≡◌, refl, ap, ◌∙◌, inl, inr, Option, none, some, List, [], ◌∷◌, ◌++◌, In, In-append_left,
  In-append_right,
}
use k_mesh.DeepCopy.{Place}

-- The cells that the addresses hold are the same in both memories.
abbrev pub AgreeOn : {Cell : Type 0} → List ℕ → (g h : ℕ → Cell) → Type 0
AgreeOn addresses g h = (a : ℕ) → In a addresses → g a ≡ h a

pub record Shape (Cell A : Type 0) : Type 1 where
  pub View : Type 0
  pub view : (ℕ → Cell) → A → View
  pub reach : (ℕ → Cell) → A → List ℕ
  -- The view and the reach of a value are settled by the cells that it reaches.
  pub frame :
      (g h : ℕ → Cell) (x : A)
      → AgreeOn (reach h x) g h
      → (view g x ≡ view h x) × (reach g x ≡ reach h x)

module _ {Cell : Type 0} where
  abbrev pub flat : (A : Type 0) → Shape Cell A
  flat A = record { View = A; view = λ _ x. x; reach = λ _ _. []; frame = λ _ _ _ _. (refl, refl) }

  module _ {A : Type 0} (s : Shape Cell A) where
    abbrev pub reach_each : (ℕ → Cell) → List A → List ℕ
    reach_each h [] = []
    reach_each h (x ∷ xs) = s.reach h x ++ reach_each h xs

    abbrev pub view_each : (ℕ → Cell) → List A → List s.View
    view_each h [] = []
    view_each h (x ∷ xs) = s.view h x ∷ view_each h xs

    pub each-frame :
        (g h : ℕ → Cell) (xs : List A)
        → AgreeOn (reach_each h xs) g h
        → (view_each g xs ≡ view_each h xs) × (reach_each g xs ≡ reach_each h xs)
    each-frame g h [] e = (refl, refl)
    each-frame g h (x ∷ xs) e =
        let p = s.frame g h x (λ a i. e a (In-append_left a (s.reach h x) (reach_each h xs) i)) in
        let q =
          each-frame g h xs (λ a i. e a (In-append_right a (s.reach h x) (reach_each h xs) i)) in
        (λ i. p.0 i ∷ q.0 i, λ i. p.1 i ++ q.1 i)

    abbrev pub each : Shape Cell (List A)
    each = record { View = List s.View; view = view_each; reach = reach_each; frame = each-frame }

    module _ (place : Place Cell A) where
      abbrev pub view_ref : (ℕ → Cell) → Option ℕ → Option (List s.View)
      view_ref h none = none
      view_ref h (some a) = some (view_each h (place.project (h a)))

      abbrev pub reach_ref : (ℕ → Cell) → Option ℕ → List ℕ
      reach_ref h none = []
      reach_ref h (some a) = a ∷ reach_each h (place.project (h a))

      pub ref-frame :
          (g h : ℕ → Cell) (x : Option ℕ)
          → AgreeOn (reach_ref h x) g h
          → (view_ref g x ≡ view_ref h x) × (reach_ref g x ≡ reach_ref h x)
      ref-frame g h none e = (refl, refl)
      ref-frame g h (some a) e =
          let p = each-frame g h (place.project (h a)) (λ b i. e b (inr i)) in
          let q : place.project (g a) ≡ place.project (h a) = ap place.project (e a (inl refl)) in
          (ap some (ap (view_each g) q ∙ p.0), ap (λ l. a ∷ l) (ap (reach_each g) q ∙ p.1))

      abbrev pub ref : Shape Cell (Option ℕ)
      ref = record {
        View = Option (List s.View);
        view = view_ref;
        reach = reach_ref;
        frame = ref-frame;
      }

  module _ {A B : Type 0} where
    pub both-frame :
        (s : Shape Cell A) (t : Shape Cell B) (g h : ℕ → Cell) (x : A) (y : B)
        → AgreeOn (s.reach h x ++ t.reach h y) g h
        → (◌≡◌ {A = s.View × t.View} (s.view g x, t.view g y) (s.view h x, t.view h y))
          × (s.reach g x ++ t.reach g y ≡ s.reach h x ++ t.reach h y)
    both-frame s t g h x y e =
        let p = s.frame g h x (λ a i. e a (In-append_left a (s.reach h x) (t.reach h y) i)) in
        let q = t.frame g h y (λ a i. e a (In-append_right a (s.reach h x) (t.reach h y) i)) in
        (λ i. (p.0 i, q.0 i), λ i. p.1 i ++ q.1 i)

    abbrev pub both : Shape Cell A → Shape Cell B → Shape Cell (A × B)
    both s t = record {
      View = s.View × t.View;
      view = λ h (x, y). (s.view h x, t.view h y);
      reach = λ h (x, y). s.reach h x ++ t.reach h y;
      frame = λ g h (x, y) e. both-frame s t g h x y e;
    }

    -- The shape of a struct, by its fields.
    abbrev pub by_fields : (A → B) → Shape Cell B → Shape Cell A
    by_fields fields s = record {
      View = s.View;
      view = λ h x. s.view h (fields x);
      reach = λ h x. s.reach h (fields x);
      frame = λ g h x e. s.frame g h (fields x) e;
    }
