-- ===== src/Machinery/StringSet.antt =====
-- `sets.String` of k8s.io/apimachinery/pkg/util/sets.
use k_mesh.Base.{◌≡◌, ◌≢◌, ◌↔◌, ◌⊎◌, Bool, true, List, [], ◌∷◌, In}
use k_mesh.Base.Text.{Text}

pub record StringSet : Type 1 where
  pub Set : Type 0
  pub new_string : List Text → Set
  pub insert : List Text → Set → Set
  pub has : Text → Set → Bool
  pub delete : Text → Set → Set
  pub list : Set → List Text

-- No text stands in the list twice.
abbrev pub IsDistinct : List Text → Type 0
IsDistinct [] = Unit
IsDistinct (x ∷ xs) = (¬ (In x xs)) × IsDistinct xs

-- Documented behaviour: `List` returns each member once.
pub record IsLawful (S : StringSet) : Type 0 where
  pub has-new_string : (x : Text) (xs : List Text) → (S.has x (S.new_string xs) ≡ true) ↔ In x xs
  pub has-insert :
      (x : Text) (xs : List Text) (s : S.Set)
      → (S.has x (S.insert xs s) ≡ true) ↔ (In x xs ⊎ (S.has x s ≡ true))
  pub has-delete :
      (x y : Text) (s : S.Set) → (S.has x (S.delete y s) ≡ true) ↔ ((x ≢ y) × (S.has x s ≡ true))
  pub In-list : (x : Text) (s : S.Set) → In x (S.list s) ↔ (S.has x s ≡ true)
  pub list-IsDistinct : (s : S.Set) → IsDistinct (S.list s)
