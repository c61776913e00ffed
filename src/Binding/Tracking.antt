-- ===== src/Binding/Tracking.antt =====
-- Which keys a map has: the filters ask for this, and the handlers write through it.
use k_mesh.Base.{◌≡◌, inl, inr, true, arith, Option-cases}
use k_mesh.Base.Text.{Text, text_eq_refl}
use k_mesh.Base.Dict.{Dict, lookup, insert, lookup-insert}
use k_mesh.Binding.Handlers.{is_some}
use k_mesh.Binding.Ingresses.{adjust}

-- `_, ok := m[k]`
abbrev pub Has : {V : Type 0} → Dict V → Text → Type 0
Has m k = is_some (lookup k m) ≡ true

-- What `a` has, `b` has.
abbrev pub Grows : {V : Type 0} → Dict V → Dict V → Type 0
Grows a b = (k : Text) → Has a k → Has b k

module _ {V : Type 0} where
  pub insert-Has : (k : Text) (v : V) (m : Dict V) → Has (insert k v m) k
  insert-Has k v m = rw (lookup-insert k k v m, text_eq_refl k)

  pub insert-Grows : (k : Text) (v : V) (m : Dict V) → Grows m (insert k v m)
  insert-Grows k v m j h = ground (arith, lookup-insert j k v m)

  pub adjust-Grows : (f : V → V) (k : Text) (m : Dict V) → Grows m (adjust f k m)
  adjust-Grows f k m j h = elim (Option-cases (lookup k m)) [
    | inl e ↦ rw (e, adjust) h
    | inr (v, e) ↦ rw (e, adjust) (insert-Grows k (f v) m j h)
  ]

  pub Grows-trans : (a b c : Dict V) → Grows a b → Grows b c → Grows a c
  Grows-trans a b c p q k h = q k (p k h)
