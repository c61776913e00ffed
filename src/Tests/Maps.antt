-- ===== src/Tests/Maps.antt =====
-- The entries of a map in the order of insertion, as Go may range over them.
use mathlib.Core.Option.{some-injective}
use mathlib.Core.Path.{ap₂}
use k_mesh.Base.{◌≡◌, ◌≢◌, ◌↔◌, sym, ap, ◌∙◌, inl, inr, some, List, [], ◌∷◌, In, Bool-cases}
use k_mesh.Base.Text.{Text, text_eq, text_eq_iff}
use k_mesh.Base.Dict.{Dict, lookup, erase}

module _ {V : Type 0} where
  -- The entries of a map, each key once.
  abbrev pub entries : Dict V → List (Text × V)
  entries [] = []
  entries ((k, v) ∷ d) = (k, v) ∷ erase k (entries d)

  In-erase : (k j : Text) (v : V) (d : Dict V) → In (k, v) (erase j d) ↔ ((k ≢ j) × In (k, v) d)
  unfolding erase
  In-erase k j v [] = (λ h. absurd h, λ (_, h). h)
  In-erase k j v ((i, w) ∷ d) = elim (Bool-cases (text_eq j i)) [
    | inl e ↦
        let same = (text_eq_iff j i).0 e in
        rw e (
          λ h. let (n, m) = (In-erase k j v d).0 h in (n, inr m),
          λ (n, h). elim h [
            | inl p ↦ absurd (n (ap (λ x. x.0) p ∙ sym same))
            | inr m ↦ (In-erase k j v d).1 (n, m)
          ],
        )
    | inr e ↦ rw e (
      λ h. elim h [
        | inl p ↦ (λ q. absurd (cc ((text_eq_iff j i).1 (sym q ∙ ap (λ x. x.0) p))), inl p)
        | inr m ↦ let (n, k) = (In-erase k j v d).0 m in (n, inr k)
      ],
      λ (n, h). elim h [ inl p ↦ inl p | inr m ↦ inr ((In-erase k j v d).1 (n, m)) ],
    )
  ]

  pub In-entries : (d : Dict V) (k : Text) (v : V) → In (k, v) (entries d) ↔ (lookup k d ≡ some v)
  unfolding lookup
  In-entries [] k v = (λ h. absurd h, λ h. cc h)
  In-entries ((j, w) ∷ d) k v = elim (Bool-cases (text_eq k j)) [
    | inl e ↦
        let same = (text_eq_iff k j).0 e in
        rw e (
          λ h. elim h [
            | inl p ↦ ap (λ x. some x.1) (sym p)
            | inr m ↦ absurd (((In-erase k j v (entries d)).0 m).0 same)
          ],
          λ h. inl (ap₂ (λ a b. (a, b)) same (sym (some-injective _ _ h))),
        )
    | inr e ↦ rw e (
      λ h. elim h [
        | inl p ↦ absurd (cc ((text_eq_iff k j).1 (ap (λ x. x.0) p)))
        | inr m ↦ (In-entries d k v).0 ((In-erase k j v (entries d)).0 m).1
      ],
      λ h. inr (
          (In-erase k j v (entries d)).1
            (λ q. absurd (cc ((text_eq_iff k j).1 q)), (In-entries d k v).1 h)),
    )
  ]
