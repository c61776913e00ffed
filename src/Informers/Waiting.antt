-- ===== src/Informers/Waiting.antt =====
-- What a wait for the caches covers.
use mathlib.Core.Option.{some-injective, none-ne-some}
use k_mesh.Base.{
  ℕ, ◌≡◌, ◌↔◌, refl, sym, ap, subst, ◌∙◌, inl, inr, Bool, true, Option, none, some, List, [], ◌∷◌,
  In, Bool-cases, if◌then◌else◌, ◌⊎◌,
}
use k_mesh.Base.Text.{Text, text_eq, text_eq_iff, text_eq_refl}
use k_mesh.Base.Dict.{Dict, lookup, insert, lookup-insert, lookup-nil}
use k_mesh.Informers.{Factory, is_started, started_only, wait_each, wait_for_cache_sync}
use k_mesh.Informers.Steps.{RangesOver}

module _ {V : Type 0} where
  abbrev put : Text → Option V → Dict V → Dict V
  put t none d = d
  put t (some x) d = insert t x d

  put_sound :
      (k t : Text) (x : V) (o : Option V) (d : Dict V)
      → lookup k (put t o d) ≡ some x
      → ((k ≡ t) × (o ≡ some x)) ⊎ (lookup k d ≡ some x)
  put_sound k t x none d h = inr h
  put_sound k t x (some y) d h = elim (Bool-cases (text_eq k t)) [
    | inl e ↦
        let p : some y ≡ some x =
          subst (λ c. (if c then some y else lookup k d) ≡ some x) e
            (sym (lookup-insert k t y d) ∙ h) in
        inl ((text_eq_iff k t).0 e, p)
    | inr e ↦
        let p : lookup k d ≡ some x =
          subst (λ c. (if c then some y else lookup k d) ≡ some x) e
            (sym (lookup-insert k t y d) ∙ h) in
        inr p
  ]

  put_keeps :
      (k t : Text) (x : V) (o : Option V) (d : Dict V)
      → ((y : V) → k ≡ t → o ≡ some y → y ≡ x)
      → lookup k d ≡ some x
      → lookup k (put t o d) ≡ some x
  put_keeps k t x none d same h = h
  put_keeps k t x (some y) d same h = elim (Bool-cases (text_eq k t)) [
    | inl e ↦ lookup-insert k t y d ∙ rw e (ap some (same y ((text_eq_iff k t).0 e) refl))
    | inr e ↦ lookup-insert k t y d ∙ rw e h
  ]

  put_new :
      (k : Text) (x : V) (o : Option V) (d : Dict V) → o ≡ some x → lookup k (put k o d) ≡ some x
  put_new k x none d e = absurd (none-ne-some x e)
  put_new k x (some y) d e = lookup-insert k k y d ∙ rw (text_eq_refl k) e

  -- Both loops: what is made of an entry, if anything, goes into the map.
  fill : (Text → ℕ → Option V) → List (Text × ℕ) → Dict V → Dict V
  fill g [] d = d
  fill g ((t, i) ∷ rest) d = fill g rest (put t (g t i) d)

  fill_sound :
      (g : Text → ℕ → Option V) (k : Text) (x : V) (l : List (Text × ℕ)) (d : Dict V)
      → lookup k (fill g l d) ≡ some x
      → ((i : ℕ) × In (k, i) l × (g k i ≡ some x)) ⊎ (lookup k d ≡ some x)
  unfolding fill
  fill_sound g k x [] d h = inr h
  fill_sound g k x ((t, i) ∷ rest) d h = elim (fill_sound g k x rest (put t (g t i) d) h) [
    | inl (j, m, e) ↦ inl (j, inr m, e)
    | inr q ↦ elim (put_sound k t x (g t i) d q) [
      | inl (p, e) ↦ inl (i, inl (ap (λ s. (s, i)) p), ap (λ s. g s i) p ∙ e)
      | inr r ↦ inr r
    ]
  ]

  fill_keeps :
      (g : Text → ℕ → Option V) (k : Text) (x : V) (l : List (Text × ℕ)) (d : Dict V)
      → ((i : ℕ) (y : V) → In (k, i) l → g k i ≡ some y → y ≡ x)
      → lookup k d ≡ some x
      → lookup k (fill g l d) ≡ some x
  unfolding fill
  fill_keeps g k x [] d same h = h
  fill_keeps g k x ((t, i) ∷ rest) d same h =
      fill_keeps g k x rest (put t (g t i) d) (λ j y m. same j y (inr m))
        (put_keeps k t x (g t i) d
          (λ y p e. same i y (inl (ap (λ s. (s, i)) p)) (ap (λ s. g s i) p ∙ e)) h)

  fill_complete :
      (g : Text → ℕ → Option V) (k : Text) (x : V) (i : ℕ) (l : List (Text × ℕ)) (d : Dict V)
      → ((j : ℕ) (y : V) → In (k, j) l → g k j ≡ some y → y ≡ x)
      → In (k, i) l
      → g k i ≡ some x
      → lookup k (fill g l d) ≡ some x
  unfolding fill
  fill_complete g k x i [] d same m e = absurd m
  fill_complete g k x i ((t, j) ∷ rest) d same (inr m) e =
      fill_complete g k x i rest (put t (g t j) d) (λ n y m'. same n y (inr m')) m e
  fill_complete g k x i ((t, j) ∷ rest) d same (inl p) e =
      fill_keeps g k x rest (put t (g t j) d) (λ n y m'. same n y (inr m'))
        (subst (λ (r : Text × ℕ). lookup k (put r.0 (g r.0 r.1) d) ≡ some x) p
          (put_new k x (g k i) d e))

  -- From an empty map, over the entries of another map.
  fill_entries :
      (order : Dict ℕ → List (Text × ℕ)) (r : RangesOver order) (g : Text → ℕ → Option V) (k : Text)
      (x : V) (d : Dict ℕ)
      → (lookup k (fill g (order d) []) ≡ some x)
        ↔ ((i : ℕ) × (lookup k d ≡ some i) × (g k i ≡ some x))
  fill_entries order r g k x d = (
    λ h. elim (fill_sound g k x (order d) [] h) [
      | inl (i, m, e) ↦ (i, (r d k i).0 m, e)
      | inr e ↦ absurd (none-ne-some x (sym (lookup-nil k) ∙ e))
    ],
    λ (i, l, e).
        fill_complete g k x i (order d) []
          (λ j y m q.
            let n : i ≡ j = some-injective i j (sym l ∙ (r d k j).0 m) in
            some-injective y x (sym q ∙ (ap (g k) (sym n) ∙ e)))
          ((r d k i).1 l) e,
  )

if_started : Dict Bool → Text → ℕ → Option ℕ
if_started st t i = if is_started t st then some i else none

started_only-fill :
    (st : Dict Bool) (l : List (Text × ℕ)) (d : Dict ℕ)
    → started_only st l d ≡ fill (if_started st) l d
unfolding started_only fill if_started
started_only-fill st [] d = refl
started_only-fill st ((t, i) ∷ rest) d = elim (Bool-cases (is_started t st)) [
  | inl e ↦ rw e (started_only-fill st rest (insert t i d))
  | inr e ↦ rw e (started_only-fill st rest d)
]

wait_each-fill :
    (synced : ℕ → Bool) (l : List (Text × ℕ)) (d : Dict Bool)
    → wait_each synced l d ≡ fill (λ t i. some (synced i)) l d
unfolding wait_each fill
wait_each-fill synced [] d = refl
wait_each-fill synced ((t, i) ∷ rest) d = wait_each-fill synced rest (insert t (synced i) d)

if_started-some :
    (st : Dict Bool) (t : Text) (i j : ℕ)
    → (if_started st t i ≡ some j) ↔ ((i ≡ j) × (is_started t st ≡ true))
unfolding if_started
if_started-some st t i j = elim (Bool-cases (is_started t st)) [
  | inl e ↦ rw e (λ h. (some-injective i j h, refl), λ (p, _). ap some p)
  | inr e ↦ rw e (λ h. absurd (none-ne-some j h), λ (_, q). absurd (cc))
]

started_only-lookup :
    {Tweak : Type 0} (order : Dict ℕ → List (Text × ℕ)) (r : RangesOver order) (f : Factory Tweak)
    (k : Text) (i : ℕ)
    → (lookup k (started_only f.started_informers (order f.informers) []) ≡ some i)
      ↔ ((lookup k f.informers ≡ some i) × (is_started k f.started_informers ≡ true))
started_only-lookup order r f k i =
    let st = f.started_informers in
    let same = ap (lookup k) (started_only-fill st (order f.informers) []) in
    let entries = fill_entries order r (if_started st) k i f.informers in
    (
      λ h.
          let (j, l, e) = entries.0 (sym same ∙ h) in
          let (p, q) = (if_started-some st k j i).0 e in (l ∙ ap some p, q),
      λ (l, q). same ∙ entries.1 (i, l, (if_started-some st k i i).1 (refl, q)),
    )

-- A wait for the caches answers for exactly the types whose informer is started, each with what
-- its own informer answers.
pub wait_for_cache_sync-is_started :
    {Tweak : Type 0} (order : Dict ℕ → List (Text × ℕ)) (r : RangesOver order) (synced : ℕ → Bool)
    (f : Factory Tweak) (k : Text) (b : Bool)
    → (lookup k (wait_for_cache_sync order synced f) ≡ some b) ↔ (
        (i : ℕ) × (lookup k f.informers ≡ some i)
        × (is_started k f.started_informers ≡ true)
        × (synced i ≡ b))
unfolding wait_for_cache_sync
wait_for_cache_sync-is_started order r synced f k b =
    let d = started_only f.started_informers (order f.informers) [] in
    let same = ap (lookup k) (wait_each-fill synced (order d) []) in
    let waited = fill_entries order r (λ t i. some (synced i)) k b d in
    (
      λ h.
          let (i, l, e) = waited.0 (sym same ∙ h) in
          let (m, q) = (started_only-lookup order r f k i).0 l in
          (i, m, q, some-injective (synced i) b e),
      λ (i, m, q, e). same ∙ waited.1 (i, (started_only-lookup order r f k i).1 (m, q), ap some e),
    )
