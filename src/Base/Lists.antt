-- ===== src/Base/Lists.antt =====
-- Lists measured by native numbers, membership as a plain sum, and filters into options.
use Prim.Native.Nat.{ℕ, zero, suc, ◌+◌}
use mathlib.Core.Path.{◌≡◌, refl, sym, ap, ◌∙◌}
use mathlib.Core.Logic.{◌⊎◌, inl, inr}
use mathlib.Core.List.{List, [], ◌∷◌, ◌++◌}
use mathlib.Core.Option.{Option, none, some}
use native.Mathlib.Omega.{arith}

module _ {ℓ} {A : Type ℓ} where
  abbrev pub length : List A → ℕ
  length [] = 0
  length (x ∷ xs) = suc (length xs)

  abbrev pub get_elem? : List A → ℕ → Option A
  get_elem? [] i = none
  get_elem? (x ∷ xs) zero = some x
  get_elem? (x ∷ xs) (suc i) = get_elem? xs i

  abbrev pub replicate : ℕ → A → List A
  replicate zero a = []
  replicate (suc n) a = a ∷ replicate n a

  abbrev pub All {κ} : (A → Type κ) → List A → Type κ
  All P [] = Unit
  All P (x ∷ xs) = P x × All P xs

  pub length-append : (xs ys : List A) → length (xs ++ ys) ≡ length xs + length ys
  length-append [] ys = omega arith
  length-append (x ∷ xs) ys = omega (arith, length-append xs ys)

  pub length-replicate : (n : ℕ) (a : A) → length (replicate n a) ≡ n
  length-replicate zero a = refl
  length-replicate (suc n) a = ap suc (length-replicate n a)

module _ {A : Type 0} where
  -- `x` stands in the list; the witness says where.
  abbrev pub In : A → List A → Type 0
  In x [] = ⊥
  In x (y ∷ ys) = (x ≡ y) ⊎ In x ys

module _ {A : Type 0} where
  pub In-append_left : (x : A) (xs ys : List A) → In x xs → In x (xs ++ ys)
  In-append_left x [] ys h = absurd h
  In-append_left x (y ∷ xs) ys (inl e) = inl e
  In-append_left x (y ∷ xs) ys (inr h) = inr (In-append_left x xs ys h)

  pub In-append_right : (x : A) (xs ys : List A) → In x ys → In x (xs ++ ys)
  In-append_right x [] ys h = h
  In-append_right x (y ∷ xs) ys h = inr (In-append_right x xs ys h)

  pub In-append : (x : A) (xs ys : List A) → In x (xs ++ ys) → In x xs ⊎ In x ys
  In-append x [] ys h = inr h
  In-append x (y ∷ xs) ys (inl e) = inl (inl e)
  In-append x (y ∷ xs) ys (inr h) = elim (In-append x xs ys h) [
    | inl k ↦ inl (inr k)
    | inr k ↦ inr k
  ]

  pub In-last : (x : A) (xs : List A) → In x (xs ++ x ∷ [])
  In-last x xs = In-append_right x xs (x ∷ []) (inl refl)

  pub All-In {κ} : (P : A → Type κ) (xs : List A) → ((x : A) → In x xs → P x) → All P xs
  All-In P [] f = tt
  All-In P (x ∷ xs) f = (f x (inl refl), All-In P xs (λ y h. f y (inr h)))

module _ {ℓ κ} {A : Type ℓ} {B : Type κ} where
  -- The values of `f`, where it has one, in order.
  abbrev pub filter_map : (A → Option B) → List A → List B
  filter_map f [] = []
  filter_map f (x ∷ xs) = elim (f x) [ none ↦ filter_map f xs | some y ↦ y ∷ filter_map f xs ]

module _ {A B : Type 0} where
  In-filter_map_cons :
      (f : A → Option B) (y : B) (x : A) (xs : List A)
      → (In y (filter_map f xs) → (w : A) × In w xs × (f w ≡ some y))
      → (o : Option B) → f x ≡ o
      → In y (elim o [ none ↦ filter_map f xs | some z ↦ z ∷ filter_map f xs ])
      → (w : A) × In w (x ∷ xs) × (f w ≡ some y)
  In-filter_map_cons f y x xs ih none e k = let (w, m, q) = ih k in (w, inr m, q)
  In-filter_map_cons f y x xs ih (some z) e (inl p) = (x, inl refl, e ∙ ap some (sym p))
  In-filter_map_cons f y x xs ih (some z) e (inr k) = let (w, m, q) = ih k in (w, inr m, q)

  pub In-filter_map :
      (f : A → Option B) (y : B) (xs : List A)
      → In y (filter_map f xs)
      → (x : A) × In x xs × (f x ≡ some y)
  In-filter_map f y [] h = absurd h
  In-filter_map f y (x ∷ xs) h = In-filter_map_cons f y x xs (In-filter_map f y xs) (f x) refl h

  -- A value of `f` at an element of the list is in the filtered list.
  pub filter_map-In :
      (f : A → Option B) (x : A) (y : B) (xs : List A)
      → In x xs
      → f x ≡ some y
      → In y (filter_map f xs)
  filter_map-In f x y [] h e = absurd h
  filter_map-In f x y (z ∷ xs) (inl p) e =
      let q : f z ≡ some y = ap f (sym p) ∙ e in rw (q, filter_map) (inl refl)
  filter_map-In f x y (z ∷ xs) (inr h) e = skip (f z) (filter_map-In f x y xs h e)
    where
      skip :
          (o : Option B)
          → In y (filter_map f xs)
          → In y (elim o [ none ↦ filter_map f xs | some w ↦ w ∷ filter_map f xs ])
      skip none k = k
      skip (some w) k = inr k

module _ {A : Type 0} where
  -- No element stands in the list twice.
  abbrev pub NoRepeats : List A → Type 0
  NoRepeats [] = Unit
  NoRepeats (x ∷ xs) = (¬ (In x xs)) × NoRepeats xs

  pub NoRepeats-last : (x : A) (xs : List A) → ¬ (In x xs) → NoRepeats xs → NoRepeats (xs ++ x ∷ [])
  NoRepeats-last x [] n h = (λ k. k, tt)
  NoRepeats-last x (y ∷ xs) n (m, h) = (
    λ k. elim (In-append y xs (x ∷ []) k) [
      | inl i ↦ m i
      | inr i ↦ elim i [ inl e ↦ n (inl (sym e)) | inr no_more ↦ no_more ]
    ],
    NoRepeats-last x xs (λ k. n (inr k)) h,
  )
