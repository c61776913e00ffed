-- ===== src/Listers/Laws.antt =====
-- The listers' answers against each other.
use mathlib.Core.List.{append_assoc, append-nil}
use mathlib.Core.Path.{ap₂}
use k_mesh.Base.{
  ℕ, ◌≡◌, ◌≢◌, ◌↔◌, refl, ◌∙◌, sym, subst, inl, inr, true, none, some, List, [], ◌∷◌, ◌++◌, arith,
  In, All,
}
use k_mesh.Base.Text.{Text, text}
use k_mesh.Base.Result.{Err, not_found, is_not_found, ok, err, Result-cases}
use k_mesh.Clientset.{Kind}
use k_mesh.Listers.{Indexer, append_each, namespace_lister_list, lister_get}

-- A name without a slash.
abbrev pub NoSlash : Text → Type 0
NoSlash = All (λ c. c ≢ 47)

cons-injective : {c d : ℕ} {s t : Text} → ◌≡◌ {A = Text} (c ∷ s) (d ∷ t) → (c ≡ d) × (s ≡ t)
cons-injective h = (cc, cc)

-- A key with a slash is read back in one way only.
key-injective :
    (a b c d : Text)
    → NoSlash a
    → NoSlash c
    → a ++ (text "/" ++ b) ≡ c ++ (text "/" ++ d)
    → (a ≡ c) × (b ≡ d)
key-injective [] b [] d p q h = (refl, cc)
key-injective [] b (y ∷ c) d p (n, q) h = absurd (n (cc))
key-injective (x ∷ a) b [] d (n, p) q h = absurd (n (cc))
key-injective (x ∷ a) b (y ∷ c) d (m, p) (n, q) h =
    let (e, f) = cons-injective h in let (g, k) = key-injective a b c d p q f in (cc, k)

module _ {K : Kind} (I : Indexer K) where
  pub append_each-append : (ret ms : List K.Object) → append_each I ret ms ≡ ret ++ ms
  unfolding append_each
  append_each-append ret [] = sym (append-nil ret)
  append_each-append ret (m ∷ ms) =
      append_each-append (ret ++ m ∷ []) ms ∙ append_assoc ret (m ∷ []) ms

  abbrev key_of : K.Object → Text
  key_of o = K.namespace_of o ++ (text "/" ++ K.name_of o)

  -- Documented behaviour of an informer's indexer: it holds objects under the keys of their
  -- namespace and name, each key once, and lists those of a namespace. The empty namespace, for
  -- which the indexer lists all objects, is left out.
  pub record Holds (all : I.Selector) (objects : List K.Object) : Type 0 where
    pub no_slash : (o : K.Object) → In o objects → NoSlash (K.namespace_of o)
    pub one_by_key :
        (k : Text) (o : K.Object) → (I.get_by_key k ≡ ok (some o)) ↔ (In o objects × (key_of o ≡ k))
    pub no_errors : (k : Text) (e : Err) → I.get_by_key k ≢ err e
    pub by_namespace :
        (ns : Text) (o : K.Object)
        → ns ≢ []
        → In o (I.list_all_by_namespace ns all).0 ↔ (In o objects × (K.namespace_of o ≡ ns))

  lister_get-get_by_key :
      (ns name : Text) (o : K.Object)
      → (lister_get I ns name ≡ ok o) ↔ (I.get_by_key (ns ++ (text "/" ++ name)) ≡ ok (some o))
  unfolding lister_get
  lister_get-get_by_key ns name o = ground arith

  module _ (all : I.Selector) (objects : List K.Object) (L : Holds all objects) where
    -- `Get` of the lister of a namespace, which is not the empty one and has no slash, answers with
    -- an object exactly if that object is in the namespace's list and has the name.
    pub lister_get-namespace_lister_list :
        (ns name : Text) (o : K.Object)
        → ns ≢ []
        → NoSlash ns
        → (lister_get I ns name ≡ ok o)
          ↔ (In o (namespace_lister_list I ns all).0 × (K.name_of o ≡ name))
    unfolding namespace_lister_list
    lister_get-namespace_lister_list ns name o ne p =
        let objs = (I.list_all_by_namespace ns all).0 in
        let same : append_each I [] objs ≡ objs = append_each-append [] objs in
        (
          λ h.
              let (m, k) = (L.one_by_key _ o).0 ((lister_get-get_by_key ns name o).0 h) in
              let (e, f) =
                key-injective (K.namespace_of o) (K.name_of o) ns name (L.no_slash o m) p k in
              (subst (In o) (sym same) ((L.by_namespace ns o ne).1 (m, e)), f),
          λ (m, f).
              let (m', e) = (L.by_namespace ns o ne).0 (subst (In o) same m) in
              (lister_get-get_by_key ns name o).1
                ((L.one_by_key _ o).1 (m', ap₂ (λ a b. a ++ (text "/" ++ b)) e f)),
        )

    -- Where no object of the namespace's list has the name, the answer is a not-found error.
    pub lister_get-is_not_found :
        (ns name : Text)
        → ns ≢ []
        → NoSlash ns
        → ((o : K.Object) → In o (namespace_lister_list I ns all).0 → K.name_of o ≢ name)
        → (e : Err) × (lister_get I ns name ≡ err e) × (is_not_found e ≡ true)
    unfolding lister_get
    lister_get-is_not_found ns name ne p h =
        elim (Result-cases (I.get_by_key (ns ++ (text "/" ++ name)))) [
          | inr (x, e) ↦ absurd (L.no_errors _ x e)
          | inl (none, e) ↦ (not_found (K.singular ++ (text " " ++ name)), rw (e, lister_get), refl)
          | inl (some o, e) ↦
              let (m, n) =
                (lister_get-namespace_lister_list ns name o ne p).0
                  ((lister_get-get_by_key ns name o).1 e) in
              absurd (h o m n)
        ]
