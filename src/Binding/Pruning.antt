-- ===== src/Binding/Pruning.antt =====
-- Maps of references from which entries that are gone may have been deleted.
use k_mesh.Base.{
  ◌≡◌, sym, subst, inl, inr, none, [], if◌then◌else◌, Bool-cases, Option-cases, All-In, Bool, true,
  false, some, arith, All, List,
}
use k_mesh.Base.Text.{Text, text_eq, text_eq_iff}
use k_mesh.Base.Dict.{Dict, lookup, insert, erase, lookup-insert, lookup-erase}
use k_mesh.Base.Result.{ok, err, is_not_found, Result}
use k_mesh.Api.{KReference}
use k_mesh.Binding.{Cluster, RangesOver}
use k_mesh.Binding.Ingresses.{adjust}

-- What a lister's answer says of a reference: the object is known not to exist.
abbrev pub missing {ℓ} : {A : Type ℓ} → Result A → Bool
missing (ok a) = false
missing (err e) = is_not_found e

-- `d'` has entries of `d` alone, and all of them that are not gone.
pub record Prunes (gone : KReference → Bool) (d d' : Dict KReference) : Type 0 where
  pub sub : (k : Text) (v : KReference) → lookup k d' ≡ some v → lookup k d ≡ some v
  pub keep :
      (k : Text) (v : KReference) → lookup k d ≡ some v → gone v ≡ false → lookup k d' ≡ some v

module _ (gone : KReference → Bool) where
  pub Prunes-refl : (d : Dict KReference) → Prunes gone d d
  Prunes-refl d = record { sub = λ k v h. h; keep = λ k v h _. h }

  pub Prunes-trans : {a b c : Dict KReference} → Prunes gone a b → Prunes gone b c → Prunes gone a c
  Prunes-trans p q = record {
    sub = λ k v h. p.sub k v (q.sub k v h);
    keep = λ k v h g. q.keep k v (p.keep k v h g) g;
  }

  erase_sub :
      (j k : Text) (d : Dict KReference) (v : KReference)
      → lookup k (erase j d) ≡ some v
      → lookup k d ≡ some v
  erase_sub j k d v h = ground (arith, lookup-erase k j d)

  erase_keep :
      (j k : Text) (d d' : Dict KReference) (u v : KReference)
      → lookup j d ≡ some u
      → gone u ≡ true
      → lookup k d ≡ some v
      → gone v ≡ false
      → lookup k d' ≡ some v
      → lookup k (erase j d') ≡ some v
  erase_keep j k d d' u v hu gu hv gv e = ground (arith, lookup-erase k j d', text_eq_iff k j)

  -- The deletion of an entry that is gone.
  pub erase-Prunes :
      (j : Text) (u : KReference) (d d' : Dict KReference)
      → lookup j d ≡ some u
      → gone u ≡ true
      → Prunes gone d d'
      → Prunes gone d (erase j d')
  erase-Prunes j u d d' h g p = record {
    sub = λ k v e. p.sub k v (erase_sub j k d' v e);
    keep = λ k v e f. erase_keep j k d d' u v h g e f (p.keep k v e f);
  }

-- The entries still to be visited, all of the map `d`.
abbrev pub FromMap : Dict KReference → List (Text × KReference) → Type 0
FromMap d = All (λ x. lookup x.0 d ≡ some x.1)

pub range-FromMap : (cl : Cluster) → RangesOver cl → (d : Dict KReference) → FromMap d (cl.range d)
range-FromMap cl r d =
    All-In (λ x. lookup x.0 d ≡ some x.1) (cl.range d) (λ (k, v) h. (r d k v).0 h)

module _ {V : Type 0} (refs : V → Dict KReference) where
  -- The references of an entry of the outer map.
  abbrev pub refs_at : Text → Dict V → Dict KReference
  refs_at key m = elim (lookup key m) [ none ↦ [] | some c ↦ refs c ]

  refs_at-insert :
      (j k : Text) (c : V) (m : Dict V)
      → refs_at j (insert k c m) ≡ (if text_eq j k then refs c else refs_at j m)
  refs_at-insert j k c m = ground (arith, lookup-insert j k c m)

  module _ (gone : KReference → Bool) (key : Text) (c : V) where
    pub refs_at-insert_Prunes :
        (m : Dict V)
        → Prunes gone (refs_at key m) (refs c)
        → (j : Text) → Prunes gone (refs_at j m) (refs_at j (insert key c m))
    refs_at-insert_Prunes m p j = elim (Bool-cases (text_eq j key)) [
      | inl same ↦
          rw (refs_at-insert j key c m, same)
            (subst (λ k. Prunes gone (refs_at k m) (refs c)) (sym ((text_eq_iff j key).0 same)) p)
      | inr other ↦ rw (refs_at-insert j key c m, other) (Prunes-refl gone (refs_at j m))
    ]

  pub refs_at-adjust-Prunes :
      (gone : KReference → Bool) (key : Text) (f : V → V) (m : Dict V) (d : Dict KReference)
      → Prunes gone (refs_at key m) d
      → ((v : V) → refs (f v) ≡ d)
      → (j : Text) → Prunes gone (refs_at j m) (refs_at j (adjust f key m))
  refs_at-adjust-Prunes gone key f m d p h j = elim (Option-cases (lookup key m)) [
    | inl e ↦ rw (e, adjust) (Prunes-refl gone (refs_at j m))
    | inr (c, e) ↦
        rw (e, adjust)
          (refs_at-insert_Prunes gone key (f c) m
            (subst (Prunes gone (refs_at key m)) (sym (h c)) p) j)
  ]
