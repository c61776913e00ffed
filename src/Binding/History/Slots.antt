-- ===== src/Binding/History/Slots.antt =====
-- One entry of a map of references along a run: it lies between what was stored last and not
-- lost since, and what was stored last.
use k_mesh.Base.{
  ◌≡◌, sym, ◌∙◌, Bool, false, Option, none, some, List, ◌∷◌, arith, inl, inr, Option-cases,
}
use k_mesh.Api.{KReference}
use k_mesh.Binding.History.{Moment, latest, lasting, unless_lost}

module _ (heard : Moment → Option KReference) (lost : Moment → KReference → Bool) where
  -- The entry holds at most what was stored last, and at least what was not lost since.
  pub record IsBetween (h : List Moment) (entry : Option KReference) : Type 0 where
    pub at_most : (r : KReference) → entry ≡ some r → latest heard h ≡ some r
    pub at_least : (r : KReference) → lasting heard lost h ≡ some r → entry ≡ some r

  -- What a moment does to the entry.
  pub record Changes (m : Moment) (before after : Option KReference) : Type 0 where
    pub stored : (r : KReference) → heard m ≡ some r → after ≡ some r
    pub sub : (r : KReference) → heard m ≡ none → after ≡ some r → before ≡ some r
    pub keep :
        (r : KReference) → heard m ≡ none → lost m r ≡ false → before ≡ some r → after ≡ some r

  unless_lost-cases :
      (m : Moment) (o : Option KReference) (r : KReference)
      → unless_lost heard lost m o ≡ some r
      → (o ≡ some r) × (lost m r ≡ false)
  unless_lost-cases m none r e = cc
  unless_lost-cases m (some q) r e = ground arith

  pub IsBetween-Changes :
      (h : List Moment) (m : Moment) (before after : Option KReference)
      → IsBetween h before
      → Changes m before after
      → IsBetween (m ∷ h) after
  unfolding latest lasting
  IsBetween-Changes h m before after b ch = elim (Option-cases (heard m)) [
    | inl e ↦ record {
      at_most = λ r q. rw (e, latest) (b.at_most r (ch.sub r e q));
      at_least = λ r q.
          let (l, k) = unless_lost-cases m (lasting heard lost h) r (rw (e, lasting) at q) in
          ch.keep r e k (b.at_least r l);
    }
    | inr (v, e) ↦ record {
      at_most = λ r q. rw (e, latest) (sym (ch.stored v e) ∙ q);
      at_least = λ r q. ch.stored v e ∙ (rw (e, lasting) at q);
    }
  ]
