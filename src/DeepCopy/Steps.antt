-- ===== src/DeepCopy/Steps.antt =====
-- The steps of the generated functions keep what a deep copy promises.
use k_mesh.Base.{
  ℕ, ◌≤◌, ◌<◌, ◌≡◌, refl, sym, ap, subst, ◌∙◌, inl, inr, Option, none, some, [], ◌∷◌, ◌++◌, arith,
  In, In-append, In-append_left, In-append_right,
}
use k_mesh.DeepCopy.{Heap, Place, Copier, alloc, assign, copy_each, copy_cell, copy_ref}
use k_mesh.DeepCopy.Shapes.{
  Shape, flat, reach_each, reach_ref, view_each, each, ref, both, by_fields,
}
use k_mesh.DeepCopy.Freshness.{
  Allocated, Keeps, IsCopy, IsDeep, Keeps-refl, Keeps-trans, Keeps-frame, Keeps-Allocated,
  Keeps-Fresh,
}

module _ {Cell : Type 0} where
  pub assign-IsDeep : {A : Type 0} → IsDeep (flat A) (assign {Cell = Cell} {A = A})
  unfolding assign
  assign-IsDeep x h l = record { keeps = Keeps-refl h; same = refl; fresh = λ a i. absurd i }

  -- Two copies in a row.
  pub both-IsCopy :
      {A B : Type 0} (s : Shape Cell A) (t : Shape Cell B) (x : A) (y : B) (f g h : Heap Cell)
      (u : A) (v : B)
      → Allocated (s.reach f.cells x ++ t.reach f.cells y) f
      → IsCopy s x f (u, g)
      → (Allocated (t.reach g.cells y) g → IsCopy t y g (v, h))
      → IsCopy (both s t) (x, y) f ((u, v), h)
  both-IsCopy s t x y f g h u v l p later =
      let old : Allocated (t.reach f.cells y) f =
        λ a i. l a (In-append_right a (s.reach f.cells x) (t.reach f.cells y) i) in
      let q = later (Keeps-Allocated t y f g p.keeps old) in
      let settled = Keeps-frame s u g h q.keeps (λ a i. (p.fresh a i).1) in
      let second = q.same ∙ (Keeps-frame t y f g p.keeps old).0 in
      record {
        keeps = Keeps-trans f g h p.keeps q.keeps;
        same = λ i. ((settled.0 ∙ p.same) i, second i);
        fresh = λ a i. elim (In-append a (s.reach h.cells u) (t.reach h.cells v) i) [
          | inl j ↦ Keeps-Fresh s u f g h q.keeps p.fresh a j
          | inr j ↦ let m = q.fresh a j in (omega (arith, m.0, p.keeps.grows), m.1)
        ];
      }

  -- The fields of a struct in a row.
  abbrev pub copy_both : {A B : Type 0} → Copier Cell A → Copier Cell B → Copier Cell (A × B)
  copy_both c d (x, y) h = let r = c x h in let t = d y r.1 in ((r.0, t.0), t.1)

  pub both-IsDeep :
      {A B : Type 0} (s : Shape Cell A) (t : Shape Cell B) (c : Copier Cell A) (d : Copier Cell B)
      → IsDeep s c
      → IsDeep t d
      → IsDeep (both s t) (copy_both c d)
  both-IsDeep s t c d p q (x, y) h l =
      let r = c x h in
      let k = d y r.1 in
      both-IsCopy s t x y h r.1 k.1 r.0 k.0 l
        (p x h (λ a i. l a (In-append_left a (s.reach h.cells x) (t.reach h.cells y) i))) (q y r.1)

  pub alloc-Keeps : (c : Cell) (h : Heap Cell) → Keeps h (alloc c h).1
  unfolding alloc
  alloc-Keeps c h = record { grows = omega arith; same_cells = λ a l. ground arith }

  pub alloc-cell : (c : Cell) (h : Heap Cell) → (alloc c h).1.cells (alloc c h).0 ≡ c
  unfolding alloc
  alloc-cell c h = ground arith

  pub alloc-Fresh :
      (c : Cell) (f h : Heap Cell)
      → Keeps f h
      → (f.next ≤ (alloc c h).0) × ((alloc c h).0 < (alloc c h).1.next)
  unfolding alloc
  alloc-Fresh c f h p = (omega (arith, p.grows), omega arith)

  module _ {A : Type 0} (s : Shape Cell A) (copy : Copier Cell A) (deep : IsDeep s copy) where
    pub copy_each-IsDeep : IsDeep (each s) (copy_each copy)
    unfolding copy_each
    copy_each-IsDeep [] h l = record { keeps = Keeps-refl h; same = refl; fresh = λ a i. absurd i }
    copy_each-IsDeep (x ∷ xs) h l =
        let r = copy x h in
        let t = copy_each copy xs r.1 in
        let p =
          both-IsCopy s (each s) x xs h r.1 t.1 r.0 t.0 l
            (deep x h
              (λ a i. l a (In-append_left a (s.reach h.cells x) (reach_each s h.cells xs) i)))
            (copy_each-IsDeep xs r.1) in
        record { keeps = p.keeps; same = λ i. (p.same i).0 ∷ (p.same i).1; fresh = p.fresh }

    module _ (place : Place Cell A) where
      pub copy_cell-IsCopy :
          (a : ℕ) (h : Heap Cell)
          → Allocated (reach_ref s place h.cells (some a)) h
          → let r = copy_cell place copy a h in IsCopy (ref s place) (some a) h (some r.0, r.1)
      unfolding copy_cell
      copy_cell-IsCopy a h l =
          let r = copy_each copy (place.project (h.cells a)) h in
          let k = (alloc (place.inject r.0) r.1).1 in
          let b = (alloc (place.inject r.0) r.1).0 in
          let p = copy_each-IsDeep (place.project (h.cells a)) h (λ c i. l c (inr i)) in
          let q = alloc-Keeps (place.inject r.0) r.1 in
          let content : place.project (k.cells b) ≡ r.0 =
            ap place.project (alloc-cell (place.inject r.0) r.1) ∙ place.project-inject r.0 in
          let settled = Keeps-frame (each s) r.0 r.1 k q (λ c i. (p.fresh c i).1) in
          record {
            keeps = Keeps-trans h r.1 k p.keeps q;
            same = ap some (ap (view_each s k.cells) content ∙ (settled.0 ∙ p.same));
            fresh = λ c i. elim i [
              | inl e ↦
                  subst (λ d. (h.next ≤ d) × (d < k.next)) (sym e)
                    (alloc-Fresh (place.inject r.0) h r.1 p.keeps)
              | inr j ↦
                  Keeps-Fresh (each s) r.0 h r.1 k q p.fresh c
                    (subst (λ t. In c (reach_each s k.cells t)) content j)
            ];
          }

      pub copy_ref-IsDeep : IsDeep (ref s place) (copy_ref place copy)
      unfolding copy_ref
      copy_ref-IsDeep none h l = record {
        keeps = Keeps-refl h;
        same = refl;
        fresh = λ a i. absurd i;
      }
      copy_ref-IsDeep (some a) h l = copy_cell-IsCopy a h l

-- A shape with a function that makes deep copies of it.
pub record Deep (Cell A : Type 0) : Type 1 where
  pub shape : Shape Cell A
  pub copy : Copier Cell A
  pub deep : IsDeep shape copy

module _ {Cell : Type 0} where
  abbrev pub flat_deep : (A : Type 0) → Deep Cell A
  flat_deep A = record { shape = flat A; copy = assign; deep = assign-IsDeep }

  abbrev pub ref_deep : {A : Type 0} → Place Cell A → Deep Cell A → Deep Cell (Option ℕ)
  ref_deep place d = record {
    shape = ref d.shape place;
    copy = copy_ref place d.copy;
    deep = copy_ref-IsDeep d.shape d.copy d.deep place;
  }

  infixr 4 ◌followed_by◌
  abbrev pub ◌followed_by◌ : {A B : Type 0} → Deep Cell A → Deep Cell B → Deep Cell (A × B)
  d followed_by e = record {
    shape = both d.shape e.shape;
    copy = copy_both d.copy e.copy;
    deep = both-IsDeep d.shape e.shape d.copy e.copy d.deep e.deep;
  }

  -- A struct whose fields are copied in a row.
  pub by_fields-IsCopy :
      {A B : Type 0} (fields : A → B) (d : Deep Cell B) (x : A) (h : Heap Cell) (r : A × Heap Cell)
      → d.copy (fields x) h ≡ (fields r.0, r.1)
      → Allocated (d.shape.reach h.cells (fields x)) h
      → IsCopy (by_fields fields d.shape) x h r
  by_fields-IsCopy fields d x h r e l =
      let p = subst (IsCopy d.shape (fields x) h) e (d.deep (fields x) h l) in
      record { keeps = p.keeps; same = p.same; fresh = p.fresh }
