-- ===== src/DeepCopy/Freshness.antt =====
-- What a copy promises: it stands for the same as the original, in cells that were taken for it.
use k_mesh.Base.{ℕ, ◌≤◌, ◌<◌, ◌≡◌, refl, subst, ◌∙◌, List, arith, In}
use k_mesh.DeepCopy.{Heap, Copier}
use k_mesh.DeepCopy.Shapes.{Shape}

module _ {Cell : Type 0} where
  -- The memory has given out every address that is reached.
  abbrev pub Allocated : List ℕ → Heap Cell → Type 0
  Allocated addresses h = (a : ℕ) → In a addresses → a < h.next

  -- From `h` on, nothing was written but to cells that were taken since.
  pub record Keeps (h k : Heap Cell) : Type 0 where
    pub grows : h.next ≤ k.next
    pub same_cells : (a : ℕ) → a < h.next → k.cells a ≡ h.cells a

  abbrev pub Fresh : List ℕ → Heap Cell → Heap Cell → Type 0
  Fresh addresses h k = (a : ℕ) → In a addresses → (h.next ≤ a) × (a < k.next)

  -- A copy of `x`, made from `h`: it stands for the same, in cells taken since.
  pub record IsCopy {A : Type 0} (s : Shape Cell A) (x : A) (h : Heap Cell) (r : A × Heap Cell)
      : Type 0 where
    pub keeps : Keeps h r.1
    pub same : s.view r.1.cells r.0 ≡ s.view h.cells x
    pub fresh : Fresh (s.reach r.1.cells r.0) h r.1

  -- The function makes a copy of each value that the memory holds.
  abbrev pub IsDeep : {A : Type 0} → Shape Cell A → Copier Cell A → Type 0
  IsDeep {A} s copy =
      (x : A) (h : Heap Cell) → Allocated (s.reach h.cells x) h → IsCopy s x h (copy x h)

  pub Keeps-refl : (h : Heap Cell) → Keeps h h
  Keeps-refl h = record { grows = omega arith; same_cells = λ a l. refl }

  pub Keeps-trans : (f g h : Heap Cell) → Keeps f g → Keeps g h → Keeps f h
  Keeps-trans f g h p q = record {
    grows = omega (arith, p.grows, q.grows);
    same_cells = λ a l. q.same_cells a (omega (arith, p.grows)) ∙ p.same_cells a l;
  }

  module _ {A : Type 0} (s : Shape Cell A) where
    -- What is allocated stays what it is.
    pub Keeps-frame :
        (x : A) (h k : Heap Cell)
        → Keeps h k
        → Allocated (s.reach h.cells x) h
        → (s.view k.cells x ≡ s.view h.cells x) × (s.reach k.cells x ≡ s.reach h.cells x)
    Keeps-frame x h k p l = s.frame k.cells h.cells x (λ a i. p.same_cells a (l a i))

    pub Keeps-Allocated :
        (x : A) (h k : Heap Cell)
        → Keeps h k
        → Allocated (s.reach h.cells x) h
        → Allocated (s.reach k.cells x) k
    Keeps-Allocated x h k p l a i =
        let e = (Keeps-frame x h k p l).1 in
        let m : a < h.next = l a (subst (In a) e i) in omega (arith, m, p.grows)

    pub Keeps-Fresh :
        (x : A) (f g h : Heap Cell)
        → Keeps g h
        → Fresh (s.reach g.cells x) f g
        → Fresh (s.reach h.cells x) f h
    Keeps-Fresh x f g h q l a i =
        let e = (Keeps-frame x g h q (λ b j. (l b j).1)).1 in
        let m = l a (subst (In a) e i) in (m.0, omega (arith, m.1, q.grows))
