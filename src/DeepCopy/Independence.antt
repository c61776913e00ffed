-- ===== src/DeepCopy/Independence.antt =====
-- What `DeepCopy` is worth to a caller: later writes through one of the two values, to any cell that
-- it alone can reach, do not show in the other.
use k_mesh.Base.{ℕ, ◌≤◌, ◌<◌, ◌≡◌, ap, ◌∙◌, Option, none, some, List, []}
use k_mesh.DeepCopy.{Heap, alloc, copy_ref}
use k_mesh.DeepCopy.Shapes.{Shape, view_each, ref}
use k_mesh.DeepCopy.Freshness.{Allocated, IsCopy}
use k_mesh.DeepCopy.Steps.{alloc-cell, copy_cell-IsCopy, copy_ref-IsDeep}
use k_mesh.DeepCopy.Types.{
  Library, Cell, mesh_place, binding_place, mesh_list_place, binding_list_place, ingress_place,
}
use k_mesh.DeepCopy.Views.{
  Views, AreDeep, ingress_shape, mesh_shape, binding_shape, mesh_list_shape, binding_list_shape,
}
use k_mesh.DeepCopy.Copies.{
  Copiers, copy_ingress, copy_mesh, copy_binding, copy_mesh_list, copy_binding_list, copy_ingresses,
  deep_copy_mesh, deep_copy_binding, deep_copy_mesh_list, deep_copy_binding_list,
  deep_copy_ingresses,
}
use k_mesh.DeepCopy.Structs.{
  copy_ingress-IsDeep, copy_mesh-IsDeep, copy_binding-IsDeep, copy_mesh_list-IsDeep,
  copy_binding_list-IsDeep,
}

-- A copy `r` of `x`, made from `h`.
pub record IsIndependent {Cell A : Type 0} (s : Shape Cell A) (x : A) (h : Heap Cell)
    (r : A × Heap Cell) : Type 0 where
  -- The copy stands for what the original stood for,
  pub same : s.view r.1.cells r.0 ≡ s.view h.cells x
  -- also after writes to cells that were there before,
  pub copy_survives :
      (g : ℕ → Cell) → ((a : ℕ) → h.next ≤ a → g a ≡ r.1.cells a) → s.view g r.0 ≡ s.view h.cells x
  -- and so does the original after writes to cells taken since.
  pub original_survives :
      (g : ℕ → Cell) → ((a : ℕ) → a < h.next → g a ≡ r.1.cells a) → s.view g x ≡ s.view h.cells x

module _ {Cell A : Type 0} where
  IsCopy-IsIndependent :
      (s : Shape Cell A) (x : A) (h : Heap Cell) (r : A × Heap Cell)
      → Allocated (s.reach h.cells x) h
      → IsCopy s x h r
      → IsIndependent s x h r
  IsCopy-IsIndependent s x h r l p = record {
    same = p.same;
    copy_survives = λ g e. (s.frame g r.1.cells r.0 (λ a i. e a (p.fresh a i).0)).0 ∙ p.same;
    original_survives =
        λ g e. (s.frame g h.cells x (λ a i. e a (l a i) ∙ p.keeps.same_cells a (l a i))).0;
  }

-- What a nil slice stands for, ranged over.
abbrev pub elements : {A : Type 0} → Option (List A) → List A
elements none = []
elements (some xs) = xs

module _ {L : Library} (K : Copiers L) (V : Views L) (deep : AreDeep K V) where
  -- If the vendored copying functions are deep, `DeepCopy` of a mesh that the memory holds, or of
  -- nil, gives an independent copy of it, its status with all classes, ingresses and egresses
  -- included.
  pub deep_copy_mesh-IsIndependent :
      (x : Option ℕ) (h : Heap (Cell L))
      → Allocated ((ref (mesh_shape V) mesh_place).reach h.cells x) h
      → IsIndependent (ref (mesh_shape V) mesh_place) x h (deep_copy_mesh K x h)
  unfolding deep_copy_mesh
  deep_copy_mesh-IsIndependent x h l =
      IsCopy-IsIndependent (ref (mesh_shape V) mesh_place) x h (deep_copy_mesh K x h) l
        (copy_ref-IsDeep (mesh_shape V) (copy_mesh K) (copy_mesh-IsDeep K V deep) mesh_place x h l)

  -- If the vendored copying functions are deep, `DeepCopy` of a broker binding that the memory
  -- holds, or of nil, gives an independent copy of it, its spec and its status included.
  pub deep_copy_binding-IsIndependent :
      (x : Option ℕ) (h : Heap (Cell L))
      → Allocated ((ref (binding_shape V) binding_place).reach h.cells x) h
      → IsIndependent (ref (binding_shape V) binding_place) x h (deep_copy_binding K x h)
  unfolding deep_copy_binding
  deep_copy_binding-IsIndependent x h l =
      IsCopy-IsIndependent (ref (binding_shape V) binding_place) x h (deep_copy_binding K x h) l (
        copy_ref-IsDeep (binding_shape V) (copy_binding K) (copy_binding-IsDeep K V deep)
          binding_place x h l)

  -- If the vendored copying functions are deep, `DeepCopy` of a list of meshes that the memory
  -- holds, or of nil, gives an independent copy of it, every item included with all that it reaches.
  pub deep_copy_mesh_list-IsIndependent :
      (x : Option ℕ) (h : Heap (Cell L))
      → Allocated ((ref (mesh_list_shape V) mesh_list_place).reach h.cells x) h
      → IsIndependent (ref (mesh_list_shape V) mesh_list_place) x h (deep_copy_mesh_list K x h)
  unfolding deep_copy_mesh_list
  deep_copy_mesh_list-IsIndependent x h l =
      IsCopy-IsIndependent (ref (mesh_list_shape V) mesh_list_place) x h (deep_copy_mesh_list K x h)
        l
        (copy_ref-IsDeep (mesh_list_shape V) (copy_mesh_list K) (copy_mesh_list-IsDeep K V deep)
          mesh_list_place x h l)

  -- If the vendored copying functions are deep, `DeepCopy` of a list of broker bindings that the memory
  -- holds, or of nil, gives an independent copy of it, every item included with all that it reaches.
  pub deep_copy_binding_list-IsIndependent :
      (x : Option ℕ) (h : Heap (Cell L))
      → Allocated ((ref (binding_list_shape V) binding_list_place).reach h.cells x) h
      → IsIndependent
          (ref (binding_list_shape V) binding_list_place)
          x
          h
          (deep_copy_binding_list K x h)
  unfolding deep_copy_binding_list
  deep_copy_binding_list-IsIndependent x h l =
      IsCopy-IsIndependent (ref (binding_list_shape V) binding_list_place) x h
        (deep_copy_binding_list K x h) l
        (copy_ref-IsDeep (binding_list_shape V) (copy_binding_list K)
          (copy_binding_list-IsDeep K V deep) binding_list_place x h l)

  -- If the vendored copying functions are deep, `DeepCopy` of a slice of ingresses that the memory
  -- holds gives an independent copy, nil for nil, while `DeepCopyInto` leaves a slice that is never
  -- nil: of copies of the same ingresses, and empty where the slice is nil.
  pub copy_ingresses-deep_copy_ingresses :
      (x : Option ℕ) (h : Heap (Cell L))
      → Allocated ((ref (ingress_shape V) ingress_place).reach h.cells x) h
      → let s = ref (ingress_shape V) ingress_place in
        let r = copy_ingresses K x h in
        IsIndependent s x h (deep_copy_ingresses K x h)
        × (s.view r.1.cells r.0 ≡ some (elements (s.view h.cells x)))
  unfolding deep_copy_ingresses copy_ingresses copy_ref
  copy_ingresses-deep_copy_ingresses none h l = (
    IsCopy-IsIndependent (ref (ingress_shape V) ingress_place) none h (none, h) l
        (copy_ref-IsDeep (ingress_shape V) (copy_ingress K) (copy_ingress-IsDeep K V deep)
          ingress_place none h l),
    ap
        (λ c. some (
          view_each (ingress_shape V) (alloc (ingress_place.inject []) h).1.cells
            (ingress_place.project c)))
        (alloc-cell (ingress_place.inject []) h),
  )
  copy_ingresses-deep_copy_ingresses (some a) h l =
      let p =
        copy_cell-IsCopy (ingress_shape V) (copy_ingress K) (copy_ingress-IsDeep K V deep)
          ingress_place a h l in
      (IsCopy-IsIndependent _ (some a) h _ l p, p.same)
