-- ===== src/DeepCopy.antt =====
-- pkg/apis/mesh/v1alpha1/zz_generated.deepcopy.go: a memory of cells, and the steps that the
-- generated functions are made of. A slice or a pointer is nil or the address of its cell, which
-- holds the elements; a pointer's cell holds one.
pub mod Shapes
pub mod Freshness
pub mod Steps
pub mod Types
pub mod Copies
pub mod Views
pub mod Structs
pub mod Independence
use k_mesh.Base.{ℕ, ◌+◌, ◌≡◌, Option, none, some, List, [], ◌∷◌, ◌==◌, if◌then◌else◌}

pub record Heap (Cell : Type 0) : Type 0 where
  pub next : ℕ
  pub cells : ℕ → Cell

-- A cell that holds elements of one type: its constructor, and its content. Go's types see to it
-- that an address is read at the type that it was taken for.
pub record Place (Cell A : Type 0) : Type 0 where
  pub inject : List A → Cell
  pub project : Cell → List A
  pub project-inject : (xs : List A) → project (inject xs) ≡ xs

-- A copying function: from `*in` to `*out`.
abbrev pub Copier : Type 0 → Type 0 → Type 0
Copier Cell A = A → Heap Cell → A × Heap Cell

module _ {Cell : Type 0} where
  -- `new` and `make`, with what is then written to the cell
  unfoldable pub alloc : Cell → Heap Cell → ℕ × Heap Cell
  alloc c h =
      (h.next, record { next = h.next + 1; cells = λ a. if a == h.next then c else h.cells a })

  module _ {A : Type 0} where
    -- `*out = *in`
    unfoldable pub assign : Copier Cell A
    assign x h = (x, h)

    -- `for i := range *in { (*in)[i].DeepCopyInto(&(*out)[i]) }`, and `copy(*out, *in)`
    unfoldable pub copy_each : Copier Cell A → List A → Heap Cell → List A × Heap Cell
    copy_each copy [] h = ([], h)
    copy_each copy (x ∷ xs) h =
        let r = copy x h in let s = copy_each copy xs r.1 in (r.0 ∷ s.0, s.1)

    -- `*out = make(…)` or `*out = new(…)`, and the copies of the elements
    unfoldable pub copy_cell : Place Cell A → Copier Cell A → ℕ → Heap Cell → ℕ × Heap Cell
    unfolding copy_each alloc
    copy_cell place copy a h =
        let r = copy_each copy (place.project (h.cells a)) h in alloc (place.inject r.0) r.1

    -- `if in.Field != nil { … }`
    unfoldable pub copy_ref : Place Cell A → Copier Cell A → Copier Cell (Option ℕ)
    unfolding copy_cell
    copy_ref place copy none h = (none, h)
    copy_ref place copy (some a) h = let r = copy_cell place copy a h in (some r.0, r.1)
