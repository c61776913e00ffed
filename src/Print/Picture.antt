-- ===== src/Print/Picture.antt =====
-- The drawing without its running state: each row from its place alone.
use mathlib.Core.List.{append-nil, append_assoc}
use k_mesh.Base.{
  ℕ, ◌+◌, ◌/◌, ◌<◌, ◌≡◌, refl, ap, ◌∙◌, Bool, true, false, some, List, [], ◌∷◌, ◌++◌, arith, ltb,
  ◌==◌, if◌then◌else◌, length,
}
use k_mesh.Base.Text.{Text, text, rune_count, repeat}
use k_mesh.Print.{
  new_cell_top, new_cell_text, new_cell_lower, to_ascii, joint, left_of, draw_child, draw_children,
  boxes, sp_rows,
}

-- The trunk beside the children runs here or does not.
abbrev pub trunk : Bool → Text
trunk true = text " ┃"
trunk false = text "  "

-- The box-drawing character that joins what comes from the left, from above and from below to
-- the arrow on the right.
abbrev pub junction : Bool → Bool → Bool → Text
junction true true true = text "╋"
junction true true false = text "┻"
junction true false true = text "┳"
junction true false false = text "━"
junction false true true = text "┣"
junction false true false = text "┗"
junction false false true = text "┏"
junction false false false = text "╺"

-- The arrow to child `i` of `n`: the parent's box stands beside the middle child; the trunk
-- comes from above but for the first child, and goes on below but for the last.
abbrev pub arrow : ℕ → ℕ → Text
arrow n i =
    (if i == n / 2 then text "━" else text " ")
    ++ (junction (i == n / 2) (ltb 0 i) (ltb (i + 1) n) ++ text "━━▶")

-- A line of the parent's box beside the middle child, and blanks of its width elsewhere.
abbrev pub beside : ℕ → ℕ → Text → Text
beside n i l = if i == n / 2 then l else repeat (text " ") (rune_count l)

-- The three rows for child `i` of `n`.
abbrev pub rows_of : Text → ℕ → ℕ → Text → List Text
rows_of parent n i child =
    (beside n i (new_cell_top parent) ++ ((trunk (ltb 0 i) ++ text "   ") ++ new_cell_top child))
    ∷ (beside n i (new_cell_text parent) ++ (arrow n i ++ new_cell_text child))
    ∷ (beside n i (new_cell_lower parent)
        ++ ((trunk (ltb (i + 1) n) ++ text "   ") ++ new_cell_lower child))
    ∷ []

abbrev pub picture : Text → ℕ → ℕ → List Text → List Text
picture parent n i [] = []
picture parent n i (c ∷ cs) = rows_of parent n i c ++ picture parent n (i + 1) cs

joint_first : (n m i : ℕ) (v : Text) → joint n m i 0 v ≡ (v ++ text "   ", v)
unfolding joint
joint_first n m i v = refl

joint_last : (n m i : ℕ) (v : Text) → joint n m i 2 v ≡ (v ++ text "   ", v)
unfolding joint
joint_last n m i v = refl

joint_middle :
    (n i : ℕ) → i < n → joint n (n / 2) i 1 (trunk (ltb 0 i)) ≡ (arrow n i, trunk (ltb (i + 1) n))
unfolding joint
joint_middle n i h = ground arith

draw_child-rows_of :
    (parent : Text) (n i : ℕ) (child : Text) (rows : List Text)
    → i < n
    → draw_child (to_ascii parent) n (n / 2) i 0 (trunk (ltb 0 i)) (to_ascii child) rows
      ≡ some (rows ++ rows_of parent n i child, trunk (ltb (i + 1) n))
unfolding draw_child to_ascii left_of
draw_child-rows_of parent n i child rows h =
    simp (joint_first, joint_middle n i h, joint_last, append_assoc)

draw_children-picture :
    (parent : Text) (n i : ℕ) (v : Text) (children : List Text) (rows : List Text)
    → n ≡ i + length children
    → (0 < length children → v ≡ trunk (ltb 0 i))
    → draw_children (to_ascii parent) n (n / 2) i v (boxes children) rows
      ≡ some (rows ++ picture parent n i children)
unfolding draw_children
draw_children-picture parent n i v [] rows e h = rw append-nil
draw_children-picture parent n i v (c ∷ cs) rows e h = rw (h (omega arith)) (
    rw (draw_child-rows_of parent n i c rows (omega arith), draw_children)
      (draw_children-picture parent n (i + 1) (trunk (ltb (i + 1) n)) cs
          (rows ++ rows_of parent n i c) (omega arith) (λ more. ap trunk (ground arith))
        ∙ ap some (append_assoc rows (rows_of parent n i c) (picture parent n (i + 1) cs))))

-- The rows that the loops draw are those of the picture: the loops never look outside the
-- parent's box, and the carried state `vertical` is the trunk.
pub sp_rows-picture :
    (parent : Text) (children : List Text)
    → sp_rows parent children ≡ some (picture parent (length children) 0 children)
unfolding sp_rows
sp_rows-picture parent children =
    draw_children-picture parent (length children) 0 (text "  ") children [] (omega arith)
      (λ _. refl)
