-- ===== src/Print.antt =====
-- pkg/print/draw.go: boxes for a node and its children, drawn side by side. The text that is
-- written row by row is kept as the list of its rows.
pub mod Picture
pub mod Widths
use k_mesh.Base.{
  ℕ, zero, suc, ◌+◌, ◌-◌, ◌/◌, Bool, true, false, Option, none, some, List, [], ◌∷◌, ◌++◌, ltb,
  ◌==◌, if◌then◌else◌, length, get_elem?, map,
}
use k_mesh.Base.Text.{Text, text, byte_len, rune_count, repeat}

-- `Node`; the vertices in each direction are pointers to nodes of their own
mutual
  pub data Node : Type 0 where
    node : Text → Nodes → Nodes → Node

  pub data Nodes : Type 0 where
    nil : Nodes
    cons : Node → Nodes → Nodes

abbrev pub name : Node → Text
name (node n out into) = n

abbrev pub append : Nodes → Node → Nodes
append nil v = cons v nil
append (cons n ns) v = cons n (append ns v)

abbrev pub names : Nodes → List Text
names nil = []
names (cons n ns) = name n ∷ names ns

-- `OutVertices`, of which the drawing uses the names
abbrev pub out_names : Node → List Text
out_names (node n out into) = names out

-- `NewNode`
unfoldable pub new_node : Text → Node
new_node n = node n nil nil

-- `(*Node).VertLen`
unfoldable pub vert_len : Node → ℕ
vert_len n = length (out_names n)

-- `(*Node).Insert`: the changed node, and the new one
unfoldable pub insert : Text → Node → Node × Node
unfolding new_node
insert n (node m out into) = (node m (append out (new_node n)) into, new_node n)

unfoldable pub new_cell_top : Text → Text
unfolding byte_len
new_cell_top t = text "┏" ++ (repeat (text "━") (byte_len t + 4) ++ text "┓")

unfoldable pub new_cell_text : Text → Text
new_cell_text t = text "┃  " ++ (t ++ text "  ┃")

unfoldable pub new_cell_lower : Text → Text
unfolding byte_len
new_cell_lower t = text "┗" ++ (repeat (text "━") (byte_len t + 4) ++ text "┛")

-- `toAscii`, of the node's name
unfoldable pub to_ascii : Text → List Text
unfolding new_cell_top new_cell_text new_cell_lower
to_ascii t = new_cell_top t ∷ new_cell_text t ∷ new_cell_lower t ∷ []

-- `mid` for row `j` of child `i` of `n`, where `m` is the middle child: the piece that joins the
-- boxes, and the new value of `vertical`.
joint : ℕ → ℕ → ℕ → ℕ → Text → Text × Text
joint n m i j vertical =
    if j == 1
    then if n == 1
      then (text "━━━━▶", vertical)
      else if n == 2
      then if i == 0 then (text " ┏━━▶", text " ┃") else (text "━┻━━▶", text "  ")
      else if i == 0
      then (text " ┏━━▶", text " ┃")
      else if i == m
      then (text "━╋━━▶", text " ┃")
      else if ltb i (n - 1)
      then (text " ┣━━▶", text " ┃")
      else (text " ┗━━▶", text "  ")
    else (vertical ++ text "   ", vertical)

-- `left`; `none` where `output[j]` is out of range
left_of : List Text → Bool → ℕ → Option Text
left_of output print_node j = elim (get_elem? output j) [
  | none ↦ none
  | some l ↦ some (if print_node then l else repeat (text " ") (rune_count l))
]

-- The loop over the lines of a child.
draw_child : List Text → ℕ → ℕ → ℕ → ℕ → Text → List Text → List Text → Option (List Text × Text)
draw_child output n m i j vertical [] rows = some (rows, vertical)
draw_child output n m i j vertical (l ∷ ls) rows = elim (left_of output (i == m) j) [
  | none ↦ none
  | some left ↦
      let (mid, vertical') = joint n m i j vertical in
      draw_child output n m i (j + 1) vertical' ls (rows ++ ((left ++ (mid ++ l)) ∷ []))
]

-- The loop over the children.
draw_children : List Text → ℕ → ℕ → ℕ → Text → List (List Text) → List Text → Option (List Text)
draw_children output n m i vertical [] rows = some rows
draw_children output n m i vertical (c ∷ cs) rows =
    elim (draw_child output n m i 0 vertical c rows) [
      | none ↦ none
      | some (rows', vertical') ↦ draw_children output n m (i + 1) vertical' cs rows'
    ]

abbrev pub boxes : List Text → List (List Text)
boxes [] = []
boxes (t ∷ ts) = to_ascii t ∷ boxes ts

-- The rows drawn for a node with children, each ended by a line feed in the text.
unfoldable pub sp_rows : Text → List Text → Option (List Text)
unfolding to_ascii draw_children draw_child left_of joint
sp_rows n children =
    let m = length children / 2 in
    draw_children (to_ascii n) (length children) m 0 (text "  ") (boxes children) []

abbrev pub unlines : List Text → Text
unlines [] = []
unlines (r ∷ rs) = r ++ (text "\n" ++ unlines rs)

abbrev pub concat : List Text → Text
concat [] = []
concat (r ∷ rs) = r ++ concat rs

-- `SPPrint`. A node without children has its lines written as formats of `Fprintf` with no
-- argument, which `plain_format` stands for.
unfoldable pub sp_print : (Text → Text) → Node → Option Text
unfolding sp_rows to_ascii
sp_print plain_format n = elim (out_names n) [
  | [] ↦ some (concat (map plain_format (to_ascii (name n))))
  | c ∷ cs ↦ elim (sp_rows (name n) (c ∷ cs)) [ none ↦ none | some rows ↦ some (unlines rows) ]
]
