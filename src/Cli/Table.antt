-- ===== src/Cli/Table.antt =====
-- magefile.go: the rows of the mesh table, and the text of its ingress cells. `none` is a panic.
pub mod Rows
use k_mesh.Base.{
  ℕ, zero, suc, ◌+◌, ◌-◌, Bool, true, false, Option, none, some, List, [], ◌∷◌, ◌++◌, ltb,
  if◌then◌else◌, length, get_elem?,
}
use k_mesh.Base.Text.{Text, text}
use k_mesh.Api.{KReference, Destination, Egress, Ingress, KMesh}
use k_mesh.Print.{Node, new_node, insert, sp_print}
use k_mesh.Cli.{Terminal}

-- A row of three cells.
abbrev pub Row : Type 0
Row = Text × Text × Text

-- `if len(xs) == 0 { xs = []string{"-"} }`
abbrev pub or_dash : List Text → List Text
or_dash [] = text "-" ∷ []
or_dash (x ∷ xs) = x ∷ xs

-- `for _, i := range long`, with the index `c` into the other list that stays at its last.
spread : (Text → Text → Row) → List Text → ℕ → ℕ → List Text → Option (List Row)
spread row short last c [] = some []
spread row short last c (x ∷ xs) = elim (get_elem? short c) [
  | none ↦ none
  | some s ↦ elim (spread row short last (if ltb c last then c + 1 else c) xs) [
    | none ↦ none
    | some rows ↦ some (row s x ∷ rows)
  ]
]

-- The two loops of `newMeshTableRow`, over lists that are not empty.
unfoldable pub mesh_rows : Terminal → List Text → List Text → Option (List Row)
unfolding spread
mesh_rows tm classes ingresses =
    if ltb (length classes) (length ingresses)
    then spread (λ c i. (c, i, tm.green (text "Ready"))) classes (length classes - 1) 0 ingresses
    else spread (λ i c. (c, i, tm.green (text "Ready"))) ingresses (length ingresses - 1) 0 classes

-- `e.Destination.Ref`, which is dereferenced
unfoldable pub egress_label : Egress → Option Text
egress_label e = elim e.destination [
  | none ↦ none
  | some d ↦ elim d.ref [
    | none ↦ none
    | some r ↦ some (text "[" ++ (r.namespace ++ (text "/" ++ (r.name ++ text "]"))))
  ]
]

insert_egresses : Node → List Egress → Option Node
insert_egresses n [] = some n
insert_egresses n (e ∷ es) = elim (egress_label e) [
  | none ↦ none
  | some l ↦ insert_egresses (insert l n).0 es
]

module _ (plain_format : Text → Text) where
  -- The picture of an ingress with its egresses.
  topology : Ingress → Option Text
  topology i = elim (insert_egresses (new_node (text "[B] " ++ i.name)) i.egresses) [
    | none ↦ none
    | some n ↦ sp_print plain_format n
  ]

  unfoldable pub ingress_entry : Ingress → Option Text
  unfolding topology insert_egresses egress_label
  ingress_entry i = elim i.address [
    | none ↦ none
    | some a ↦
        let l = text "Broker: " ++ (i.name ++ (text " \nURL: " ++ (a.url ++ text "\n"))) in
        elim i.egresses [
          | [] ↦ some l
          | e ∷ es ↦ elim (topology i) [
            | none ↦ none
            | some t ↦ some ((l ++ text "\nTopology:\n") ++ (t ++ text "\n"))
          ]
        ]
  ]

  ingress_entries : List Ingress → Option (List Text)
  ingress_entries [] = some []
  ingress_entries (i ∷ is) = elim (ingress_entry i) [
    | none ↦ none
    | some l ↦ elim (ingress_entries is) [ none ↦ none | some ls ↦ some (l ∷ ls) ]
  ]

  -- `getIngressEntries`
  unfoldable pub get_ingress_entries : List Ingress → Option (List Text)
  unfolding ingress_entries ingress_entry
  get_ingress_entries [] = some (text "-" ∷ [])
  get_ingress_entries (i ∷ is) = ingress_entries (i ∷ is)

  -- `newMeshTableRow`
  unfoldable pub new_mesh_table_row : Terminal → Option KMesh → Option (List Row)
  unfolding mesh_rows get_ingress_entries
  new_mesh_table_row tm none = some ((text "-", text "-", tm.yellow (text "Not initialized")) ∷ [])
  new_mesh_table_row tm (some m) = elim (get_ingress_entries m.status.ingresses) [
    | none ↦ none
    | some ingresses ↦ mesh_rows tm (or_dash m.status.broker_classes) ingresses
  ]
