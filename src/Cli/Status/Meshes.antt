-- ===== src/Cli/Status/Meshes.antt =====
-- The table of meshes.
use mathlib.Core.List.{append_assoc, append-nil}
use k_mesh.Base.{
  ◌≡◌, refl, sym, ap, ◌∙◌, inl, inr, none, some, List, [], ◌∷◌, ◌++◌, map, In, Option-cases,
}
use mathlib.Core.Option.{some-ne-none}
use k_mesh.Base.Text.{Text, text}
use k_mesh.Base.Result.{ok}
use k_mesh.Api.{KMesh}
use k_mesh.Cli.{Effect, emit}
use k_mesh.Cli.Table.{Row, new_mesh_table_row}
use k_mesh.Cli.Status.{
  Shell, Table, returned, panicked, cells, append_rows, append_meshes, append_items, listed,
  add_mesh_rows, kmesh_status,
}

-- The rows of the meshes in order, or the row that says that there is none.
abbrev pub gather : (KMesh → List Row) → List KMesh → List (List Text)
gather rows [] = []
gather rows (m ∷ ms) = map cells (rows m) ++ gather rows ms

abbrev pub shown_rows : Shell → (KMesh → List Row) → List KMesh → List (List Text)
shown_rows sh rows [] =
    (text "-" ∷ text "-" ∷ sh.terminal.yellow (text "Not initialized") ∷ []) ∷ []
shown_rows sh rows (m ∷ ms) = gather rows (m ∷ ms)

-- The table of meshes with these rows.
abbrev pub mesh_table : List (List Text) → Table
mesh_table rows = record {
  header = text "Broker Classes" ∷ text "Ingress Details" ∷ text "Status" ∷ [];
  rows = rows;
  auto_merge = 1 ∷ [];
}

module _ (sh : Shell) where
  append_meshes-gather :
      (rows : KMesh → List Row) (ms : List KMesh) (t : Table)
      → ((m : KMesh)
          → In m ms
          → new_mesh_table_row sh.plain_format sh.terminal (some m) ≡ some (rows m))
      → append_meshes sh ms t ≡ some (append_rows (gather rows ms) t)
  unfolding append_meshes
  append_meshes-gather rows [] t h =
      ap (λ l. some (record t { rows = l })) (sym (append-nil t.rows))
  append_meshes-gather rows (m ∷ ms) t h =
      rw (h m (inl refl), append_meshes)
        (append_meshes-gather rows ms (append_rows (map cells (rows m)) t) (λ k i. h k (inr i))
          ∙ ap (λ l. some (record t { rows = l }))
              (append_assoc t.rows (map cells (rows m)) (gather rows ms)))

  append_meshes-none :
      (m : KMesh) (ms : List KMesh) (t : Table)
      → In m ms
      → new_mesh_table_row sh.plain_format sh.terminal (some m) ≡ none
      → append_meshes sh ms t ≡ none
  unfolding append_meshes
  append_meshes-none m [] t i h = absurd i
  append_meshes-none m (k ∷ ms) t i h =
      elim (Option-cases (new_mesh_table_row sh.plain_format sh.terminal (some k))) [
        | inl e ↦ rw (e, append_meshes)
        | inr (rows, e) ↦
            rw (e, append_meshes)
              (elim i [
                | inl p ↦ absurd (
                    some-ne-none rows (
                      sym e
                      ∙ ap (λ x. new_mesh_table_row sh.plain_format sh.terminal (some x)) (sym p)
                      ∙ h))
                | inr j ↦ append_meshes-none m ms (append_rows (map cells rows) t) j h
              ])
      ]

  append_items-shown_rows :
      (rows : KMesh → List Row) (items : List KMesh) (t : Table)
      → t.rows ≡ []
      → ((m : KMesh)
          → In m items
          → new_mesh_table_row sh.plain_format sh.terminal (some m) ≡ some (rows m))
      → append_items sh items t ≡ some (record t { rows = shown_rows sh rows items })
  unfolding append_items new_mesh_table_row
  append_items-shown_rows rows [] t e h =
      ap (λ l. some (record t { rows = l ++ shown_rows sh rows [] })) e
  append_items-shown_rows rows (m ∷ ms) t e h =
      append_meshes-gather rows (m ∷ ms) t h
      ∙ ap (λ l. some (record t { rows = l ++ gather rows (m ∷ ms) })) e

  append_items-none :
      (m : KMesh) (items : List KMesh) (t : Table)
      → In m items
      → new_mesh_table_row sh.plain_format sh.terminal (some m) ≡ none
      → append_items sh items t ≡ none
  unfolding append_items
  append_items-none m [] t i h = absurd i
  append_items-none m (k ∷ ms) t i h = append_meshes-none m (k ∷ ms) t i h

  -- Where the meshes are listed and every one has rows, one table is printed: the rows of every
  -- mesh in the order of the list, and for an empty list the one row that nothing is initialized.
  pub kmesh_status-mesh_table :
      (items : List KMesh) (rows : KMesh → List Row) (trace : List Effect)
      → listed sh ≡ ok items
      → ((m : KMesh)
          → In m items
          → new_mesh_table_row sh.plain_format sh.terminal (some m) ≡ some (rows m))
      → kmesh_status sh trace
        ≡ returned (emit (sh.render (mesh_table (shown_rows sh rows items))) trace) none
  unfolding kmesh_status add_mesh_rows
  kmesh_status-mesh_table items rows trace h p =
      rw (h, kmesh_status, add_mesh_rows, append_items-shown_rows rows items (mesh_table []) refl p)

  -- Where a mesh of the list has no rows, the command panics and prints no table.
  pub kmesh_status-panicked :
      (items : List KMesh) (m : KMesh) (trace : List Effect)
      → listed sh ≡ ok items
      → In m items
      → new_mesh_table_row sh.plain_format sh.terminal (some m) ≡ none
      → kmesh_status sh trace ≡ panicked trace
  unfolding kmesh_status add_mesh_rows
  kmesh_status-panicked items m trace h i p =
      rw (h, kmesh_status, add_mesh_rows, append_items-none m items (mesh_table []) i p)
