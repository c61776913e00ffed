-- ===== src/Cli/Status.antt =====
-- magefile.go: the commands that show tables of meshes and of brokers. Rendering is go-pretty's;
-- a table is what it is given to render, without its style.
pub mod Meshes
use k_mesh.Base.{ℕ, Option, none, some, List, [], ◌∷◌, ◌++◌, map}
use k_mesh.Base.Text.{Text, text}
use k_mesh.Base.Dict.{Dict}
use k_mesh.Base.Result.{Err, Result, ok, err, ◌>>=◌}
use k_mesh.Api.{KMesh}
use k_mesh.Cli.{Effect, Terminal, emit, kmesh_header}
use k_mesh.Cli.Brokers.{
  BrokerInfo, Machine, Checked, value, fatal, index_out_of_range, get_brokers_info, brokers_effects,
  new_broker_table_row,
}
use k_mesh.Cli.Table.{Row, new_mesh_table_row}

-- `table.Writer`
pub record Table : Type 0 where
  pub header : List Text
  pub rows : List (List Text)
  -- the columns whose equal cells are merged
  pub auto_merge : List ℕ

-- How a command ends, with what it printed until then.
pub data Outcome : Type 0 where
  returned : List Effect → Option Err → Outcome
  exited : List Effect → Text → Outcome
  panicked : List Effect → Outcome

-- What `clientcmd`, the clientset and the API server answer; `HOME`; the order in which Go ranges
-- over the map of brokers; and go-pretty.
pub record Shell : Type 1 where
  pub Config : Type 0
  pub Clientset : Type 0
  pub build_config_from_flags : Text → Text → Result Config
  pub new_for_config : Config → Result Clientset
  pub list_meshes : Clientset → Text → Result (List KMesh)
  pub home : Text
  -- `filepath.Join`
  pub join : List Text → Text
  pub order : Dict BrokerInfo → List BrokerInfo
  pub render : Table → Text
  -- the format without colours, in which the pictures are drawn
  pub plain_format : Text → Text
  pub terminal : Terminal
  pub machine : Machine

-- `newTable`
abbrev pub new_table : Table
new_table = record { header = []; rows = []; auto_merge = [] }

abbrev pub cells : Row → List Text
cells (a, b, c) = a ∷ b ∷ c ∷ []

abbrev pub append_rows : List (List Text) → Table → Table
append_rows rows t = record t { rows = t.rows ++ rows }

module _ (sh : Shell) where
  -- `newClientSet`
  unfoldable pub new_client_set : Result sh.Clientset
  new_client_set =
      sh.build_config_from_flags [] (sh.join (sh.home ∷ text ".kube" ∷ text "config" ∷ []))
      >>= sh.new_for_config

  -- `for _, m := range kmeshList.Items`; `none` is a panic
  unfoldable pub append_meshes : List KMesh → Table → Option Table
  append_meshes [] t = some t
  append_meshes (m ∷ ms) t = elim (new_mesh_table_row sh.plain_format sh.terminal (some m)) [
    | none ↦ none
    | some rows ↦ append_meshes ms (append_rows (map cells rows) t)
  ]

  -- The test on `kmeshList.Items`
  unfoldable pub append_items : List KMesh → Table → Option Table
  unfolding append_meshes
  append_items [] t = elim (new_mesh_table_row sh.plain_format sh.terminal none) [
    | none ↦ none
    | some rows ↦ some (append_rows (map cells rows) t)
  ]
  append_items (m ∷ ms) t = append_meshes (m ∷ ms) t

  abbrev pub listed : Result (List KMesh)
  listed = new_client_set >>= λ client_set. sh.list_meshes client_set (text "knative-mesh")

  -- `addMeshRows`, with the table and the error; `none` is a panic
  unfoldable pub add_mesh_rows : Table → Option (Table × Option Err)
  unfolding append_items new_client_set
  add_mesh_rows t =
      let t' : Table = record t {
        header = text "Broker Classes" ∷ text "Ingress Details" ∷ text "Status" ∷ [];
      } in
      elim listed [
        | err e ↦ some (t', some e)
        | ok items ↦ elim (append_items items t') [ none ↦ none | some u ↦ some (u, none) ]
      ]

  -- `kmeshStatus`
  unfoldable pub kmesh_status : List Effect → Outcome
  unfolding add_mesh_rows
  kmesh_status trace = elim (add_mesh_rows (record new_table { auto_merge = 1 ∷ [] })) [
    | none ↦ panicked trace
    | some (t, some e) ↦ returned trace (some e)
    | some (t, none) ↦ returned (emit (sh.render t) trace) none
  ]

  -- `addBrokersRows`
  unfoldable pub add_brokers_rows : Table → Checked Table
  add_brokers_rows t =
      let t' : Table = record t {
        header = text "Broker" ∷ text "Broker Class" ∷ text "Version" ∷ text "Status" ∷ [];
      } in
      elim (get_brokers_info sh.machine) [
        | value brokers ↦
            value (append_rows (map (new_broker_table_row sh.terminal) (sh.order brokers)) t')
        | fatal m ↦ fatal m
        | index_out_of_range ↦ index_out_of_range
      ]

  -- `t.Render()`, after the rows; the trace is that after the run of kubectl
  abbrev pub show_brokers : List Effect → Checked Table → Outcome
  show_brokers trace (value t) = returned (emit (sh.render t) trace) none
  show_brokers trace (fatal m) = exited trace m
  show_brokers trace index_out_of_range = panicked trace

  -- `brokersStatus`
  unfoldable pub brokers_status : List Effect → Outcome
  unfolding add_brokers_rows
  brokers_status trace =
      show_brokers
        (emit (sh.terminal.upper (sh.terminal.bold (text "Broker Providers:")) ++ text "\n") trace
          ++ brokers_effects sh.machine)
        (add_brokers_rows new_table)

  -- A call whose error is dropped, and what comes after it.
  abbrev pub regardless : Outcome → (List Effect → Outcome) → Outcome
  regardless (returned trace e) next = next trace
  regardless (exited trace m) next = exited trace m
  regardless (panicked trace) next = panicked trace

  -- The title that `Status` prints above the table of meshes.
  abbrev pub titled_header : List Effect → List Effect
  titled_header trace =
      emit (sh.terminal.upper (sh.terminal.bold (text "Kmesh Status:")) ++ text "\n")
        (kmesh_header sh.terminal trace)

  -- `Status`
  unfoldable pub status : List Effect → Outcome
  unfolding kmesh_status brokers_status
  status trace = regardless (kmesh_status (titled_header trace)) (λ shown.
      regardless (brokers_status (emit (text "\n\n") shown)) (λ shown'. returned shown' none))

  -- `Mesh.Status`
  unfoldable pub mesh_status : List Effect → Outcome
  unfolding kmesh_status
  mesh_status trace = kmesh_status (kmesh_header sh.terminal trace)

  -- `Brokers.Status` and `Brokers.List`
  unfoldable pub brokers_list : List Effect → Outcome
  unfolding brokers_status
  brokers_list trace = brokers_status (kmesh_header sh.terminal trace)
