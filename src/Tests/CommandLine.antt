-- ===== src/Tests/CommandLine.antt =====
-- The command line and the drawing on small inputs.
use Prim.Native.Nat.{min}
use k_mesh.Base.{ℕ, ◌<◌, ◌≡◌, true, none, some, List, [], ◌∷◌, arith, length, get_elem?, map}
use k_mesh.Base.Text.{Text, text}
use k_mesh.Base.Dict.{Dict, insert}
use k_mesh.Base.Result.{failure, ok}
use k_mesh.Print.{sp_rows}
use k_mesh.Print.Picture.{picture, sp_rows-picture}
use k_mesh.Print.Widths.{sp_rows-widths}
use k_mesh.Cli.Sequence.{RunsInOrder, install-RunsInOrder}
use k_mesh.Cli.{kubectl_apply, install, infra_install_cli, Terminal}
use k_mesh.Cli.Words.{split, split_from, trim_space}
use k_mesh.Tests.Cluster.{binding}
use k_mesh.Cli.Brokers.{
  available, BrokerInfo, Line, Machine, value, chart_classes, read_chart, read_charts, apply_lines,
  get_brokers_info, install_broker, apply_line,
}
use k_mesh.Cli.Brokers.Install.{InstallsAs, install_broker_lem}
use k_mesh.Cli.Table.{Row, mesh_rows}
use k_mesh.Cli.Table.Rows.{mesh_rows_lem}

-- A terminal without styles, on which every command fails.
abbrev terminal : Terminal
terminal = record {
  green = λ t. t;
  yellow = λ t. t;
  red = λ t. t;
  faint = λ t. t;
  bold = λ t. t;
  upper = λ t. t;
  execute = λ trace cmd. some (failure (text "exit status 1"));
}

abbrev brokers : Dict BrokerInfo
brokers =
    (
      text "kafka",
      record { name = text "kafka"; namespace = []; classes = text "Kafka"; state = available },
    )
    ∷ []

abbrev kafka_line : Line
kafka_line = record {
  name = text "kafka";
  namespace = text "ns";
  ready = text "True";
  classes = text "[\"Kafka\"]";
}

-- One chart, and no binding in the cluster.
abbrev machine : Machine
machine = record {
  read_dir = λ dir. ok (record { name = text "kafka"; is_dir = true } ∷ []);
  read_file = λ file. ok [];
  unmarshal =
      λ file. ok (record binding { spec = record { classes = text "Kafka" ∷ []; kmesh = none } });
  kubectl_get = ok [];
}

-- The chart's broker is installed: kubectl and helm are executed, and the error is helm's.
install_broker_lem_example :
    InstallsAs terminal
      (λ e. [])
      machine
      (text "kafka")
      []
      (value brokers)
      (install_broker terminal (λ e. []) machine (text "kafka") [])
unfolding get_brokers_info read_charts read_chart chart_classes insert apply_lines apply_line split
    split_from trim_space
install_broker_lem_example = install_broker_lem terminal (λ e. []) machine (text "kafka") []

mesh_rows_lem_example :
    (rows : List Row) × (mesh_rows terminal (text "a" ∷ []) (text "i" ∷ text "j" ∷ []) ≡ some rows)
    × (length rows ≡ 2)
    × ((j : ℕ)
        → j < length rows
        → (c : Text) × (i : Text) × (get_elem? (text "a" ∷ []) (min j 0) ≡ some c)
          × (get_elem? (text "i" ∷ text "j" ∷ []) (min j 1) ≡ some i)
          × (get_elem? rows j ≡ some (c, i, text "Ready")))
mesh_rows_lem_example =
    mesh_rows_lem terminal (text "a" ∷ []) (text "i" ∷ text "j" ∷ []) (omega arith) (omega arith)

sp_rows-picture_example :
    sp_rows (text "b") (text "x" ∷ text "y" ∷ [])
    ≡ some (picture (text "b") 2 0 (text "x" ∷ text "y" ∷ []))
sp_rows-picture_example = sp_rows-picture (text "b") (text "x" ∷ text "y" ∷ [])

sp_rows-widths_example :
    (rows : List Text) × (sp_rows (text "b") (text "xy" ∷ []) ≡ some rows)
    × (map length rows ≡ 20 ∷ 20 ∷ 20 ∷ [])
sp_rows-widths_example =
    sp_rows-widths (text "b") (text "xy" ∷ []) (omega arith, tt)
      ((omega arith, (omega arith, tt)), tt)

install-RunsInOrder_example :
    RunsInOrder terminal
      (kubectl_apply terminal (text "artifacts/core/eventing-core.yaml")
        ∷ kubectl_apply terminal (text "artifacts/core/in-memory-channel.yaml")
        ∷ kubectl_apply terminal (text "artifacts/core/knative-mesh-operator.yaml")
        ∷ [])
      (install terminal)
    × RunsInOrder terminal
        ((text "mage" ∷ text "-compile" ∷ text "kmesh" ∷ [])
          ∷ (text "cp" ∷ text "kmesh" ∷ text "/go/bin" ∷ [])
          ∷ [])
        (infra_install_cli terminal (text "/go"))
install-RunsInOrder_example = install-RunsInOrder terminal (text "/go")
