-- ===== src/Tests/Shells.antt =====
-- The status commands on small inputs.
use k_mesh.Base.{◌≡◌, refl, ap, ◌∙◌, inl, inr, false, none, some, List, [], ◌∷◌}
use k_mesh.Base.Text.{Text, text}
use k_mesh.Base.Result.{Err, failure, Result, ok, err}
use k_mesh.Api.{KMesh}
use k_mesh.Cli.{Terminal, emit}
use k_mesh.Cli.Brokers.{Machine}
use k_mesh.Cli.Table.{Row, new_mesh_table_row, mesh_rows, get_ingress_entries}
use k_mesh.Cli.Status.{Shell, returned, listed, kmesh_status, new_client_set}
use k_mesh.Cli.Status.Meshes.{kmesh_status-mesh_table}

-- A terminal without styles.
abbrev terminal : Terminal
terminal = record {
  green = λ t. t;
  yellow = λ t. t;
  red = λ t. t;
  faint = λ t. t;
  bold = λ t. t;
  upper = λ t. t;
  execute = λ trace cmd. none;
}

-- A machine without charts.
abbrev machine : Machine
machine = record {
  read_dir = λ d. err (failure (text "no directory"));
  read_file = λ f. err (failure (text "no file"));
  unmarshal = λ t. err (failure (text "no binding"));
  kubectl_get = ok [];
}

abbrev refused : Err
refused = failure (text "connection refused")

-- A shell on which the list of meshes gives this.
abbrev shell : Result (List KMesh) → Shell
shell answer = record {
  Config = Text;
  Clientset = Text;
  build_config_from_flags = λ master path. ok path;
  new_for_config = λ config. ok config;
  list_meshes = λ client_set namespace. answer;
  home = text "/root";
  join = λ parts. text "/root/.kube/config";
  order = λ brokers. [];
  render = λ t. text "table";
  plain_format = λ t. t;
  terminal = terminal;
  machine = machine;
}

listed-shell : (answer : Result (List KMesh)) → listed (shell answer) ≡ answer
unfolding new_client_set
listed-shell answer = refl

-- A mesh with one class and no ingress.
abbrev mesh : KMesh
mesh = record {
  meta = record {
    namespace = text "knative-mesh";
    name = text "mesh";
    uid = text "1";
    resource_version = text "1";
    finalizers = [];
    deleted = false;
  };
  status = record {
    status = record { observed_generation = 1; conditions = [] };
    broker_classes = text "Kafka" ∷ [];
    ingresses = [];
  };
}

abbrev rows : KMesh → List Row
rows m = (text "Kafka", text "-", text "Ready") ∷ []

mesh_has_rows : new_mesh_table_row (λ t. t) terminal (some mesh) ≡ some (rows mesh)
unfolding new_mesh_table_row mesh_rows get_ingress_entries
mesh_has_rows = refl

kmesh_status-mesh_table_example :
    kmesh_status (shell (ok (mesh ∷ []))) [] ≡ returned (emit (text "table") []) none
kmesh_status-mesh_table_example =
    kmesh_status-mesh_table (shell (ok (mesh ∷ []))) (mesh ∷ []) rows []
      (listed-shell (ok (mesh ∷ [])))
      (λ m i. elim i [
        | inl e ↦ ap (λ k. new_mesh_table_row (λ t. t) terminal (some k)) e ∙ mesh_has_rows
        | inr no_more ↦ absurd no_more
      ])
