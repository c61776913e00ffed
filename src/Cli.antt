-- ===== src/Cli.antt =====
-- magefile.go: the `kmesh` command line. What the commands print and run is a trace.
pub mod Words
pub mod Brokers
pub mod Table
pub mod Sequence
pub mod Status
use k_mesh.Base.{Option, none, some, List, [], ◌∷◌, ◌++◌}
use k_mesh.Base.Text.{Text, text}
use k_mesh.Base.Result.{Err, failure}

-- What a command does to the outside, in order.
pub data Effect : Type 0 where
  printed : Text → Effect
  executed : List Text → Effect

-- The go-pretty text styles, and what executing a command gives after what was done so far.
pub record Terminal : Type 0 where
  pub green : Text → Text
  pub yellow : Text → Text
  pub red : Text → Text
  pub faint : Text → Text
  pub bold : Text → Text
  pub upper : Text → Text
  pub execute : List Effect → List Text → Option Err

-- `none` is Go's `nil` error.
abbrev pub Command : Type 0
Command = List Effect → List Effect × Option Err

-- `fmt.Print` of a text
abbrev pub emit : Text → List Effect → List Effect
emit t trace = trace ++ (printed t ∷ [])

-- The commands that a trace has executed.
abbrev pub executions : List Effect → List (List Text)
executions [] = []
executions (printed t ∷ trace) = executions trace
executions (executed c ∷ trace) = c ∷ executions trace

module _ (tm : Terminal) where
  -- `cmd.Run()`
  abbrev pub cmd_run : List Text → Command
  cmd_run cmd trace = (trace ++ (executed cmd ∷ []), tm.execute trace cmd)

  unfoldable pub do_run : List Text → Command
  do_run cmd trace =
      let (trace', e) = cmd_run cmd trace in
      elim e [
        | some x ↦ (trace', some x)
        | none ↦ (emit (tm.green (text "Done") ++ text "\n") trace', none)
      ]

  unfoldable pub run : Text → List Text → Command
  unfolding do_run
  run prompt cmd trace = do_run cmd (emit (prompt ++ text "..........") trace)

  unfoldable pub print_error : Text → List Effect → List Effect
  print_error msg = emit (tm.red (text "ERROR:") ++ (text "\t" ++ (msg ++ text "\n")))

  unfoldable pub kmesh_header : List Effect → List Effect
  kmesh_header = emit (text "\n" ++ (tm.bold (text "Knative Mesh 1.2.0") ++ text "\n\n"))

  -- `if err := first; err != nil { return err }`, then the rest
  abbrev pub and_then : Command → Command → Command
  and_then first second trace =
      let (trace', e) = first trace in elim e [ some x ↦ (trace', some x) | none ↦ second trace' ]

  abbrev pub kubectl_apply : Text → List Text
  kubectl_apply file = text "kubectl" ∷ text "apply" ∷ text "-f" ∷ file ∷ []

  -- `Install`
  unfoldable pub install : Command
  unfolding run
  install =
      and_then
        (run (text "Installing Knative Eventing")
          (kubectl_apply (text "artifacts/core/eventing-core.yaml")))
        (and_then
          (run (text "Installing Knative in-memory channel")
            (kubectl_apply (text "artifacts/core/in-memory-channel.yaml")))
          (run (text "Installing Knative Mesh")
            (kubectl_apply (text "artifacts/core/knative-mesh-operator.yaml"))))

  -- `Infra.Build`
  unfoldable pub infra_build : Command
  unfolding run
  infra_build = run (text "Building") (
      text "bash"
      ∷ text "-c"
      ∷ text
          "KO_DOCKER_REPO=kind.local ko resolve -B --platform linux/amd64 -f config > artifacts/core/knative-mesh-operator.yaml"
      ∷ [])

  -- `Infra.Kind`
  unfoldable pub infra_kind : Command
  infra_kind = cmd_run (
      text "kind"
      ∷ text "create"
      ∷ text "cluster"
      ∷ text "--config"
      ∷ text "artifacts/conf/clusterconfig.yaml"
      ∷ [])

  -- `Infra.InstallCLI`, with the value of GOPATH
  unfoldable pub infra_install_cli : Text → Command
  unfolding run
  infra_install_cli gopath =
      and_then
        (run (text "Building CLI binary") (text "mage" ∷ text "-compile" ∷ text "kmesh" ∷ []))
        (run (text "Installing kmesh CLI to $GOPATH/bin")
          (text "cp" ∷ text "kmesh" ∷ (gopath ++ text "/bin") ∷ []))

  -- `Mesh.Start`
  unfoldable pub mesh_start : Command
  unfolding run kmesh_header
  mesh_start trace =
      run (text "Initializing Knative Mesh") (kubectl_apply (text "artifacts/core/kmesh.yaml"))
        (kmesh_header trace)
