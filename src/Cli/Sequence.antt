-- ===== src/Cli/Sequence.antt =====
-- magefile.go: `Install` and `Infra.InstallCLI`, the commands that run several others.
use k_mesh.Base.{
  ◌≡◌, sym, subst, ◌∙◌, Option, inl, inr, none, some, List, [], ◌∷◌, ◌++◌, Option-cases,
}
use k_mesh.Base.Text.{Text, text}
use k_mesh.Base.Result.{Err}
use k_mesh.Cli.{
  Effect, Terminal, Command, executions, run, and_then, kubectl_apply, install, infra_install_cli,
}
use k_mesh.Cli.Brokers.Install.{run_lem, executions-emit}

-- From a trace to a trace: the commands are executed one after another, each once, with nothing
-- executed in between, up to the first that fails, whose error is the outcome.
pub data Runs (tm : Terminal)
    : List (List Text) → List Effect → List Effect → Option Err → Type 0 where
  all_run : {s : List Effect} → Runs tm [] s s none
  failed_at :
      {cmd : List Text} {cmds : List (List Text)} {s t u : List Effect} {e : Err}
      → executions t ≡ executions s
      → tm.execute t cmd ≡ some e
      → executions u ≡ executions s ++ (cmd ∷ [])
      → Runs tm (cmd ∷ cmds) s u (some e)
  ran :
      {cmd : List Text} {cmds : List (List Text)} {s t u v : List Effect} {r : Option Err}
      → executions t ≡ executions s
      → tm.execute t cmd ≡ none
      → executions u ≡ executions s ++ (cmd ∷ [])
      → Runs tm cmds u v r
      → Runs tm (cmd ∷ cmds) s v r

-- From every trace the command runs these.
abbrev pub RunsInOrder : Terminal → List (List Text) → Command → Type 0
RunsInOrder tm cmds f = (s : List Effect) → Runs tm cmds s (f s).0 (f s).1

module _ (tm : Terminal) where
  run-RunsInOrder :
      (prompt : Text) (cmd : List Text) → RunsInOrder tm (cmd ∷ []) (run tm prompt cmd)
  run-RunsInOrder prompt cmd s =
      let (p, q) = run_lem tm prompt cmd s in
      let out = run tm prompt cmd s in
      elim (Option-cases out.1) [
        | inl e ↦
            subst (Runs tm (cmd ∷ []) s out.0) (sym e)
              (ran (executions-emit _ s) (sym q ∙ e) p all_run)
        | inr (x, e) ↦
            subst (Runs tm (cmd ∷ []) s out.0) (sym e)
              (failed_at (executions-emit _ s) (sym q ∙ e) p)
      ]

  run_then-RunsInOrder :
      (prompt : Text) (cmd : List Text) (cmds : List (List Text)) (g : Command)
      → RunsInOrder tm cmds g
      → RunsInOrder tm (cmd ∷ cmds) (and_then tm (run tm prompt cmd) g)
  run_then-RunsInOrder prompt cmd cmds g rg s =
      let (p, q) = run_lem tm prompt cmd s in
      let out = run tm prompt cmd s in
      elim (Option-cases out.1) [
        | inl e ↦ rw (e, and_then) (ran (executions-emit _ s) (sym q ∙ e) p (rg out.0))
        | inr (x, e) ↦ rw (e, and_then) (failed_at (executions-emit _ s) (sym q ∙ e) p)
      ]

  -- `Install` applies its three manifests, and `InstallCLI` builds and copies, in order and up to
  -- the first command that fails; they succeed only after all of them.
  pub install-RunsInOrder :
      (gopath : Text)
      → RunsInOrder tm
          (kubectl_apply tm (text "artifacts/core/eventing-core.yaml")
            ∷ kubectl_apply tm (text "artifacts/core/in-memory-channel.yaml")
            ∷ kubectl_apply tm (text "artifacts/core/knative-mesh-operator.yaml")
            ∷ [])
          (install tm)
        × RunsInOrder tm
            ((text "mage" ∷ text "-compile" ∷ text "kmesh" ∷ [])
              ∷ (text "cp" ∷ text "kmesh" ∷ (gopath ++ text "/bin") ∷ [])
              ∷ [])
            (infra_install_cli tm gopath)
  unfolding install infra_install_cli
  install-RunsInOrder gopath =
      let channel = kubectl_apply tm (text "artifacts/core/in-memory-channel.yaml") in
      let mesh = kubectl_apply tm (text "artifacts/core/knative-mesh-operator.yaml") in
      let copy : List Text = text "cp" ∷ text "kmesh" ∷ (gopath ++ text "/bin") ∷ [] in
      let last = run tm (text "Installing Knative Mesh") mesh in
      (
        run_then-RunsInOrder (text "Installing Knative Eventing")
            (kubectl_apply tm (text "artifacts/core/eventing-core.yaml")) (channel ∷ mesh ∷ [])
            (and_then tm (run tm (text "Installing Knative in-memory channel") channel) last)
            (run_then-RunsInOrder (text "Installing Knative in-memory channel") channel (mesh ∷ [])
              last (run-RunsInOrder (text "Installing Knative Mesh") mesh)),
        run_then-RunsInOrder (text "Building CLI binary")
            (text "mage" ∷ text "-compile" ∷ text "kmesh" ∷ []) (copy ∷ [])
            (run tm (text "Installing kmesh CLI to $GOPATH/bin") copy)
            (run-RunsInOrder (text "Installing kmesh CLI to $GOPATH/bin") copy),
      )
