-- ===== src/Cli/Brokers/Install.antt =====
-- What `Brokers.Install` runs and returns.
use mathlib.Core.Option.{some-ne-none}
use mathlib.Core.Bool.{false≢true}
use mathlib.Core.List.{append-nil, append_assoc}
use k_mesh.Base.{
  ◌≡◌, ◌↔◌, refl, sym, ap, ◌∙◌, inl, inr, Bool, true, false, Option, none, some, List, [], ◌∷◌,
  ◌++◌, if◌then◌else◌, Option-cases,
}
use k_mesh.Base.Text.{Text, text}
use k_mesh.Base.Dict.{Dict, lookup}
use k_mesh.Base.Result.{Err, ok, err, Result-cases}
use k_mesh.Cli.{Effect, printed, executed, Terminal, emit, executions, run, do_run, print_error}
use k_mesh.Cli.Brokers.{
  ComponentState, available, managed, managed_not_ready, bound, BrokerInfo, install_with, DirEntry,
  Machine, Checked, value, fatal, index_out_of_range, broker_charts, read_charts, get_brokers_info,
  kubectl_bindings, brokers_effects, install_broker, helm_install, helm, refuse, install_as,
}

abbrev is_available : ComponentState → Bool
is_available available = true
is_available _ = false

-- The broker has a chart and is not installed.
abbrev pub can_install : Dict BrokerInfo → Text → Bool
can_install brokers name = elim (lookup name brokers) [
  | none ↦ false
  | some info ↦ is_available info.state
]

pub executions-append : (s t : List Effect) → executions (s ++ t) ≡ executions s ++ executions t
executions-append [] t = refl
executions-append (printed x ∷ s) t = executions-append s t
executions-append (executed c ∷ s) t = ap (λ r. c ∷ r) (executions-append s t)

pub executions-emit : (x : Text) (s : List Effect) → executions (emit x s) ≡ executions s
executions-emit x s = executions-append s _ ∙ append-nil (executions s)

module _ (tm : Terminal) where
  executions-cmd_run :
      (cmd : List Text) (s : List Effect)
      → executions (s ++ (executed cmd ∷ [])) ≡ executions s ++ (cmd ∷ [])
  executions-cmd_run cmd s = executions-append s (executed cmd ∷ [])

  -- What is run under a prompt is executed once, and its error is returned.
  pub run_lem :
      (prompt : Text) (cmd : List Text) (s : List Effect)
      → (executions (run tm prompt cmd s).0 ≡ executions s ++ (cmd ∷ []))
        × ((run tm prompt cmd s).1 ≡ tm.execute (emit (prompt ++ text "..........") s) cmd)
  unfolding run
  run_lem prompt cmd s =
      let before = emit (prompt ++ text "..........") s in
      let at : executions (before ++ (executed cmd ∷ [])) ≡ executions s ++ (cmd ∷ []) =
        executions-cmd_run cmd before ∙ ap (λ r. r ++ (cmd ∷ [])) (executions-emit _ s) in
      elim (Option-cases (tm.execute before cmd)) [
        | inl e ↦
            rw (e, run, do_run)
              (
                executions-emit (tm.green (text "Done") ++ text "\n")
                      (before ++ (executed cmd ∷ []))
                    ∙ at,
                refl,
              )
        | inr (x, e) ↦ rw (e, run, do_run) (at, refl)
      ]

  module _ (message : Err → Text) (brokers : Dict BrokerInfo) (name : Text) (s : List Effect) where
    abbrev prompted : List Effect
    prompted = emit ((text "Installing broker " ++ name) ++ text "..........") s

    helm_lem :
        (executions (helm tm message name s).0 ≡ executions s ++ (helm_install name ∷ []))
        × (((helm tm message name s).1 ≡ none) ↔ (tm.execute prompted (helm_install name) ≡ none))
    unfolding helm print_error
    helm_lem =
        let (p, q) = run_lem (text "Installing broker " ++ name) (helm_install name) s in
        let out = run tm (text "Installing broker " ++ name) (helm_install name) s in
        elim (Option-cases out.1) [
          | inl e ↦ rw (e, helm) (p, (λ _. sym q ∙ e, λ _. refl))
          | inr (x, e) ↦
              rw (e, helm)
                (
                  executions-emit _ out.0 ∙ p,
                  (λ h. absurd (some-ne-none _ h), λ h. absurd (some-ne-none x (sym e ∙ (q ∙ h)))),
                )
        ]

    refused :
        (msg : Text)
        → (executions (refuse tm msg s).0 ≡ executions s ++ [])
          × (((refuse tm msg s).1 ≡ none)
              ↔ ((false ≡ true) × (tm.execute prompted (helm_install name) ≡ none)))
    unfolding refuse print_error
    refused msg = (
      executions-emit _ s ∙ sym (append-nil (executions s)),
      (λ h. absurd (some-ne-none _ h), λ (h, _). absurd (false≢true h)),
    )

    install_as_lem :
        (st : ComponentState)
        → (executions (install_as tm message name s st).0
            ≡ executions s ++ (if is_available st then helm_install name ∷ [] else []))
          × (((install_as tm message name s st).1 ≡ none)
              ↔ ((is_available st ≡ true) × (tm.execute prompted (helm_install name) ≡ none)))
    unfolding install_as
    install_as_lem available = let (p, q) = helm_lem in (p, (λ h. (refl, q.0 h), λ (_, h). q.1 h))
    install_as_lem managed = refused _
    install_as_lem managed_not_ready = refused _
    install_as_lem bound = refused _

    -- With these brokers, one command is executed, `helm install` of the broker's chart, if the
    -- broker has a chart and is not installed, and no command otherwise.
    install_with_lem :
        (executions (install_with tm message brokers name s).0
          ≡ executions s ++ (if can_install brokers name then helm_install name ∷ [] else []))
        × (((install_with tm message brokers name s).1 ≡ none) ↔ (
            (can_install brokers name ≡ true) × (tm.execute prompted (helm_install name) ≡ none)))
    unfolding install_with print_error
    install_with_lem = elim (Option-cases (lookup name brokers)) [
      | inl e ↦ rw (e, install_with, can_install) (refused (text "Can't find broker " ++ name))
      | inr (info, e) ↦ rw (e, install_with, can_install) (install_as_lem info.state)
    ]

  module _ (message : Err → Text) (mc : Machine) (name : Text) (s : List Effect) where
    -- kubectl is asked for the bindings, unless there is no directory of charts.
    abbrev pub queries : List (List Text)
    queries = elim (mc.read_dir broker_charts) [ err e ↦ [] | ok items ↦ kubectl_bindings ∷ [] ]

    -- The trace when helm would be executed.
    abbrev pub before_helm : List Effect
    before_helm =
        emit ((text "Installing broker " ++ name) ++ text "..........") (s ++ brokers_effects mc)

    -- What the install does, by how the brokers' entries are read: it ends as the reading does, or
    -- executes kubectl's query and then helm's installation, if there is one to do, and succeeds
    -- exactly if there is and helm does.
    abbrev pub InstallsAs : Checked (Dict BrokerInfo) → Checked (List Effect × Option Err) → Type 0
    InstallsAs (value brokers) r =
        (out : List Effect × Option Err) × (r ≡ value out)
        × (executions out.0
            ≡ executions s
              ++ (queries ++ (if can_install brokers name then helm_install name ∷ [] else [])))
        × ((out.1 ≡ none) ↔ (
            (can_install brokers name ≡ true)
            × (tm.execute before_helm (helm_install name) ≡ none)))
    InstallsAs (fatal m) r = r ≡ fatal m
    InstallsAs index_out_of_range r = r ≡ index_out_of_range

    charts_effects :
        (items : List DirEntry) (brokers : Dict BrokerInfo) (r : Checked (Dict BrokerInfo))
        → mc.read_dir broker_charts ≡ ok items
        → read_charts mc items [] ≡ r
        → get_brokers_info mc ≡ value brokers
        → executions (brokers_effects mc) ≡ queries
    unfolding get_brokers_info brokers_effects
    charts_effects items brokers (value charts) e f h = rw (e, f, brokers_effects, queries)
    charts_effects items brokers (fatal m) e f h = cc (rw (e, f, get_brokers_info) at h)
    charts_effects items brokers index_out_of_range e f h = cc (rw (e, f, get_brokers_info) at h)

    executions-brokers_effects :
        (brokers : Dict BrokerInfo)
        → get_brokers_info mc ≡ value brokers
        → executions (brokers_effects mc) ≡ queries
    unfolding brokers_effects
    executions-brokers_effects brokers h = elim (Result-cases (mc.read_dir broker_charts)) [
      | inr (x, e) ↦ rw (e, brokers_effects, queries)
      | inl (items, e) ↦ charts_effects items brokers (read_charts mc items []) e refl h
    ]

    -- `Brokers.Install` ends the program, by a fatal exit or an index out of range, exactly as the
    -- reading of the brokers does. Else it executes kubectl's query for the bindings, if there is a
    -- directory of charts, then `helm install` of the broker's chart, if the broker has a chart
    -- and is not installed, and no other command; it succeeds exactly if helm was executed and
    -- succeeded.
    pub install_broker_lem : InstallsAs (get_brokers_info mc) (install_broker tm message mc name s)
    unfolding install_broker
    install_broker_lem = go (get_brokers_info mc) refl
      where
        go :
            (r : Checked (Dict BrokerInfo))
            → get_brokers_info mc ≡ r
            → InstallsAs r (install_broker tm message mc name s)
        go (fatal m) e = rw (e, install_broker)
        go index_out_of_range e = rw (e, install_broker)
        go (value brokers) e =
            let (p, q) = install_with_lem message brokers name (s ++ brokers_effects mc) in
            (
              install_with tm message brokers name (s ++ brokers_effects mc),
              rw (e, install_broker),
              p
                  ∙ ap (λ t. t ++ (if can_install brokers name then helm_install name ∷ [] else []))
                      (executions-append s (brokers_effects mc)
                        ∙ ap (λ t. executions s ++ t) (executions-brokers_effects brokers e))
                  ∙ append_assoc (executions s) queries _,
              q,
            )
