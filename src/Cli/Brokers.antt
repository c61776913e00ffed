-- ===== src/Cli/Brokers.antt =====
-- magefile.go: the brokers that the command line knows, their states, and `Brokers.Install`.
pub mod Merge
pub mod Install
pub mod Lines
pub mod Printed
pub mod RoundTrip
use k_mesh.Base.{Bool, true, false, Option, none, some, List, [], ◌∷◌, ◌++◌, if◌then◌else◌}
use k_mesh.Base.Text.{Text, text, text_eq}
use k_mesh.Base.Dict.{Dict, lookup, insert}
use k_mesh.Base.Result.{Err, failure, Result, ok, err}
use k_mesh.Api.{BrokerBinding}
use k_mesh.Cli.{Effect, executed, Terminal, run, print_error}
use k_mesh.Cli.Words.{fields, split, trim_space, remove_all}

pub data ComponentState : Type 0 where
  available managed managed_not_ready bound : ComponentState

-- `ComponentState.String`
unfoldable pub state_string : Terminal → ComponentState → Text
state_string tm managed = tm.green (text "Managed")
state_string tm managed_not_ready = tm.yellow (text "Managed (Not Ready)")
state_string tm bound = tm.faint (text "Bound (Not Managed)")
state_string tm available = tm.faint (text "Ready to install")

pub record BrokerInfo : Type 0 where
  pub name : Text
  pub namespace : Text
  pub classes : Text
  pub state : ComponentState

pub record DirEntry : Type 0 where
  pub name : Text
  pub is_dir : Bool

-- What the file system and the YAML package answer, and what `k` answers on kubectl's `get` of the
-- bindings: it is `sh.OutCmd`, which trims one line feed at the end of the output.
pub record Machine : Type 0 where
  pub read_dir : Text → Result (List DirEntry)
  pub read_file : Text → Result Text
  pub unmarshal : Text → Result BrokerBinding
  pub kubectl_get : Result Text

-- A computation that ends, exits the process by `log.Fatalf`, or panics on an index.
pub data Checked (A : Type 0) : Type 0 where
  value : A → Checked A
  fatal : Text → Checked A
  index_out_of_range : Checked A

infixl 5 ◌>>=◌
abbrev pub ◌>>=◌ : {A B : Type 0} → Checked A → (A → Checked B) → Checked B
value a >>= f = f a
fatal m >>= f = fatal m
index_out_of_range >>= f = index_out_of_range

abbrev pub broker_charts : Text
broker_charts = text "artifacts/brokers"

-- The loop over the classes of a chart's binding. The line feed goes in front of all so far.
unfoldable pub chart_classes : Text → Text → List Text → Text
chart_classes lead classes [] = classes
chart_classes lead classes (c ∷ cs) = chart_classes (text "\n") (lead ++ (classes ++ c)) cs

-- `artifacts/brokers/%s/templates/mesh-brokerbinding.yaml`
abbrev pub binding_file : Text → Text
binding_file name = text "artifacts/brokers/" ++ (name ++ text "/templates/mesh-brokerbinding.yaml")

abbrev pub chart_info : Text → BrokerBinding → BrokerInfo
chart_info name bb = record {
  name = name;
  namespace = [];
  classes = chart_classes [] [] bb.spec.classes;
  state = available;
}

-- The body of the loop over the chart directory, for a directory.
unfoldable pub read_chart : Machine → Text → Checked BrokerInfo
read_chart mc name = elim (mc.read_file (binding_file name)) [
  | err e ↦ fatal (text "yamlFile.Get err")
  | ok file ↦ elim (mc.unmarshal file) [
    | err e ↦ fatal (text "Unmarshal")
    | ok bb ↦ value (chart_info name bb)
  ]
]

unfoldable pub read_charts : Machine → List DirEntry → Dict BrokerInfo → Checked (Dict BrokerInfo)
read_charts mc [] brokers = value brokers
read_charts mc (i ∷ items) brokers = elim i.is_dir [
  | false ↦ read_charts mc items brokers
  | true ↦ elim (read_chart mc i.name) [
    | fatal m ↦ fatal m
    | index_out_of_range ↦ index_out_of_range
    | value info ↦ read_charts mc items (insert i.name info brokers)
  ]
]

-- A line of kubectl's output, cut into words: name, namespace, readiness, classes.
pub record Line : Type 0 where
  pub name : Text
  pub namespace : Text
  pub ready : Text
  pub classes : Text

-- The three `strings.ReplaceAll` of the classes
unfoldable pub plain_classes : Text → Text
unfolding remove_all
plain_classes s = remove_all 93 (remove_all 91 (remove_all 34 s))

abbrev pub bound_info : Line → BrokerInfo
bound_info l = record {
  name = l.name;
  namespace = l.namespace;
  classes = plain_classes l.classes;
  state = bound;
}

abbrev pub managed_info : Line → BrokerInfo → BrokerInfo
managed_info l info = record info {
  namespace = l.namespace;
  classes = plain_classes l.classes;
  state = if text_eq l.ready (text "True") then managed else managed_not_ready;
}

-- What a line makes of the entry under its name.
abbrev pub merged_info : Line → Option BrokerInfo → BrokerInfo
merged_info l none = bound_info l
merged_info l (some info) = managed_info l info

unfoldable pub merge_line : Line → Dict BrokerInfo → Dict BrokerInfo
merge_line l brokers = insert l.name (merged_info l (lookup l.name brokers)) brokers

-- `binding[0]` to `binding[3]`
unfoldable pub line_of : List Text → Checked Line
line_of (name ∷ namespace ∷ ready ∷ classes ∷ _) =
    value (record { name = name; namespace = namespace; ready = ready; classes = classes })
line_of _ = index_out_of_range

-- The body of the loop over the lines.
unfoldable pub apply_line : Text → Dict BrokerInfo → Checked (Dict BrokerInfo)
unfolding merge_line line_of
apply_line l brokers = elim (trim_space l) [
  | [] ↦ value brokers
  | c ∷ s ↦ line_of (fields (c ∷ s)) >>= λ line. value (merge_line line brokers)
]

unfoldable pub apply_lines : List Text → Dict BrokerInfo → Checked (Dict BrokerInfo)
apply_lines [] brokers = value brokers
apply_lines (l ∷ ls) brokers = elim (apply_line l brokers) [
  | value brokers' ↦ apply_lines ls brokers'
  | fatal m ↦ fatal m
  | index_out_of_range ↦ index_out_of_range
]

-- `getBrokersInfo`; a nil map has no entry.
unfoldable pub get_brokers_info : Machine → Checked (Dict BrokerInfo)
unfolding read_charts read_chart apply_lines
get_brokers_info mc = elim (mc.read_dir broker_charts) [
  | err e ↦ value []
  | ok items ↦ read_charts mc items [] >>= λ brokers. elim mc.kubectl_get [
    | err e ↦ value []
    | ok out ↦ apply_lines (split 10 out) brokers
  ]
]

abbrev pub kubectl_bindings : List Text
kubectl_bindings =
    text "kubectl"
    ∷ text "get"
    ∷ text "-o"
    ∷ text
        "jsonpath={range .items[*]}{.metadata.name} {.metadata.namespace} {.status.conditions[?(@.type==\"Ready\")].status} {.spec.classes}{\"\\n\"}{end}"
    ∷ text "-A"
    ∷ text "brokerbindings.mesh.knative.dev"
    ∷ []

-- What `getBrokersInfo` does to the outside, however it ends: kubectl is run once the charts are
-- read.
unfoldable pub brokers_effects : Machine → List Effect
brokers_effects mc = elim (mc.read_dir broker_charts) [
  | err e ↦ []
  | ok items ↦ elim (read_charts mc items []) [
    | value brokers ↦ executed kubectl_bindings ∷ []
    | fatal m ↦ []
    | index_out_of_range ↦ []
  ]
]

-- `newBrokerTableRow`
unfoldable pub new_broker_table_row : Terminal → BrokerInfo → List Text
unfolding state_string
new_broker_table_row tm b =
    elim b.state [ available ↦ b.name | _ ↦ b.namespace ++ (text "/" ++ b.name) ]
    ∷ b.classes
    ∷ text "1.2.0"
    ∷ state_string tm b.state
    ∷ []

abbrev pub helm_install : Text → List Text
helm_install name =
    text "helm"
    ∷ text "install"
    ∷ name
    ∷ (broker_charts ++ (text "/" ++ name))
    ∷ text "--namespace"
    ∷ text "knative-eventing"
    ∷ []

abbrev pub failed_command : Option Err
failed_command = some (failure (text "failed to execute command"))

module _ (tm : Terminal) where
  -- From `helm install` on; the printed error ends in that of the command.
  helm : (Err → Text) → Text → List Effect → List Effect × Option Err
  helm message name trace =
      let (trace', e) = run tm (text "Installing broker " ++ name) (helm_install name) trace in
      elim e [
        | none ↦ (trace', none)
        | some x ↦ (
          print_error tm
              (text "The following error occured when installing broker "
                ++ (name ++ (text "\nError: " ++ message x)))
              trace',
          some (failure (text "installing broker " ++ (name ++ text " failed"))),
        )
      ]

  refuse : Text → List Effect → List Effect × Option Err
  refuse msg trace = (print_error tm msg trace, failed_command)

  -- `Brokers.Install` from `binfo.state != Available` on
  install_as : (Err → Text) → Text → List Effect → ComponentState → List Effect × Option Err
  install_as message name trace available = helm message name trace
  install_as message name trace _ =
      refuse (text "Broker " ++ (name ++ text " is already installed.")) trace

  -- `Brokers.Install`, with the brokers that `getBrokersInfo` has returned
  unfoldable pub install_with :
      (Err → Text) → Dict BrokerInfo → Text → List Effect → List Effect × Option Err
  unfolding helm refuse install_as
  install_with message brokers name trace = elim (lookup name brokers) [
    | none ↦ refuse (text "Can't find broker " ++ name) trace
    | some info ↦ install_as message name trace info.state
  ]

  -- `Brokers.Install`
  unfoldable pub install_broker :
      (Err → Text) → Machine → Text → List Effect → Checked (List Effect × Option Err)
  unfolding install_with
  install_broker message mc name trace = get_brokers_info mc >>= λ brokers.
      value (install_with message brokers name (trace ++ brokers_effects mc))
