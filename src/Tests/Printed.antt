-- ===== src/Tests/Printed.antt =====
-- One chart, and one binding that kubectl prints.
use k_mesh.Base.{◌≡◌, refl, true, List, [], ◌∷◌, All, arith}
use k_mesh.Base.Text.{Text, text}
use k_mesh.Base.Dict.{Dict, lookup, insert}
use k_mesh.Base.Result.{ok}
use k_mesh.Cli.Words.{is_space}
use k_mesh.Cli.Brokers.{
  BrokerInfo, available, Machine, value, chart_classes, read_chart, read_charts, get_brokers_info,
}
use k_mesh.Cli.Brokers.Printed.{Shown, IsPrintable, IsPlain, answered}
use k_mesh.Cli.Brokers.RoundTrip.{shown_for, shown_entry, get_brokers_info-printed}
use k_mesh.Tests.Cluster.{binding}

abbrev shown : List Shown
shown =
    record {
      name = text "b";
      namespace = text "ns";
      ready = text "True";
      classes = text "x" ∷ text "y" ∷ [];
    }
    ∷ []

abbrev machine : Machine
machine = record {
  read_dir = λ dir. ok (record { name = text "b"; is_dir = true } ∷ []);
  read_file = λ file. ok [];
  unmarshal = λ file. ok binding;
  kubectl_get = ok (answered shown);
}

abbrev charts : Dict BrokerInfo
charts =
    (
      text "b",
      record { name = text "b"; namespace = []; classes = text "kafka"; state = available },
    )
    ∷ []

shown-IsPrintable : All IsPrintable shown
unfolding is_space
shown-IsPrintable = (
  (
    (λ e. cc e, (refl, tt)),
    (
      (λ e. cc e, (refl, (refl, tt))),
      ((λ e. cc e, (refl, (refl, (refl, (refl, tt))))), ((λ e. cc e, ground arith), tt)),
    ),
  ),
  tt,
)

IsPlain-x : IsPlain (text "x")
IsPlain-x = ground arith

IsPlain-y : IsPlain (text "y")
IsPlain-y = ground arith

get_brokers_info-printed_example :
    (brokers : Dict BrokerInfo) × (get_brokers_info machine ≡ value brokers)
    × ((n : Text) → lookup n brokers ≡ shown_entry (shown_for n shown) (lookup n charts))
unfolding read_charts read_chart chart_classes insert
get_brokers_info-printed_example =
    get_brokers_info-printed machine (record { name = text "b"; is_dir = true } ∷ []) charts shown
      refl refl refl shown-IsPrintable (((λ e. cc e), (IsPlain-x, (IsPlain-y, tt))), tt) (refl, tt)
