-- ===== src/Tests/Cluster.antt =====
-- One mesh with one broker and one trigger, and the caches as their events are handled.
use k_mesh.Base.{true, false, none, some, List, [], ◌∷◌}
use k_mesh.Base.Text.{Text, text}
use k_mesh.Base.Result.{ok}
use k_mesh.Api.{KReference, ObjectMeta, Egress, Ingress, KMesh, BrokerBinding}
use k_mesh.Binding.{Broker, Trigger, Caches, Cluster, RangesOver}
use k_mesh.Tests.Maps.{entries, In-entries}
use k_mesh.Binding.Ingresses.{empty_brokers, empty_triggers, new_egress, new_ingress}
use k_mesh.Binding.Handlers.{broker_reference, track_broker, trigger_reference, track_trigger}

abbrev pub ns : Text
ns = text "ns"

abbrev pub mesh_ref : KReference
mesh_ref = record {
  kind = text "KMesh";
  namespace = ns;
  name = text "mesh";
  api_version = text "v1";
}

abbrev pub meta_of : Text → ObjectMeta
meta_of name = record {
  namespace = ns;
  name = name;
  uid = name;
  resource_version = text "1";
  finalizers = [];
  deleted = false;
}

abbrev pub mesh : KMesh
mesh = record {
  meta = meta_of (text "mesh");
  status = record {
    status = record { observed_generation = 1; conditions = [] };
    broker_classes = [];
    ingresses = [];
  };
}

abbrev pub binding : BrokerBinding
binding = record {
  meta = meta_of (text "binding");
  spec = record { classes = text "kafka" ∷ []; kmesh = some mesh_ref };
  status = record { status = record { observed_generation = 1; conditions = [] } };
}

abbrev pub broker_b : Broker
broker_b = record {
  kind = text "Broker";
  api_version = text "v1";
  namespace = ns;
  name = text "b";
  uid = text "ub";
  class_annotation = some (text "kafka");
  is_ready = true;
  address = record { url = text "http://b" };
}

abbrev pub trigger_t : Trigger
trigger_t = record {
  kind = text "Trigger";
  api_version = text "v1";
  namespace = ns;
  name = text "t";
  uid = text "ut";
  broker = text "b";
  subscriber = record { ref = none; uri = some (text "http://sink") };
  is_ready = true;
}

abbrev pub cluster : Cluster
cluster = record {
  get_kmesh = λ _ _. ok mesh;
  get_broker = λ _ _. ok broker_b;
  get_trigger = λ _ _. ok trigger_t;
  before_listing = λ s. s;
  before_patch = λ s. s;
  range = entries;
}

pub ranges : RangesOver cluster
ranges = In-entries

-- The class is known for the mesh, and nothing is tracked for it yet.
abbrev pub before : Caches
before = record {
  kmesh_cache = (text "mesh", text "kafka" ∷ []) ∷ [];
  tracked_brokers = (text "kafka", record { broker_refs = []; broker_binding = binding }) ∷ [];
  tracked_triggers = (text "ns/b", record { trigger_refs = []; broker_binding = binding }) ∷ [];
}

-- The broker's event has been handled, and the trigger's.
abbrev pub with_broker : Caches
with_broker = track_broker (text "kafka") broker_b (empty_brokers binding) before

abbrev pub with_both : Caches
with_both = track_trigger trigger_t (empty_triggers binding) with_broker

abbrev pub ingress_of : List Egress → Ingress
ingress_of = new_ingress (broker_reference broker_b) broker_b

abbrev pub full : Ingress
full = ingress_of (new_egress (trigger_reference trigger_t) trigger_t ∷ [])
