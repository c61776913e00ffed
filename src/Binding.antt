-- ===== src/Binding.antt =====
-- pkg/reconciler/brokerbinding: the reconciler's caches, what it sees of the cluster, and its
-- collaborators. The operations are in the children.
pub mod Ingresses
pub mod Reconcile
pub mod Handlers
pub mod Pruning
pub mod Listed
pub mod Leader
pub mod Controller
pub mod Tracking
pub mod Events
pub mod Delivery
pub mod History
use k_mesh.Base.{◌≡◌, ◌↔◌, Bool, Option, some, List, In}
use k_mesh.Base.Text.{Text}
use k_mesh.Base.Dict.{Dict, lookup}
use k_mesh.Base.Result.{Result}
use k_mesh.Api.{KReference, Destination, Addressable, KMesh, BrokerBinding}

-- `eventingv1.Broker`
pub record Broker : Type 0 where
  pub kind : Text
  pub api_version : Text
  pub namespace : Text
  pub name : Text
  pub uid : Text
  -- the class annotation, where it is set
  pub class_annotation : Option Text
  pub is_ready : Bool
  pub address : Addressable

-- `eventingv1.Trigger`
pub record Trigger : Type 0 where
  pub kind : Text
  pub api_version : Text
  pub namespace : Text
  pub name : Text
  pub uid : Text
  pub broker : Text
  pub subscriber : Destination
  pub is_ready : Bool

-- `BrokerBindingCache`
pub record BrokerBindingCache : Type 0 where
  pub broker_refs : Dict KReference
  pub broker_binding : BrokerBinding

-- `TriggerBrokerCache`
pub record TriggerBrokerCache : Type 0 where
  pub trigger_refs : Dict KReference
  pub broker_binding : BrokerBinding

-- The mutable fields of `Reconciler`. No two entries share an inner map, so that a write through
-- an entry is a write to that entry alone.
pub record Caches : Type 0 where
  pub kmesh_cache : Dict (List Text)
  pub tracked_brokers : Dict BrokerBindingCache
  pub tracked_triggers : Dict TriggerBrokerCache

-- The listers' answers during one call, the order in which Go ranges over a map, and what other
-- workers and handlers make of the caches between the two sections of a reconcile under the lock,
-- and between the second and the read of the classes for the patch, which does not take the lock.
pub record Cluster : Type 0 where
  pub get_kmesh : Text → Text → Result KMesh
  pub get_broker : Text → Text → Result Broker
  pub get_trigger : Text → Text → Result Trigger
  pub range : Dict KReference → List (Text × KReference)
  pub before_listing : Caches → Caches
  pub before_patch : Caches → Caches

-- A range visits the entries of the map and nothing else, in any order. Go visits each entry once;
-- how often is left open here, so that what holds of these ranges holds of Go's.
abbrev pub RangesOver : Cluster → Type 0
RangesOver cl =
    (d : Dict KReference) (k : Text) (v : KReference)
    → In (k, v) (cl.range d) ↔ (lookup k d ≡ some v)
