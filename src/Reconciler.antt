-- ===== src/Reconciler.antt =====
-- pkg/client/injection/reconciler/mesh/v1alpha1: the generated reconcilers, which are one text
-- over the kind of resource. This file has the resource, the world and the configuration.
pub mod Finalizers
pub mod Status
pub mod Run
pub mod Create
pub mod Kinds
use k_mesh.Base.{ℕ, suc, ◌≡◌, Bool, Option, none, some, List, [], ◌∷◌, ◌++◌}
use k_mesh.Base.Text.{Text}
use k_mesh.Base.Result.{Err, conflict, Result}
use k_mesh.Api.{ObjectMeta}

-- A kind of resource with metadata and a status. A deep copy is the value itself.
pub record Resource : Type 1 where
  pub Object : Type 0
  pub Status : Type 0
  pub meta : Object → ObjectMeta
  pub with_finalizers : List Text → Object → Object
  pub status : Object → Status
  pub with_status : Status → Object → Object
  -- `equality.Semantic.DeepEqual` of two statuses
  pub same_status : Status → Status → Bool

-- `reconciler.ReconcilerEvent`
pub record ReconcilerEvent : Type 0 where
  pub event_type : Text
  pub reason : Text
  pub message : Text

-- `reconciler.Event`, an error that is not `nil`. `EventAs` finds the event of the first two.
pub data Event : Type 0 where
  plain_event : ReconcilerEvent → Event
  wrapped_event : ReconcilerEvent → Event
  skip_key requeue_key : Event
  error_event : Err → Event

-- An event given to the recorder: its type and its reason.
pub record Recorded : Type 0 where
  pub event_type : Text
  pub reason : Text

-- The client's calls, on an API server, and the informer's cache.
pub record Client (R : Resource) : Type 1 where
  pub Server : Type 0
  pub lister_get : Text → Text → Result R.Object
  pub get : Text → Text → Server → Server × Result R.Object
  pub update_status : R.Object → Server → Server × Option Err
  -- namespace, name, finalizers, resource version of the merge patch
  pub patch_finalizers : Text → Text → List Text → Text → Server → Server × Result R.Object

pub record World {R : Resource} (C : Client R) : Type 0 where
  pub server : C.Server
  pub recorded : List Recorded

abbrev pub record_event : {R : Resource} {C : Client R} → Text → Text → World C → World C
record_event t reason w = record w {
  recorded = w.recorded ++ (record { event_type = t; reason = reason } ∷ []);
}

abbrev pub IsConflict : Option Err → Type 0
IsConflict (some (conflict m)) = Unit
IsConflict _ = ⊥

-- What a run of `RetryUpdateConflicts` may come to from attempt `n` on: the outcome of the
-- attempt, or, if that was a conflict, of a later one.
pub data Retried {W : Type 0} (f : ℕ → W → W × Option Err) (r : W × Option Err)
    : ℕ → W → Type 0 where
  stop : {n : ℕ} {w : W} → r ≡ f n w → Retried f r n w
  again : {n : ℕ} {w : W} → IsConflict (f n w).1 → Retried f r (suc n) (f n w).0 → Retried f r n w

-- `reconcilerImpl`, with what its methods call outside of the repository. The business logic
-- may change the resource and the world.
pub record Impl {R : Resource} (C : Client R) : Type 0 where
  pub reconcile_kind : R.Object → World C → World C × R.Object × Option Event
  -- the `Finalizer`, `ReadOnlyInterface` and `OnDeletionInterface` of the logic, if it has them
  pub finalize_kind : Option (R.Object → World C → World C × R.Object × Option Event)
  pub observe_kind : Option (R.Object → World C → World C × R.Object × Option Event)
  pub observe_deletion : Option (Text → Text → World C → World C × Option Event)
  pub finalizer_name : Text
  pub skip_status_updates : Bool
  pub is_leader_for : Text → Text → Bool
  -- `cache.SplitMetaNamespaceKey`, `PreProcessReconcile`, `PostProcessReconcile`
  pub split_key : Text → Result (Text × Text)
  pub pre_process : R.Object → R.Object
  pub post_process : R.Object → R.Object → R.Object
  -- `reconciler.RetryUpdateConflicts`
  pub retry : (ℕ → World C → World C × Option Err) → World C → World C × Option Err
