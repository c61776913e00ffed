-- ===== src/Reconciler/Create.antt =====
-- `NewReconciler` of the generated reconcilers: the configuration from the options, and the
-- promotion of a replica to leader.
pub mod Laws
use k_mesh.Base.{
  ℕ, Bool, true, false, Option, none, some, List, [], ◌∷◌, ltb, if◌then◌else◌, length,
}
use k_mesh.Base.Text.{Text}
use k_mesh.Base.Result.{Err, Result, ok, err}
use k_mesh.Api.{ObjectMeta}
use k_mesh.Reconciler.{Resource}

-- `controller.Options`, over the types of configuration stores and of demotion functions.
pub record Options (Store Demote : Type 0) : Type 0 where
  pub config_store : Option Store
  pub finalizer_name : Text
  pub skip_status_updates : Bool
  pub demote_func : Option Demote

-- The fields of `reconcilerImpl` that the options decide.
pub record Configured (Store Demote : Type 0) : Type 0 where
  pub config_store : Option Store
  pub finalizer_name : Text
  pub skip_status_updates : Bool
  pub demote_func : Option Demote

-- A reconciler, or the exit of the process by `logger.Fatal`.
pub data Created (Store Demote : Type 0) : Type 0 where
  created : Configured Store Demote → Created Store Demote
  too_many_options wrong_leader_aware : Created Store Demote

abbrev pub overridden {ℓ} : {A : Type ℓ} → Option A → Option A → Option A
overridden none old = old
overridden (some a) old = some a

module _ {Store Demote : Type 0} where
  -- The body of the loop over the options.
  unfoldable pub apply_options :
      Options Store Demote → Configured Store Demote → Configured Store Demote
  apply_options o c = record {
    config_store = overridden o.config_store c.config_store;
    finalizer_name = elim o.finalizer_name [ [] ↦ c.finalizer_name | x ∷ xs ↦ x ∷ xs ];
    skip_status_updates = if o.skip_status_updates then true else c.skip_status_updates;
    demote_func = overridden o.demote_func c.demote_func;
  }

  apply_all : List (Options Store Demote) → Configured Store Demote → Configured Store Demote
  apply_all [] c = c
  apply_all (o ∷ os) c = apply_all os (apply_options o c)

  -- `NewReconciler`, with the default name of the finalizer, and with whether the business logic
  -- implements the interface `LeaderAware`.
  unfoldable pub new_reconciler : Text → Bool → List (Options Store Demote) → Created Store Demote
  unfolding apply_all apply_options
  new_reconciler default_name leader_aware options =
      if ltb 1 (length options)
      then too_many_options
      else if leader_aware
      then wrong_leader_aware
      else created (
          apply_all options (record {
            config_store = none;
            finalizer_name = default_name;
            skip_status_updates = false;
            demote_func = none;
          }))

-- `enq` of each object that the lister lists.
abbrev enqueued : (R : Resource) → List R.Object → List (Text × Text)
enqueued R [] = []
enqueued R (o ∷ os) = ((R.meta o).namespace, (R.meta o).name) ∷ enqueued R os

-- `PromoteFunc`: the keys enqueued for the bucket, and the error.
unfoldable pub promote : (R : Resource) → Result (List R.Object) → List (Text × Text) × Option Err
promote R (err e) = ([], some e)
promote R (ok all) = (enqueued R all, none)
