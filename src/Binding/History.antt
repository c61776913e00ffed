-- ===== src/Binding/History.antt =====
-- Runs of the broker-binding controller with a record of what happened in them: the handlers
-- that ran, the classes learned and the clusters that reconciles saw, the newest first.
pub mod Slots
pub mod Tracked
pub mod Classes
pub mod Listed
use k_mesh.Base.{Bool, true, false, none, some, ◌&&◌, Option, List, [], ◌∷◌, All, if◌then◌else◌}
use k_mesh.Base.Text.{Text, text_eq}
use k_mesh.Api.{KReference}
use k_mesh.Machinery.StringSet.{StringSet}
use k_mesh.Binding.{Broker, Trigger, Cluster, RangesOver}
use k_mesh.Binding.Ingresses.Brokers.{broker_gone}
use k_mesh.Binding.Ingresses.Egresses.{trigger_gone}
use k_mesh.Binding.Handlers.{
  new_caches, broker_class, broker_reference, trigger_key, trigger_reference,
}
use k_mesh.Binding.Events.{
  Pending, broker, trigger, System, Step, accept_broker, accept_trigger, run_handler, learn_classes,
  reconcile,
}

pub data Moment : Type 0 where
  -- an event passed its filter
  accepted : Moment
  -- a handler ran
  ran : Pending → Moment
  -- the classes of a binding were joined to those of the mesh with this UID
  learned : Text → List Text → Moment
  -- `reconcileIngresses` ran
  reconciled : Cluster → Moment

unfoldable pub moment : {S : StringSet} {x y : System} → Step S x y → Moment
moment (accept_broker b h e) = accepted
moment (accept_trigger t h e) = accepted
moment (run_handler before after p s keys at h e) = ran p
moment (learn_classes uid classes e) = learned uid classes
moment (reconcile cl bb uid e) = reconciled cl

-- The system can come to this state in these moments.
pub data Run (S : StringSet) : List Moment → System → Type 0 where
  start : Run S [] (record { caches = new_caches; pending = [] })
  next : {h : List Moment} {x y : System} → Run S h x → (st : Step S x y) → Run S (moment st ∷ h) y

abbrev Ranges : Moment → Type 0
Ranges accepted = Unit
Ranges (ran p) = Unit
Ranges (learned uid classes) = Unit
Ranges (reconciled cl) = RangesOver cl

-- Each reconcile of the run ranged over its maps in some order.
abbrev pub RangesEach : List Moment → Type 0
RangesEach h = All Ranges h

-- The broker has this class.
abbrev pub has_class : Text → Broker → Bool
has_class c b = elim (broker_class b) [ none ↦ false | some d ↦ text_eq c d ]

-- The reference that a moment stores under a UID, for a class and for a broker.
abbrev pub heard_broker : Text → Text → Moment → Option KReference
heard_broker c uid accepted = none
heard_broker c uid (ran (broker b)) =
    if has_class c b && text_eq uid b.uid then some (broker_reference b) else none
heard_broker c uid (ran (trigger t)) = none
heard_broker c uid (learned u classes) = none
heard_broker c uid (reconciled cl) = none

abbrev pub heard_trigger : Text → Text → Moment → Option KReference
heard_trigger key uid accepted = none
heard_trigger key uid (ran (broker b)) = none
heard_trigger key uid (ran (trigger t)) =
    if text_eq key (trigger_key t) && text_eq uid t.uid then some (trigger_reference t) else none
heard_trigger key uid (learned u classes) = none
heard_trigger key uid (reconciled cl) = none

-- A reconcile saw that the broker, or the trigger, does not exist.
abbrev pub lost_broker : Moment → KReference → Bool
lost_broker accepted r = false
lost_broker (ran p) r = false
lost_broker (learned u classes) r = false
lost_broker (reconciled cl) r = broker_gone cl r

abbrev pub lost_trigger : Moment → KReference → Bool
lost_trigger accepted r = false
lost_trigger (ran p) r = false
lost_trigger (learned u classes) r = false
lost_trigger (reconciled cl) r = trigger_gone cl r

module _ (heard : Moment → Option KReference) where
  -- What was stored last.
  unfoldable pub latest : List Moment → Option KReference
  latest [] = none
  latest (m ∷ h) = let rest = latest h in elim (heard m) [ some r ↦ some r | none ↦ rest ]

  module _ (lost : Moment → KReference → Bool) where
    -- `r`, unless it is lost at this moment.
    abbrev unless_lost : Moment → Option KReference → Option KReference
    unless_lost m none = none
    unless_lost m (some r) = if lost m r then none else some r

    -- What was stored last, if no reconcile since has seen that it does not exist.
    unfoldable pub lasting : List Moment → Option KReference
    lasting [] = none
    lasting (m ∷ h) =
        let rest = unless_lost m (lasting h) in elim (heard m) [ some r ↦ some r | none ↦ rest ]

-- The last reference stored for a class, or for a broker, under a UID.
abbrev pub latest_broker : Text → Text → List Moment → Option KReference
latest_broker c uid = latest (heard_broker c uid)

abbrev pub lasting_broker : Text → Text → List Moment → Option KReference
lasting_broker c uid = lasting (heard_broker c uid) lost_broker

abbrev pub latest_trigger : Text → Text → List Moment → Option KReference
latest_trigger key uid = latest (heard_trigger key uid)

abbrev pub lasting_trigger : Text → Text → List Moment → Option KReference
lasting_trigger key uid = lasting (heard_trigger key uid) lost_trigger
