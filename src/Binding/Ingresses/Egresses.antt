-- ===== src/Binding/Ingresses/Egresses.antt =====
-- The trigger loop of `reconcileIngresses`: what it lists and what it deletes.
use mathlib.Core.List.{append-nil, append_assoc}
use k_mesh.Base.{
  ◌≡◌, ◌∙◌, inl, inr, Bool, true, false, Option, none, some, List, [], ◌∷◌, ◌++◌, arith,
  if◌then◌else◌, filter_map,
}
use k_mesh.Base.Text.{Text}
use k_mesh.Base.Dict.{Dict, erase}
use k_mesh.Base.Result.{ok, err, Result, err-ne-ok}
use k_mesh.Api.{KReference, Egress}
use k_mesh.Binding.{Cluster, Trigger}
use k_mesh.Binding.Pruning.{missing, Prunes, erase-Prunes, FromMap}
use k_mesh.Binding.Ingresses.{
  listed, skipped, gone, Visit-cases, visit_trigger, collect_egresses, new_egress,
}

module _ (cl : Cluster) where
  abbrev pub trigger_gone : KReference → Bool
  trigger_gone t = missing (cl.get_trigger t.namespace t.name)

  abbrev egress_of : KReference → Result Trigger → Option Egress
  egress_of tref (ok t) = if t.is_ready then some (new_egress tref t) else none
  egress_of tref (err e) = none

  -- The egress of a tracked trigger, if it exists and is ready.
  unfoldable pub ready_egress : Text × KReference → Option Egress
  ready_egress (_, t) = egress_of t (cl.get_trigger t.namespace t.name)

  pub ready_egress-not_gone :
      (k : Text) (t : KReference) (e : Egress)
      → ready_egress (k, t) ≡ some e
      → trigger_gone t ≡ false
  unfolding ready_egress
  ready_egress-not_gone k t e h = ground arith

  module _ (bref : KReference) where
    visit_trigger-gone : (t : KReference) → visit_trigger cl bref t ≡ gone → trigger_gone t ≡ true
    unfolding visit_trigger
    visit_trigger-gone t h = ground arith

    visit_trigger-listed :
        (k : Text) (t : KReference) (e : Egress)
        → visit_trigger cl bref t ≡ listed e
        → ready_egress (k, t) ≡ some e
    unfolding visit_trigger ready_egress
    visit_trigger-listed k t e h = ground arith

    visit_trigger-skipped :
        (k : Text) (t : KReference) → visit_trigger cl bref t ≡ skipped → ready_egress (k, t) ≡ none
    unfolding visit_trigger ready_egress
    visit_trigger-skipped k t h = ground arith

    ready_egress-gone :
        (k : Text) (t : KReference) → visit_trigger cl bref t ≡ gone → ready_egress (k, t) ≡ none
    unfolding visit_trigger ready_egress
    ready_egress-gone k t h = ground arith

    -- The loop deletes from the map only triggers that are gone, also where it gives up.
    pub collect_egresses-Prunes :
        (d : Dict KReference) (rest : List (Text × KReference)) (refs : Dict KReference)
        (acc : List Egress)
        → FromMap d rest
        → Prunes trigger_gone d refs
        → Prunes trigger_gone d (collect_egresses cl bref rest refs acc).0
    unfolding collect_egresses
    collect_egresses-Prunes d [] refs acc v p = p
    collect_egresses-Prunes d ((k, t) ∷ rest) refs acc (h, v) p =
        elim (Visit-cases (visit_trigger cl bref t)) [
          | inl (e, q) ↦
              rw (q, collect_egresses) (collect_egresses-Prunes d rest refs (acc ++ (e ∷ [])) v p)
          | inr (inl q) ↦ rw (q, collect_egresses) (collect_egresses-Prunes d rest refs acc v p)
          | inr (inr (inl q)) ↦
              rw (q, collect_egresses)
                (collect_egresses-Prunes d rest (erase k refs) acc v
                  (erase-Prunes trigger_gone k t d refs h (visit_trigger-gone t q) p))
          | inr (inr (inr (e, q))) ↦ rw (q, collect_egresses) p
        ]

    -- A loop that ends has listed the ready triggers, in the order of its visits.
    pub collect_egresses-eq :
        (rest : List (Text × KReference)) (refs : Dict KReference) (acc es : List Egress)
        → (collect_egresses cl bref rest refs acc).1 ≡ ok es
        → es ≡ acc ++ filter_map ready_egress rest
    unfolding collect_egresses
    collect_egresses-eq [] refs acc es h = ground (arith, append-nil acc)
    collect_egresses-eq ((k, t) ∷ rest) refs acc es h =
        elim (Visit-cases (visit_trigger cl bref t)) [
          | inl (e, q) ↦
              rw (visit_trigger-listed k t e q, filter_map)
                (collect_egresses-eq rest refs (acc ++ (e ∷ [])) es (rw (q, collect_egresses) at h)
                  ∙ append_assoc acc (e ∷ []) _)
          | inr (inl q) ↦
              rw (visit_trigger-skipped k t q, filter_map)
                (collect_egresses-eq rest refs acc es (rw (q, collect_egresses) at h))
          | inr (inr (inl q)) ↦
              rw (ready_egress-gone k t q, filter_map)
                (collect_egresses-eq rest (erase k refs) acc es (rw (q, collect_egresses) at h))
          | inr (inr (inr (e, q))) ↦ absurd (err-ne-ok (rw (q, collect_egresses) at h))
        ]
