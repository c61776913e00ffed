-- ===== src/Reconciler/Status/Laws.antt =====
-- What `updateStatus` leaves on the server.
use mathlib.Core.Option.{some-ne-none}
use k_mesh.Base.{
  ℕ, ◌≡◌, sym, subst, ap, ◌∙◌, inl, inr, true, false, Option, none, some, ◌==◌, Bool-cases,
}
use k_mesh.Base.Text.{Text}
use k_mesh.Base.Result.{Err, ok, Result-cases}
use k_mesh.Reconciler.{Resource, Client, World, Impl, Retried, stop, again}
use k_mesh.Reconciler.Status.{write_status, attempt, update_status}

-- Documented behaviour of the client: what an accepted update or a fetch says of the stored
-- status; and that a status compares equal to itself.
pub record StoresStatus {R : Resource} (C : Client R) : Type 0 where
  pub stored : C.Server → Text → Text → Option R.Status
  pub stored-update_status :
      (o : R.Object) (s t : C.Server)
      → C.update_status o s ≡ (t, none)
      → stored t (R.meta o).namespace (R.meta o).name ≡ some (R.status o)
  pub stored-get :
      (ns name : Text) (s t : C.Server) (o : R.Object)
      → C.get ns name s ≡ (t, ok o)
      → (stored t ns name ≡ some (R.status o))
        × ((R.meta o).namespace ≡ ns)
        × ((R.meta o).name ≡ name)
  pub status-with_status : (st : R.Status) (o : R.Object) → R.status (R.with_status st o) ≡ st
  pub meta-with_status : (st : R.Status) (o : R.Object) → R.meta (R.with_status st o) ≡ R.meta o
  pub same_status-refl : (st : R.Status) → R.same_status st st ≡ true

-- Documented behaviour of `RetryUpdateConflicts`: its outcome is that of its last attempt, and
-- only a conflict leads to another.
abbrev pub RetriesConflicts : {R : Resource} {C : Client R} → Impl C → Type 0
RetriesConflicts {C = C} im =
    (f : ℕ → World C → World C × Option Err) (w : World C) → Retried f (im.retry f w) 0 w

module _ {R : Resource} {C : Client R} (L : StoresStatus C) (desired : R.Object) where
  abbrev ns : Text
  ns = (R.meta desired).namespace

  abbrev name : Text
  name = (R.meta desired).name

  -- The server stores a status that compares equal to the desired one.
  abbrev pub IsStored : World C → Type 0
  IsStored w =
      (st : R.Status) × (L.stored w.server ns name ≡ some st)
      × (R.same_status st (R.status desired) ≡ true)

  write_status-IsStored :
      (found : R.Object) (w : World C)
      → (R.meta found).namespace ≡ ns
      → (R.meta found).name ≡ name
      → (R.same_status (R.status found) (R.status desired) ≡ true
          → L.stored w.server ns name ≡ some (R.status found))
      → (write_status desired found w).1 ≡ none
      → IsStored (write_status desired found w).0
  unfolding write_status
  write_status-IsStored found w p q f h =
      elim (Bool-cases (R.same_status (R.status found) (R.status desired))) [
        | inl e ↦ rw (e, write_status) (R.status found, f e, e)
        | inr e ↦
            let o = R.with_status (R.status desired) found in
            let out = C.update_status o w.server in
            let here : C.update_status o w.server ≡ (out.0, none) =
              ap (λ x. (out.0, x)) (rw (e, write_status) at h) in
            let m = L.meta-with_status (R.status desired) found in
            rw (e, write_status)
              (
                R.status desired,
                subst (λ k. L.stored out.0 k name ≡ some (R.status desired))
                    (ap (λ x. x.namespace) m ∙ p)
                    (subst (λ k. L.stored out.0 (R.meta o).namespace k ≡ some (R.status desired))
                      (ap (λ x. x.name) m ∙ q)
                      (L.stored-update_status o w.server out.0 here
                        ∙ ap some (L.status-with_status (R.status desired) found))),
                L.same_status-refl (R.status desired),
              )
      ]

  module _ (existing : R.Object) (p : (R.meta existing).namespace ≡ ns)
      (q : (R.meta existing).name ≡ name)
      (changed : R.same_status (R.status existing) (R.status desired) ≡ false) where
    attempt-IsStored :
        (n : ℕ) (w : World C)
        → (attempt existing desired n w).1 ≡ none
        → IsStored (attempt existing desired n w).0
    unfolding attempt
    attempt-IsStored n w h = elim (Bool-cases (n == 0)) [
      | inl e ↦
          rw (e, attempt)
            (write_status-IsStored existing w p q (λ s. absurd (cc s)) (rw (e, attempt) at h))
      | inr e ↦
          let out = C.get ns name w.server in
          elim (Result-cases out.1) [
            | inr (x, f) ↦ absurd (some-ne-none x (rw (e, f, attempt) at h))
            | inl (found, f) ↦
                let (st, a, b) =
                  L.stored-get ns name w.server out.0 found (ap (λ r. (out.0, r)) f) in
                rw (e, f, attempt)
                  (write_status-IsStored found (record w { server = out.0 }) a b (λ _. st)
                    (rw (e, f, attempt) at h))
          ]
    ]

    Retried-IsStored :
        (r : World C × Option Err) (n : ℕ) (w : World C)
        → Retried (attempt existing desired) r n w
        → r.1 ≡ none
        → IsStored r.0
    Retried-IsStored r n w (stop e) h =
        subst (λ x. IsStored x.0) (sym e) (attempt-IsStored n w (sym (ap (λ x. x.1) e) ∙ h))
    Retried-IsStored r n w (again c t) h = Retried-IsStored r _ _ t h

    -- A status update without an error, of a status that differs from the cached one, leaves the
    -- server with the desired status, after however many conflicts.
    pub update_status-IsStored :
        (im : Impl C) (w : World C)
        → RetriesConflicts im
        → (update_status im existing desired w).1 ≡ none
        → IsStored (update_status im existing desired w).0
    unfolding update_status
    update_status-IsStored im w r h =
        Retried-IsStored (im.retry (attempt existing desired) w) 0 w
          (r (attempt existing desired) w) h
