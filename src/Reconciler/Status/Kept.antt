-- ===== src/Reconciler/Status/Kept.antt =====
-- What no update of a status touches.
use k_mesh.Base.{ℕ, sym, subst, inl, inr, Option, ◌==◌, Bool-cases}
use k_mesh.Base.Result.{Err, Result-cases}
use k_mesh.Reconciler.{Resource, Client, World, Impl, Retried, stop, again}
use k_mesh.Reconciler.Status.{write_status, attempt, update_status}
use k_mesh.Reconciler.Status.Laws.{RetriesConflicts}

-- The client's updates and fetches keep `P`.
pub record Keeps {R : Resource} (C : Client R) (P : C.Server → Type 0) : Type 0 where
  pub update : (o : R.Object) (s : C.Server) → P s → P (C.update_status o s).0
  pub fetch :
      (o : R.Object) (s : C.Server) → P s → P (C.get (R.meta o).namespace (R.meta o).name s).0

module _ {R : Resource} {C : Client R} {P : C.Server → Type 0} (K : Keeps C P)
    (desired : R.Object) where
  write_status-Keeps :
      (found : R.Object) (w : World C) → P w.server → P (write_status desired found w).0.server
  unfolding write_status
  write_status-Keeps found w h =
      elim (Bool-cases (R.same_status (R.status found) (R.status desired))) [
        | inl e ↦ rw (e, write_status) h
        | inr e ↦
            rw (e, write_status) (K.update (R.with_status (R.status desired) found) w.server h)
      ]

  attempt-Keeps :
      (existing : R.Object) (n : ℕ) (w : World C)
      → P w.server
      → P (attempt existing desired n w).0.server
  unfolding attempt
  attempt-Keeps existing n w h = elim (Bool-cases (n == 0)) [
    | inl e ↦ rw (e, attempt) (write_status-Keeps existing w h)
    | inr e ↦
        let out = C.get (R.meta desired).namespace (R.meta desired).name w.server in
        let h' = K.fetch desired w.server h in
        elim (Result-cases out.1) [
          | inr (x, f) ↦ rw (e, f, attempt) h'
          | inl (found, f) ↦
              rw (e, f, attempt) (write_status-Keeps found (record w { server = out.0 }) h')
        ]
  ]

  Retried-Keeps :
      (existing : R.Object) (r : World C × Option Err) (n : ℕ) (w : World C)
      → Retried (attempt existing desired) r n w
      → P w.server
      → P r.0.server
  Retried-Keeps existing r n w (stop e) h =
      subst (λ x. P x.0.server) (sym e) (attempt-Keeps existing n w h)
  Retried-Keeps existing r n w (again c t) h =
      Retried-Keeps existing r _ _ t (attempt-Keeps existing n w h)

  pub update_status-Keeps :
      (im : Impl C) (existing : R.Object) (w : World C)
      → RetriesConflicts im
      → P w.server
      → P (update_status im existing desired w).0.server
  unfolding update_status
  update_status-Keeps im existing w r h =
      Retried-Keeps existing (im.retry (attempt existing desired) w) 0 w
        (r (attempt existing desired) w) h
