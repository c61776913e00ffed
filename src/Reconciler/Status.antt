-- ===== src/Reconciler/Status.antt =====
-- `updateStatus` of the generated reconcilers.
pub mod Laws
pub mod Kept
use k_mesh.Base.{
  ℕ, suc, ◌≡◌, refl, sym, ap, ◌∙◌, inl, inr, Bool, true, false, Option, none, some, arith, ◌==◌,
  if◌then◌else◌, Bool-cases,
}
use k_mesh.Base.Text.{Text}
use k_mesh.Base.Result.{Err, Result, ok, err, Result-cases}
use k_mesh.Reconciler.{Resource, Client, World, Impl, Retried, stop, again}

module _ {R : Resource} {C : Client R} where
  -- The rest of an attempt, with the resource that it found.
  write_status : R.Object → R.Object → World C → World C × Option Err
  write_status desired existing w =
      if R.same_status (R.status existing) (R.status desired)
      then (w, none)
      else let (server', e) =
          C.update_status (R.with_status (R.status desired) existing) w.server in
        (record w { server = server' }, e)

  -- The first attempt takes the given resource, later ones fetch it.
  attempt : R.Object → R.Object → ℕ → World C → World C × Option Err
  attempt existing desired n w =
      if n == 0
      then write_status desired existing w
      else let m = R.meta desired in
        let (server', r) = C.get m.namespace m.name w.server in
        let w' = record w { server = server' } in
        elim r [ err e ↦ (w', some e) | ok found ↦ write_status desired found w' ]

  unfoldable pub update_status : Impl C → R.Object → R.Object → World C → World C × Option Err
  unfolding attempt write_status
  update_status im existing desired = im.retry (attempt existing desired)
