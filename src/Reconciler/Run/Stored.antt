-- ===== src/Reconciler/Run/Stored.antt =====
-- The status of a resource at the end of a leader's run.
use k_mesh.Base.{◌≡◌, sym, subst, inl, inr, true, false, Option, none, some, arith, Option-cases}
use k_mesh.Machinery.StringSet.{StringSet}
use k_mesh.Reconciler.{Resource, Client, World, Impl, Event}
use k_mesh.Reconciler.Status.{update_status}
use k_mesh.Reconciler.Status.Laws.{StoresStatus, RetriesConflicts, IsStored, update_status-IsStored}
use k_mesh.Reconciler.Run.{State, must_update, finish}
use k_mesh.Reconciler.Run.Laws.{report-server}

some-ne-none : {x : Event} → ◌≡◌ {A = Option Event} (some x) none → ⊥
some-ne-none h = cc

module _ (S : StringSet) {R : Resource} {C : Client R} (L : StoresStatus C) (im : Impl C)
    (s : State) (original resource : R.Object) where
  pub finish-IsStored :
      (event : Option Event) (w : World C)
      → RetriesConflicts im
      → im.skip_status_updates ≡ false
      → s.is_leader ≡ true
      → (R.meta original).namespace ≡ (R.meta resource).namespace
      → (R.meta original).name ≡ (R.meta resource).name
      → R.same_status (R.status original) (R.status resource) ≡ false
      → (finish S im s original resource event w).1 ≡ none
      → IsStored L resource (finish S im s original resource event w).0
  unfolding finish
  finish-IsStored event w r skip leader p q changed h =
      let must : must_update S im s original resource ≡ true = ground arith in
      elim (Option-cases (update_status im original resource w).1) [
        | inr (x, e) ↦ absurd (some-ne-none (rw (must, e, finish) at h))
        | inl e ↦
            let out = (update_status im original resource w).0 in
            let stored = update_status-IsStored L resource original p q changed im w r e in
            rw (must, e, finish)
              (subst
                (λ v.
                  (st : R.Status) × (L.stored v (R.meta resource).namespace (R.meta resource).name
                    ≡ some st)
                  × (R.same_status st (R.status resource) ≡ true))
                (sym (report-server S im event out)) stored)
      ]
