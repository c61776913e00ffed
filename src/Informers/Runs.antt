-- ===== src/Informers/Runs.antt =====
-- Every factory that calls can reach, and what a start leaves.
use mathlib.Core.Option.{some-injective}
use k_mesh.Base.{
  ℕ, ◌≡◌, ◌↔◌, sym, ap, subst, ◌∙◌, inl, inr, true, some, List, In, NoRepeats, Option-cases,
}
use k_mesh.Base.Text.{Text, text_eq_refl}
use k_mesh.Base.Dict.{Dict, lookup, lookup-insert}
use k_mesh.Informers.{Factory, is_started, informer_for, start}
use k_mesh.Informers.Steps.{
  RangesOver, Setting, Step, request, begin, Steps, done, more, Reachable, IsConsistent,
  IsNew-IsConsistent, new_factory_with_options-IsNew, request-IsConsistent, request-lookup,
}
use k_mesh.Informers.Start.{start_loop-IsConsistent, start_loop-informers, start_loop-In}

module _ {Tweak : Type 0} (order : Dict ℕ → List (Text × ℕ)) (r : RangesOver order) where
  start-IsConsistent : (f : Factory Tweak) → IsConsistent f → IsConsistent (start order f)
  unfolding start
  start-IsConsistent f h =
      start_loop-IsConsistent (order f.informers) f h (λ t v i. (r f.informers t v).0 i)

  start-informers : (f : Factory Tweak) → (start order f).informers ≡ f.informers
  unfolding start
  start-informers f = start_loop-informers (order f.informers) f

  start-is_started :
      (f : Factory Tweak) (k : Text) (v : ℕ)
      → lookup k f.informers ≡ some v
      → is_started k (start order f).started_informers ≡ true
  unfolding start
  start-is_started f k v h = start_loop-In k v (order f.informers) f ((r f.informers k v).1 h)

  Step-IsConsistent : (f g : Factory Tweak) → Step order f g → IsConsistent f → IsConsistent g
  Step-IsConsistent f g (request t e) h = rw e (request-IsConsistent t f h)
  Step-IsConsistent f g (begin e) h = rw e (start-IsConsistent f h)

  Steps-IsConsistent :
      (f : Factory Tweak) {g : Factory Tweak} → IsConsistent f → Steps order f g → IsConsistent g
  Steps-IsConsistent f h done = h
  Steps-IsConsistent f h (more {g} {h = k} s t) = Step-IsConsistent g k t (Steps-IsConsistent f h s)

  Reachable-IsConsistent :
      (resync : ℕ) (settings : List (Setting Tweak)) (f : Factory Tweak)
      → Reachable order resync settings f
      → IsConsistent f
  Reachable-IsConsistent resync settings f s =
      Steps-IsConsistent _ (IsNew-IsConsistent _ (new_factory_with_options-IsNew resync settings)) s

  -- In a factory with any options, after any requests and starts, no informer has been run twice
  -- and no two types share one; a further start runs exactly the informers that were requested,
  -- those already running not again.
  pub Reachable-start :
      (resync : ℕ) (settings : List (Setting Tweak)) (f : Factory Tweak)
      → Reachable order resync settings f
      → NoRepeats f.runs
        × ((j k : Text) (v : ℕ)
            → lookup j f.informers ≡ some v
            → lookup k f.informers ≡ some v
            → j ≡ k)
        × NoRepeats (start order f).runs
        × ((v : ℕ) → In v (start order f).runs ↔ ((k : Text) × (lookup k f.informers ≡ some v)))
  Reachable-start resync settings f s =
      let h = Reachable-IsConsistent resync settings f s in
      let h' = start-IsConsistent f h in
      (
        h.once,
        h.own,
        h'.once,
        λ v. (
          λ i.
              let (k, l, _) = h'.run_started v i in
              (k, sym (ap (lookup k) (start-informers f)) ∙ l),
          λ (k, l).
              let (u, m, i) = h'.started_run k (start-is_started f k v l) in
              let same : u ≡ v =
                some-injective u v (sym m ∙ (ap (lookup k) (start-informers f) ∙ l)) in
              subst (λ x. In x (start order f).runs) same i,
        ),
      )

  Step-lookup :
      (f g : Factory Tweak) (k : Text) (v : ℕ)
      → Step order f g
      → lookup k f.informers ≡ some v
      → lookup k g.informers ≡ some v
  Step-lookup f g k v (request t e) h = rw e (request-lookup t k f v h)
  Step-lookup f g k v (begin e) h = rw e (ap (lookup k) (start-informers f) ∙ h)

  Steps-lookup :
      (f : Factory Tweak) (k : Text) (v : ℕ) {g : Factory Tweak}
      → lookup k f.informers ≡ some v
      → Steps order f g
      → lookup k g.informers ≡ some v
  Steps-lookup f k v h done = h
  Steps-lookup f k v h (more {g} {h = l} s t) = Step-lookup g l k v t (Steps-lookup f k v h s)

  informer_for-lookup :
      (t : Text) (f : Factory Tweak)
      → lookup t (informer_for t f).0.informers ≡ some (informer_for t f).1
  unfolding informer_for
  informer_for-lookup t f = elim (Option-cases (lookup t f.informers)) [
    | inr (v, e) ↦ rw (e, informer_for) e
    | inl e ↦ rw (e, informer_for) (lookup-insert t t f.next f.informers ∙ rw (text_eq_refl t))
  ]

  informer_for-again :
      (t : Text) (v : ℕ) (g : Factory Tweak)
      → lookup t g.informers ≡ some v
      → informer_for t g ≡ (g, v)
  unfolding informer_for
  informer_for-again t v g h = rw (h, informer_for)

  -- A type that is requested again gets the same informer, whatever was requested or started in
  -- between, and the factory is left as it is.
  pub informer_for-informer_for :
      (t : Text) (f g : Factory Tweak)
      → Steps order (informer_for t f).0 g
      → informer_for t g ≡ (g, (informer_for t f).1)
  informer_for-informer_for t f g s =
      informer_for-again t (informer_for t f).1 g
        (Steps-lookup (informer_for t f).0 t (informer_for t f).1 (informer_for-lookup t f) s)
