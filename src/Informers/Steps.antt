-- ===== src/Informers/Steps.antt =====
-- The factory as a system of calls: requests of informers and starts, in any order.
use k_mesh.Base.{
  ℕ, ◌+◌, ◌<◌, ◌≡◌, ◌↔◌, refl, sym, subst, inl, inr, Bool, true, false, Option, none, some, List,
  [], ◌∷◌, map, arith, In, NoRepeats, if◌then◌else◌, Option-cases,
}
use k_mesh.Base.Text.{Text, text_eq, text_eq_iff}
use k_mesh.Base.Dict.{Dict, lookup, insert, lookup-insert}
use k_mesh.Informers.{
  Factory, Change, is_started, with_custom_resync_config, with_tweak_list_options, with_namespace,
  apply_factory_options, new_factory_with_options, informer_for, start,
}

-- Go ranges over each entry of the map of informers, in any order.
abbrev pub RangesOver : (Dict ℕ → List (Text × ℕ)) → Type 0
RangesOver order = (d : Dict ℕ) (k : Text) (v : ℕ) → In (k, v) (order d) ↔ (lookup k d ≡ some v)

-- The options that the package offers.
pub data Setting (Tweak : Type 0) : Type 0 where
  custom_resync_setting : List (Text × ℕ) → Setting Tweak
  tweak_setting : Option Tweak → Setting Tweak
  namespace_setting : Text → Setting Tweak

abbrev pub change : {Tweak : Type 0} → Setting Tweak → Change Tweak
change (custom_resync_setting c) = with_custom_resync_config c
change (tweak_setting t) = with_tweak_list_options t
change (namespace_setting ns) = with_namespace ns

module _ {Tweak : Type 0} (order : Dict ℕ → List (Text × ℕ)) where
  pub data Step (f g : Factory Tweak) : Type 0 where
    request : (t : Text) → g ≡ (informer_for t f).0 → Step f g
    begin : g ≡ start order f → Step f g

  -- What the calls lead to.
  pub data Steps (f : Factory Tweak) : Factory Tweak → Type 0 where
    done : Steps f f
    more : {g h : Factory Tweak} → Steps f g → Step g h → Steps f h

-- The factories that calls reach from a new one, with any options.
abbrev pub Reachable :
    {Tweak : Type 0}
    → (Dict ℕ → List (Text × ℕ))
    → ℕ
    → List (Setting Tweak)
    → Factory Tweak
    → Type 0
Reachable order resync settings f =
    Steps order (new_factory_with_options resync (map change settings)) f

none-ne-some : {V : Type 0} {v : V} → ◌≡◌ {A = Option V} none (some v) → ⊥
none-ne-some h = cc

lookup-empty : {V : Type 0} (d : Dict V) (k : Text) (v : V) → d ≡ [] → lookup k d ≡ some v → ⊥
unfolding lookup
lookup-empty d k v e h = none-ne-some (subst (λ x. lookup k x ≡ some v) e h)

not_started : (d : Dict Bool) (k : Text) → d ≡ [] → is_started k d ≡ true → ⊥
unfolding lookup
not_started d k e h = let no : false ≡ true = subst (λ x. is_started k x ≡ true) e h in cc

module _ {Tweak : Type 0} where
  -- Each type has an informer of its own, and the goroutines started are one for each started type.
  pub record IsConsistent (f : Factory Tweak) : Type 0 where
    pub used : (k : Text) (v : ℕ) → lookup k f.informers ≡ some v → v < f.next
    pub own :
        (j k : Text) (v : ℕ) → lookup j f.informers ≡ some v → lookup k f.informers ≡ some v → j ≡ k
    pub run_started :
        (v : ℕ)
        → In v f.runs
        → (k : Text) × (lookup k f.informers ≡ some v) × (is_started k f.started_informers ≡ true)
    pub started_run :
        (k : Text)
        → is_started k f.started_informers ≡ true
        → (v : ℕ) × (lookup k f.informers ≡ some v) × In v f.runs
    pub once : NoRepeats f.runs

  -- Nothing requested and nothing started.
  pub record IsNew (f : Factory Tweak) : Type 0 where
    no_informers : f.informers ≡ []
    none_started : f.started_informers ≡ []
    no_runs : f.runs ≡ []

  custom-IsNew :
      (c : List (Text × ℕ)) (f : Factory Tweak) → IsNew f → IsNew (with_custom_resync_config c f)
  unfolding with_custom_resync_config
  custom-IsNew [] f h = h
  custom-IsNew ((k, v) ∷ c) f h =
      custom-IsNew c _ (record {
        no_informers = h.no_informers;
        none_started = h.none_started;
        no_runs = h.no_runs;
      })

  change-IsNew : (s : Setting Tweak) (f : Factory Tweak) → IsNew f → IsNew (change s f)
  unfolding with_tweak_list_options with_namespace
  change-IsNew (custom_resync_setting c) f h = custom-IsNew c f h
  change-IsNew (tweak_setting t) f h = record {
    no_informers = h.no_informers;
    none_started = h.none_started;
    no_runs = h.no_runs;
  }
  change-IsNew (namespace_setting ns) f h = record {
    no_informers = h.no_informers;
    none_started = h.none_started;
    no_runs = h.no_runs;
  }

  apply_factory_options-IsNew :
      (ss : List (Setting Tweak)) (f : Factory Tweak)
      → IsNew f
      → IsNew (apply_factory_options (map change ss) f)
  unfolding apply_factory_options
  apply_factory_options-IsNew [] f h = h
  apply_factory_options-IsNew (s ∷ ss) f h =
      apply_factory_options-IsNew ss (change s f) (change-IsNew s f h)

  pub new_factory_with_options-IsNew :
      (resync : ℕ) (ss : List (Setting Tweak))
      → IsNew (new_factory_with_options resync (map change ss))
  unfolding new_factory_with_options
  new_factory_with_options-IsNew resync ss =
      apply_factory_options-IsNew ss _
        (record { no_informers = refl; none_started = refl; no_runs = refl })

  pub IsNew-IsConsistent : (f : Factory Tweak) → IsNew f → IsConsistent f
  IsNew-IsConsistent f h = record {
    used = λ k v q. absurd (lookup-empty f.informers k v h.no_informers q);
    own = λ j k v q _. absurd (lookup-empty f.informers j v h.no_informers q);
    run_started = λ v q. absurd (subst (In v) h.no_runs q);
    started_run = λ k q. absurd (not_started f.started_informers k h.none_started q);
    once = subst NoRepeats (sym h.no_runs) tt;
  }

  pub request-IsConsistent :
      (t : Text) (f : Factory Tweak) → IsConsistent f → IsConsistent (informer_for t f).0
  unfolding informer_for
  request-IsConsistent t f h = elim (Option-cases (lookup t f.informers)) [
    | inr (v, e) ↦ rw (e, informer_for) h
    | inl e ↦
        rw (e, informer_for)
          (record {
            used = λ k v q. request_used k v e (h.used k v) q;
            own = λ j k v p q. request_own j k v e p q;
            run_started = λ v q. let (k, l, s) = h.run_started v q in (k, kept k v e l, s);
            started_run = λ k q. let (v, l, i) = h.started_run k q in (v, kept k v e l, i);
            once = h.once;
          })
  ]
    where
      inserted :
          (k : Text)
          → lookup k (insert t f.next f.informers)
            ≡ (if text_eq k t then some f.next else lookup k f.informers)
      inserted k = lookup-insert k t f.next f.informers

      kept :
          (k : Text) (v : ℕ)
          → lookup t f.informers ≡ none
          → lookup k f.informers ≡ some v
          → lookup k (insert t f.next f.informers) ≡ some v
      kept k v e l = ground (arith, inserted k, text_eq_iff k t)

      request_used :
          (k : Text) (v : ℕ)
          → lookup t f.informers ≡ none
          → (lookup k f.informers ≡ some v → v < f.next)
          → lookup k (insert t f.next f.informers) ≡ some v
          → v < f.next + 1
      request_used k v e u q = ground (arith, inserted k)

      request_own :
          (j k : Text) (v : ℕ)
          → lookup t f.informers ≡ none
          → lookup j (insert t f.next f.informers) ≡ some v
          → lookup k (insert t f.next f.informers) ≡ some v
          → j ≡ k
      request_own j k v e p q = ground (
        arith,
        h.own j k v,
        h.used j v,
        h.used k v,
        inserted j,
        inserted k,
        text_eq_iff j t,
        text_eq_iff k t,
      )

  -- A later request, and anything between, changes no informer that there is.
  pub request-lookup :
      (t k : Text) (f : Factory Tweak) (v : ℕ)
      → lookup k f.informers ≡ some v
      → lookup k (informer_for t f).0.informers ≡ some v
  unfolding informer_for
  request-lookup t k f v h = elim (Option-cases (lookup t f.informers)) [
    | inr (u, e) ↦ rw (e, informer_for) h
    | inl e ↦
        rw (e, informer_for) (ground (arith, lookup-insert k t f.next f.informers, text_eq_iff k t))
  ]
