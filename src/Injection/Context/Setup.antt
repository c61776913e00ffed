-- ===== src/Injection/Context/Setup.antt =====
-- The plain packages together: a factory, and the informers of both kinds from it.
use mathlib.Core.Option.{some-injective}
use k_mesh.Base.{
  sym, subst, ◌∙◌, ℕ, ◌≡◌, ◌≢◌, ◌↔◌, refl, inl, inr, Option, none, some, [], Option-cases,
}
use k_mesh.Base.Text.{Text, text_eq}
use k_mesh.Base.Dict.{lookup, insert}
use k_mesh.Informers.{informer_for}
use k_mesh.Injection.{with_informer_factory}
use k_mesh.Injection.Context.{
  KindName, kmesh_kind, brokerbinding_kind, Ambient, TypedInformer, shared, Context, get_client,
  get_factory, with_factory, with_informer, get_informer, typed_informer, shared_informer,
}

-- The informers of the meshes and of the bindings, in the order in which their packages register.
abbrev pub Ready : Type 0 → Type 0
Ready V = Context V × ℕ × ℕ

module _ {V : Type 0} where
  abbrev second : ℕ → Option (Context V × ℕ) → Option (Ready V)
  second m none = none
  second m (some (c, b)) = some (c, m, b)

  abbrev first : Option (Context V × ℕ) → Option (Ready V)
  first none = none
  first (some (c, m)) = second m (with_informer brokerbinding_kind c)

  abbrev informers : Option (Context V) → Option (Ready V)
  informers none = none
  informers (some c) = first (with_informer kmesh_kind c)

module _ {V Dyn : Type 0} (am : Ambient Dyn) where
  -- The factory of a context with a client, and the informers.
  unfoldable pub set_up : Context V → Option (Ready V)
  set_up c = informers (with_factory am c)

-- The namespace of a scope; without one, all of them.
abbrev pub scope_namespace : Option Text → Text
scope_namespace none = []
scope_namespace (some namespace) = namespace

module _ {V : Type 0} where
  -- The context has this informer of a kind: who gets it and asks it for the shared informer gets
  -- the one with this number, in the context's namespace, and the factory stays as it is.
  pub record HasInformer (k : KindName) (n : ℕ) (scope : Option Text) (c : Context V) : Type 0 where
    pub informer : TypedInformer
    pub got : get_informer k c ≡ some (shared informer)
    pub scoped : informer.namespace ≡ scope_namespace scope
    pub same : shared_informer k informer c ≡ some (c, n)

  -- The informers of both kinds, which are two; the client is that of before.
  pub record IsReady (scope : Option Text) (c : Context V) (r : Ready V) : Type 0 where
    pub meshes : HasInformer kmesh_kind r.1 scope r.0
    pub bindings : HasInformer brokerbinding_kind r.2 scope r.0
    pub kept : get_client r.0 ≡ get_client c
    pub apart : ◌≢◌ {A = ℕ} r.1 r.2

  abbrev value : Ready V → Option (Ready V) → Ready V
  value r none = r
  value r (some q) = q

  abbrev with_new_factory : Option Text → ℕ → Context V → Context V
  with_new_factory scope resync c = record c { factory = some (with_informer_factory scope resync) }

  informers-IsReady :
      (scope : Option Text) (resync : ℕ) (c : Context V)
      → (r : Ready V) × (informers (some (with_new_factory scope resync c)) ≡ some r)
        × IsReady scope c r
  unfolding with_informer_factory get_client with_informer shared_informer get_informer
      typed_informer get_factory informer_for lookup insert text_eq
  informers-IsReady none resync c = (
    value (c, 0, 0) (informers (some (with_new_factory none resync c))),
    refl,
    record {
      meshes = record { informer = _; got = refl; scoped = refl; same = refl };
      bindings = record { informer = _; got = refl; scoped = refl; same = refl };
      kept = refl;
      apart = λ e. cc e;
    },
  )
  informers-IsReady (some ns) resync c = (
    value (c, 0, 0) (informers (some (with_new_factory (some ns) resync c))),
    refl,
    record {
      meshes = record { informer = _; got = refl; scoped = refl; same = refl };
      bindings = record { informer = _; got = refl; scoped = refl; same = refl };
      kept = refl;
      apart = λ e. cc e;
    },
  )

set_up-informers :
    {V Dyn : Type 0} (am : Ambient Dyn) (c : Context V) (v : V)
    → get_client c ≡ some v
    → set_up am c ≡ informers (some (with_new_factory am.scope am.resync c))
unfolding set_up with_factory
set_up-informers am c v e = simp (e, with_factory)

-- A context with a client can be set up, and one without panics. Then the context has the
-- informers of both kinds: who gets one and asks it for the shared informer gets the one that the
-- set-up started with, in the namespace of the context's scope, and makes no new one; the two are
-- different informers, and the client stays.
pub set_up-IsReady :
    {V Dyn : Type 0} (am : Ambient Dyn) (c : Context V)
    → ((set_up am c ≡ none) ↔ (get_client c ≡ none))
      × ((r : Ready V) → set_up am c ≡ some r → IsReady am.scope c r)
unfolding set_up with_factory
set_up-IsReady am c = elim (Option-cases (get_client c)) [
  | inl e ↦ (
    rw (e, set_up, with_factory) ((λ h. refl, λ h. refl)),
    λ r h. cc (rw (e, set_up, with_factory) at h),
  )
  | inr (v, e) ↦
      let (r, q, ready) = informers-IsReady am.scope am.resync c in
      let done : set_up am c ≡ some r = set_up-informers am c v e ∙ q in
      (
        (λ h. absurd (cc (sym done ∙ h)), λ h. absurd (cc (sym e ∙ h))),
        λ r' h. subst (IsReady am.scope c) (some-injective _ _ (sym done ∙ h)) ready,
      )
]
