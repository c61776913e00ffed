-- ===== src/Clientset/Config/Limits.antt =====
-- The rate limiter of a clientset.
use mathlib.Core.Option.{some-ne-none}
use k_mesh.Base.{◌≡◌, ◌≢◌, refl, sym, ap, ◌∙◌, Bool, true, false, Option, none, some}
use k_mesh.Base.Result.{Result, ok, err, err-ne-ok, ok-injective, ◌>>=◌}
use k_mesh.Clientset.Config.{
  Rates, Config, Makers, Clientset, set_config_defaults, choose_limiter, with_rate_limiter,
  group_new_for_config, new_for_config,
}

module _ {R : Rates} (M : Makers R) where
  -- One configuration that both clients were made from: as it was given, except that it has a rate
  -- limiter wherever the given one asks for a rate; the group's client has the group's own settings.
  pub record IsShared (c : Config R) (cs : Clientset M) : Type 0 where
    pub copied : Config R
    pub limiter : Option R.Limiter
    pub as_given : copied ≡ record c { rate_limiter = limiter }
    pub kept : (l : R.Limiter) → c.rate_limiter ≡ some l → limiter ≡ some l
    pub limited : R.qps_positive c.qps ≡ true → limiter ≢ none
    pub mesh : M.rest_client_for (set_config_defaults copied) ≡ ok cs.mesh_v1alpha1
    pub discovery : M.new_discovery_client_for_config copied ≡ ok cs.discovery_client

  -- The copied configuration, against the given one.
  abbrev Limited : Config R → Config R → Type 0
  Limited c d =
      (limiter : Option R.Limiter) × (d ≡ record c { rate_limiter = limiter })
      × ((l : R.Limiter) → c.rate_limiter ≡ some l → limiter ≡ some l)
      × (R.qps_positive c.qps ≡ true → limiter ≢ none)

  choose_limiter-Limited :
      (c d : Config R) (o : Option R.Limiter) (q b : Bool)
      → c.rate_limiter ≡ o
      → R.qps_positive c.qps ≡ q
      → choose_limiter c o q b ≡ ok d
      → Limited c d
  choose_limiter-Limited c d (some l) q b e f h = (
    some l,
    sym (ok-injective h) ∙ ap (λ o. record c { rate_limiter = o }) e,
    λ m p. sym e ∙ p,
    λ t n. some-ne-none l n,
  )
  choose_limiter-Limited c d none false b e f h = (
    none,
    sym (ok-injective h) ∙ ap (λ o. record c { rate_limiter = o }) e,
    λ m p. sym e ∙ p,
    λ t. absurd (cc),
  )
  choose_limiter-Limited c d none true false e f h = absurd (err-ne-ok h)
  choose_limiter-Limited c d none true true e f h = (
    some (R.new_limiter c.qps c.burst),
    sym (ok-injective h),
    λ m p. absurd (some-ne-none m (sym p ∙ e)),
    λ t n. some-ne-none (R.new_limiter c.qps c.burst) n,
  )

  bind-ok :
      {A B : Type 0} (r : Result A) (f : A → Result B) (y : B)
      → (r >>= f) ≡ ok y
      → (x : A) × (r ≡ ok x) × (f x ≡ ok y)
  bind-ok (ok x) f y h = (x, refl, h)
  bind-ok (err e) f y h = absurd (err-ne-ok h)

  -- Where a clientset is made from a configuration, both of its clients were made from one
  -- configuration: the given one, with its rate limiter if it has one, and with a rate limiter in any
  -- case if it asks for a positive rate; the group's client with the group's settings besides.
  pub new_for_config-IsShared :
      (c : Config R) (cs : Clientset M) → new_for_config M c ≡ ok cs → IsShared c cs
  unfolding new_for_config group_new_for_config with_rate_limiter
  new_for_config-IsShared c cs h =
      let (d, p, k) = bind-ok (with_rate_limiter c) _ cs h in
      let (mesh, q, m) = bind-ok (group_new_for_config M d) _ cs k in
      let (discovery, r, n) = bind-ok (M.new_discovery_client_for_config d) _ cs m in
      let (l, as_given, kept, limited) =
        choose_limiter-Limited c d c.rate_limiter (R.qps_positive c.qps) (R.burst_positive c.burst)
          refl refl p in
      record {
        copied = d;
        limiter = l;
        as_given = as_given;
        kept = kept;
        limited = limited;
        mesh = q ∙ ap (λ (x : Clientset M). ok x.mesh_v1alpha1) (ok-injective n);
        discovery = r ∙ ap (λ (x : Clientset M). ok x.discovery_client) (ok-injective n);
      }
