-- ===== src/Injection/Context/Fakes.antt =====
-- pkg/client/injection/client/fake and the packages `fake` of the informers: a context for tests,
-- whose client is the clientset on an object tracker.
use mathlib.Core.Option.{some-injective}
use k_mesh.Base.{ℕ, ◌≡◌, sym, ◌∙◌, Option, none, some, inl, inr, ap, List, [], Option-cases}
use k_mesh.Clientset.Simple.{Tracker, SimpleClientset, new_simple_clientset}
use k_mesh.Injection.Context.{
  KindName, Ambient, Context, get_client, with_factory, with_filtered_factory, with_informer,
}
use k_mesh.Injection.Context.Selected.{with_filtered_informers}
use k_mesh.Injection.Context.Setup.{Ready, IsReady, set_up, set_up-IsReady}

module _ (T : Tracker) where
  abbrev pub FakeContext : Type 0
  FakeContext = Context (SimpleClientset T)

  -- `With`; the context and the answer share the clientset.
  unfoldable pub with_fake : List T.Object → FakeContext → Option (FakeContext × SimpleClientset T)
  with_fake objects c = elim (new_simple_clientset T objects) [
    | none ↦ none
    | some cs ↦ some (record c { client = some cs }, cs)
  ]

  -- `withClient`
  unfoldable pub with_fake_client : FakeContext → Option FakeContext
  unfolding with_fake
  with_fake_client c = elim (with_fake [] c) [ none ↦ none | some (c', cs) ↦ some c' ]

  -- `Get`
  unfoldable pub get_fake_client : FakeContext → Option (SimpleClientset T)
  get_fake_client = get_client

  -- `withInformerFactory` of the two fake factory packages, which get the fake client
  unfoldable pub with_fake_factory : {Dyn : Type 0} → Ambient Dyn → FakeContext → Option FakeContext
  with_fake_factory = with_factory

  unfoldable pub with_fake_filtered_factory :
      {Dyn : Type 0} → Ambient Dyn → FakeContext → Option FakeContext
  with_fake_filtered_factory = with_filtered_factory

  -- `withInformer` of the fake packages of a kind, plain and filtered
  unfoldable pub with_fake_informer : KindName → FakeContext → Option (FakeContext × ℕ)
  with_fake_informer = with_informer

  unfoldable pub with_fake_filtered_informers :
      KindName → FakeContext → Option (FakeContext × List ℕ)
  with_fake_filtered_informers = with_filtered_informers

  with_fake-client :
      (objects : List T.Object) (c : FakeContext) (d : FakeContext) (cs : SimpleClientset T)
      → with_fake objects c ≡ some (d, cs)
      → get_client d ≡ some cs
  unfolding with_fake get_client
  with_fake-client objects c d cs h = elim (Option-cases (new_simple_clientset T objects)) [
    | inl e ↦ cc (rw (e, with_fake) at h)
    | inr (x, e) ↦
        let q : ◌≡◌ {A = FakeContext × SimpleClientset T} (record c { client = some x }, x)
            (d, cs) =
          some-injective _ _ (rw (e, with_fake) at h) in
        sym (ap (λ z. z.0.client) q) ∙ ap (λ z. some z.1) q
  ]

  -- A context for tests, once its clientset could be made, is set up without a panic, with the
  -- informers of both kinds, and answers that clientset.
  pub with_fake-IsReady :
      {Dyn : Type 0} (am : Ambient Dyn) (objects : List T.Object) (c : FakeContext)
      (d : FakeContext) (cs : SimpleClientset T)
      → with_fake objects c ≡ some (d, cs)
      → (r : Ready (SimpleClientset T)) × (set_up am d ≡ some r)
        × IsReady am.scope d r
        × (get_fake_client r.0 ≡ some cs)
  unfolding get_fake_client
  with_fake-IsReady am objects c d cs h =
      let e = with_fake-client objects c d cs h in
      let (panics, ready) = set_up-IsReady am d in
      elim (Option-cases (set_up am d)) [
        | inl q ↦ absurd (cc (sym e ∙ panics.0 q))
        | inr (r, q) ↦ (r, q, ready r q, (ready r q).kept ∙ e)
      ]
