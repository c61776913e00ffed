-- ===== src/Injection/Context/Loop.antt =====
-- The loop of `withInformer` of the filtered packages: the informer that each selector gets.
use k_mesh.Base.{
  ℕ, ◌≡◌, refl, ◌∙◌, ◌⊎◌, inl, inr, some, List, [], ◌∷◌, ◌++◌, In, arith, Bool-cases, length,
  length-append, ◌+◌, if◌then◌else◌,
}
use k_mesh.Base.Text.{Text, text_eq, text_eq_iff}
use k_mesh.Base.Dict.{lookup, insert, lookup-insert}
use k_mesh.Informers.{Factory, informer_for}
use k_mesh.Injection.{Tweak, sets_label_selector, Filtered, get_filtered}
use k_mesh.Injection.Context.{
  KindName, kmesh_kind, brokerbinding_kind, type_name, TypedInformer, selected_factory,
  InformerValue, shared, Context, put_filtered_informer, set_factory, mesh_of, v1alpha1_of,
  informer_of_version, get_filtered_factory, typed_informer, shared_informer,
}
use k_mesh.Injection.Context.Selected.{filtered_round, with_each_informer, get_filtered_informer}

put_filtered_informer-filtered :
    {V : Type 0} (k : KindName) (s : Text) (i : InformerValue V) (c : Context V)
    → (put_filtered_informer k s i c).filtered ≡ c.filtered
put_filtered_informer-filtered kmesh_kind s i c = refl
put_filtered_informer-filtered brokerbinding_kind s i c = refl

get-put_filtered_informer :
    {V : Type 0} (k : KindName) (q s : Text) (i : InformerValue V) (c : Context V)
    → get_filtered_informer k q (put_filtered_informer k s i c)
      ≡ (if text_eq q s then some i else get_filtered_informer k q c)
unfolding get_filtered_informer
get-put_filtered_informer kmesh_kind q s i c = lookup-insert q s i c.kmeshes.by_selector
get-put_filtered_informer brokerbinding_kind q s i c =
    lookup-insert q s i c.brokerbindings.by_selector

get-set_factory :
    {V : Type 0} (k : KindName) (q s : Text) (f : Factory Tweak) (c : Context V)
    → get_filtered_informer k q (set_factory (selected_factory s) f c) ≡ get_filtered_informer k q c
unfolding get_filtered_informer
get-set_factory kmesh_kind q s f c = refl
get-set_factory brokerbinding_kind q s f c = refl

informer_for_tweak :
    (t : Text) (f : Factory Tweak) → (informer_for t f).0.tweak_list_options ≡ f.tweak_list_options
unfolding informer_for
informer_for_tweak t f = ground arith

set_factory_filtered :
    {V : Type 0} (s : Text) (f : Factory Tweak) (g : Filtered) (c : Context V)
    → c.filtered ≡ some g
    → (set_factory (selected_factory s) f c).filtered
      ≡ some (record g { factories = insert s f g.factories })
set_factory_filtered s f g c e = rw e

-- The factory of a selector tweaks what it lists.
abbrev pub Tweaks : Filtered → Text → Type 0
Tweaks g q =
    (f : Factory Tweak) × (lookup q g.factories ≡ some f)
    × (f.tweak_list_options ≡ some sets_label_selector)

-- A context with the factories of the selectors `ss`, whose variable stands at `final`.
pub record HasFactories {V : Type 0} (ss : List Text) (final : Text) (c : Context V) : Type 0 where
  pub filtered : Filtered
  pub held : c.filtered ≡ some filtered
  pub ended : filtered.selector ≡ final
  pub each : (q : Text) → In q ss → Tweaks filtered q

-- The informer of a selector, with the tweak.
abbrev pub HasTweaked : {V : Type 0} → KindName → Text → Context V → Type 0
HasTweaked k q c =
    (i : TypedInformer) × (get_filtered_informer k q c ≡ some (shared i))
    × (i.tweak_list_options ≡ some sets_label_selector)

module _ {V : Type 0} (k : KindName) (ss : List Text) (final : Text) where
  -- What a round leaves.
  abbrev after_round : Text → Factory Tweak → Context V → Context V
  after_round s f c =
      set_factory (selected_factory s) (informer_for (type_name k) f).0
        (put_filtered_informer k s (shared (typed_informer (selected_factory s) f)) c)

  get_filtered_factory-held :
      (s : Text) (f : Factory Tweak) (g : Filtered) (c : Context V)
      → c.filtered ≡ some g
      → lookup s g.factories ≡ some f
      → get_filtered_factory s c ≡ some f
  unfolding get_filtered_factory get_filtered
  get_filtered_factory-held s f g c e h = rw (e, get_filtered_factory) h

  shared_informer-set_factory :
      (s : Text) (f₀ f : Factory Tweak) (c : Context V)
      → get_filtered_factory s c ≡ some f
      → shared_informer k (typed_informer (selected_factory s) f₀) c
        ≡ some (
          set_factory (selected_factory s) (informer_for (type_name k) f).0 c,
          (informer_for (type_name k) f).1,
        )
  unfolding shared_informer typed_informer mesh_of v1alpha1_of informer_of_version
  shared_informer-set_factory s f₀ f c h = rw (h, shared_informer)

  filtered_round-after :
      (s : Text) (f : Factory Tweak) (g : Filtered) (c : Context V)
      → c.filtered ≡ some g
      → lookup s g.factories ≡ some f
      → filtered_round k s c ≡ some (after_round s f c, (informer_for (type_name k) f).1)
  unfolding filtered_round
  filtered_round-after s f g c e h =
      let inf = typed_informer (selected_factory s) f in
      let put = put_filtered_informer k s (shared inf) c in
      let e' : put.filtered ≡ some g = put_filtered_informer-filtered k s (shared inf) c ∙ e in
      rw (get_filtered_factory-held s f g c e h, filtered_round)
        (shared_informer-set_factory s f f put (get_filtered_factory-held s f g put e' h))

  after_round-HasTweaked :
      (q s : Text) (f : Factory Tweak) (c : Context V)
      → f.tweak_list_options ≡ some sets_label_selector
      → (q ≡ s) ⊎ HasTweaked k q c
      → HasTweaked k q (after_round s f c)
  unfolding typed_informer mesh_of v1alpha1_of informer_of_version
  after_round-HasTweaked q s f c t h =
      let inf = typed_informer (selected_factory s) f in
      let got =
        get-set_factory k q s (informer_for (type_name k) f).0
          (put_filtered_informer k s (shared inf) c)
        ∙ get-put_filtered_informer k q s (shared inf) c in
      elim (Bool-cases (text_eq q s)) [
        | inl same ↦ (inf, got ∙ rw same, t)
        | inr other ↦ elim h [
          | inl e ↦ absurd (cc ((text_eq_iff q s).1 e))
          | inr (i, old, t') ↦ (i, got ∙ rw other old, t')
        ]
      ]

  after_round-HasFactories :
      (s : Text) (f : Factory Tweak) (c : Context V)
      → f.tweak_list_options ≡ some sets_label_selector
      → HasFactories ss final c
      → HasFactories ss final (after_round s f c)
  after_round-HasFactories s f c t h =
      let f' = (informer_for (type_name k) f).0 in
      let inf = typed_informer (selected_factory s) f in
      let e = put_filtered_informer-filtered k s (shared inf) c ∙ h.held in
      record {
        filtered = record (h.filtered) { factories = insert s f' h.filtered.factories };
        held = set_factory_filtered s f' h.filtered (put_filtered_informer k s (shared inf) c) e;
        ended = h.ended;
        each = λ q at. elim (Bool-cases (text_eq q s)) [
          | inl same ↦ (
            f',
            lookup-insert q s f' h.filtered.factories ∙ rw same,
            informer_for_tweak (type_name k) f ∙ t,
          )
          | inr other ↦
              let (g, old, t') = h.each q at in
              (g, lookup-insert q s f' h.filtered.factories ∙ rw other old, t')
        ];
      }

  -- What the loop over `rest` comes to.
  pub record LoopDone (rest : List Text) (c : Context V) (infs : List ℕ) : Type 0 where
    pub after : Context V
    pub all : List ℕ
    pub ran : with_each_informer k rest c infs ≡ some (after, all)
    pub counted : length all ≡ length infs + length rest
    pub factories : HasFactories ss final after
    pub each : (q : Text) → In q rest ⊎ HasTweaked k q c → HasTweaked k q after

  LoopDone-cons :
      (s : Text) (rest : List Text) (c : Context V) (infs : List ℕ) (f : Factory Tweak)
      (h : HasFactories ss final c)
      → lookup s h.filtered.factories ≡ some f
      → f.tweak_list_options ≡ some sets_label_selector
      → LoopDone rest (after_round s f c) (infs ++ ((informer_for (type_name k) f).1 ∷ []))
      → LoopDone (s ∷ rest) c infs
  unfolding with_each_informer
  LoopDone-cons s rest c infs f h at t d = record {
    after = d.after;
    all = d.all;
    ran = rw (filtered_round-after s f h.filtered c h.held at, with_each_informer) d.ran;
    counted = omega (arith, d.counted, length-append infs ((informer_for (type_name k) f).1 ∷ []));
    factories = d.factories;
    each = λ q p. elim p [
      | inl (inl e) ↦ d.each q (inr (after_round-HasTweaked q s f c t (inl e)))
      | inl (inr later) ↦ d.each q (inl later)
      | inr old ↦ d.each q (inr (after_round-HasTweaked q s f c t (inr old)))
    ];
  }

  pub with_each_informer-LoopDone :
      (rest : List Text) (c : Context V) (infs : List ℕ)
      → ((q : Text) → In q rest → In q ss)
      → HasFactories ss final c
      → LoopDone rest c infs
  unfolding with_each_informer
  with_each_informer-LoopDone [] c infs sub h = record {
    after = c;
    all = infs;
    ran = refl;
    counted = omega arith;
    factories = h;
    each = λ q p. elim p [ inl n ↦ absurd n | inr old ↦ old ];
  }
  with_each_informer-LoopDone (s ∷ rest) c infs sub h =
      let (f, at, t) = h.each s (sub s (inl refl)) in
      LoopDone-cons s rest c infs f h at t (
        with_each_informer-LoopDone rest (after_round s f c)
          (infs ++ ((informer_for (type_name k) f).1 ∷ [])) (λ q i. sub q (inr i))
          (after_round-HasFactories s f c t h))
