-- ===== src/Reconciler/Create/Laws.antt =====
-- What the configuration of a reconciler promises.
use k_mesh.Base.{
  ◌≤◌, ◌≡◌, ◌≢◌, subst, ◌∙◌, inl, inr, Bool, true, false, none, List, [], ◌∷◌, ltb, ltb→le,
  if◌then◌else◌, length, Bool-cases, arith,
}
use k_mesh.Base.Text.{Text}
use k_mesh.Reconciler.Create.{
  Options, Configured, created, too_many_options, wrong_leader_aware, apply_options, apply_all,
  new_reconciler,
}

module _ {Store Demote : Type 0} where
  -- Some option asks for it.
  abbrev pub asks_skip : List (Options Store Demote) → Bool
  asks_skip [] = false
  asks_skip (o ∷ os) = if o.skip_status_updates then true else asks_skip os

  apply_options-finalizer_name :
      (o : Options Store Demote) (c : Configured Store Demote)
      → c.finalizer_name ≢ []
      → (apply_options o c).finalizer_name ≢ []
  unfolding apply_options
  apply_options-finalizer_name o c h = go o.finalizer_name
    where
      go : (t : Text) → elim t [ [] ↦ c.finalizer_name | x ∷ xs ↦ x ∷ xs ] ≢ []
      go [] = h
      go (x ∷ xs) = λ e. cc

  apply_all_lem :
      (os : List (Options Store Demote)) (c : Configured Store Demote)
      → c.finalizer_name ≢ []
      → ((apply_all os c).finalizer_name ≢ [])
        × ((apply_all os c).skip_status_updates
            ≡ (if c.skip_status_updates then true else asks_skip os))
  unfolding apply_all apply_options
  apply_all_lem [] c h = (h, ground arith)
  apply_all_lem (o ∷ os) c h =
      let (p, q) = apply_all_lem os (apply_options o c) (apply_options-finalizer_name o c h) in
      (p, q ∙ ground arith)

  too_many-ne-created : {c : Configured Store Demote} → too_many_options ≡ created c → ⊥
  too_many-ne-created h = cc

  wrong-ne-created : {c : Configured Store Demote} → wrong_leader_aware ≡ created c → ⊥
  wrong-ne-created h = cc

  created-injective : {c d : Configured Store Demote} → created c ≡ created d → c ≡ d
  created-injective h = cc

  -- A reconciler that is created had at most one set of options and business logic without the
  -- interface `LeaderAware`; with a default name that is not empty the name of its finalizer is
  -- not empty, and it skips status updates exactly if an option asks for that.
  pub new_reconciler-created :
      (name : Text) (aware : Bool) (os : List (Options Store Demote)) (c : Configured Store Demote)
      → name ≢ []
      → new_reconciler name aware os ≡ created c
      → (length os ≤ 1)
        × (aware ≡ false)
        × (c.finalizer_name ≢ [])
        × (c.skip_status_updates ≡ asks_skip os)
  unfolding new_reconciler
  new_reconciler-created name aware os c h e = elim (Bool-cases (ltb 1 (length os))) [
    | inl many ↦ absurd (too_many-ne-created (rw (many, new_reconciler) at e))
    | inr few ↦ elim (Bool-cases aware) [
      | inl wrong ↦ absurd (wrong-ne-created (rw (few, wrong, new_reconciler) at e))
      | inr right ↦
          let c₀ : Configured Store Demote = record {
            config_store = none;
            finalizer_name = name;
            skip_status_updates = false;
            demote_func = none;
          } in
          let (p, q) = apply_all_lem os c₀ h in
          let same : apply_all os c₀ ≡ c =
            created-injective (rw (few, right, new_reconciler) at e) in
          (
            ltb→le 1 (length os) few,
            right,
            subst (λ x. x.finalizer_name ≢ []) same p,
            subst (λ x. x.skip_status_updates ≡ asks_skip os) same q,
          )
    ]
  ]
