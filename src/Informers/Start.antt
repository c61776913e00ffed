-- ===== src/Informers/Start.antt =====
-- What `Start` does, and what holds in every factory that calls can reach.
use k_mesh.Base.{
  ℕ, ◌≡◌, refl, ap, subst, ◌∙◌, inl, inr, Bool, true, false, some, List, [], ◌∷◌, ◌++◌, arith, In,
  In-append, In-append_left, In-last, NoRepeats-last, if◌then◌else◌, Bool-cases, Bool-cases,
}
use k_mesh.Base.Text.{Text, text_eq, text_eq_iff, text_eq_refl}
use k_mesh.Base.Dict.{Dict, lookup, insert, lookup-insert}
use k_mesh.Informers.{Factory, is_started, start_loop}
use k_mesh.Informers.Steps.{IsConsistent}

is_started-insert :
    (k t : Text) (d : Dict Bool)
    → is_started k (insert t true d) ≡ (if text_eq k t then true else is_started k d)
is_started-insert k t d = ground (arith, lookup-insert k t true d)

module _ {Tweak : Type 0} where
  -- The body of the loop of `Start`.
  abbrev begin_one : Text → ℕ → Factory Tweak → Factory Tweak
  begin_one t v f = if is_started t f.started_informers then f else record f {
    started_informers = insert t true f.started_informers;
    runs = f.runs ++ v ∷ [];
  }

  begun : Text → ℕ → Factory Tweak → Factory Tweak
  begun t v f = record f {
    started_informers = insert t true f.started_informers;
    runs = f.runs ++ v ∷ [];
  }

  begun-IsConsistent :
      (t : Text) (v : ℕ) (f : Factory Tweak)
      → IsConsistent f
      → lookup t f.informers ≡ some v
      → is_started t f.started_informers ≡ false
      → IsConsistent (begun t v f)
  unfolding begun
  begun-IsConsistent t v f h l e = record {
    used = h.used;
    own = h.own;
    run_started = λ u i. elim (In-append u f.runs (v ∷ []) i) [
      | inl j ↦
          let (k, m, s) = h.run_started u j in
          (k, m, ground (arith, is_started-insert k t f.started_informers))
      | inr j ↦ elim j [
        | inl p ↦ (t, rw p l, rw (is_started-insert t t f.started_informers, text_eq_refl t))
        | inr no_more ↦ absurd no_more
      ]
    ];
    started_run = λ k s. elim (Bool-cases (text_eq k t)) [
      | inl p ↦ (v, rw ((text_eq_iff k t).0 p) l, In-last v f.runs)
      | inr p ↦
          let s' : is_started k f.started_informers ≡ true =
            ground (arith, is_started-insert k t f.started_informers) in
          let (u, m, i) = h.started_run k s' in (u, m, In-append_left u f.runs (v ∷ []) i)
    ];
    once = NoRepeats-last v f.runs (not_run h) h.once;
  }
    where
      not_run : IsConsistent f → ¬ (In v f.runs)
      not_run g i =
          let (k, m, s) = g.run_started v i in
          let same : k ≡ t = g.own k t v m l in
          let s' : is_started t f.started_informers ≡ true =
            subst (λ x. is_started x f.started_informers ≡ true) same s in
          cc

  begin_one-IsConsistent :
      (t : Text) (v : ℕ) (f : Factory Tweak)
      → IsConsistent f
      → lookup t f.informers ≡ some v
      → IsConsistent (begin_one t v f)
  unfolding begun
  begin_one-IsConsistent t v f h l = elim (Bool-cases (is_started t f.started_informers)) [
    | inl e ↦ rw (e, begin_one) h
    | inr e ↦ rw (e, begin_one) (begun-IsConsistent t v f h l e)
  ]

  begin_one-informers :
      (t : Text) (v : ℕ) (f : Factory Tweak) → (begin_one t v f).informers ≡ f.informers
  begin_one-informers t v f = ground arith

  begin_one-is_started :
      (k t : Text) (v : ℕ) (f : Factory Tweak)
      → is_started k (begin_one t v f).started_informers
        ≡ (if text_eq k t then true else is_started k f.started_informers)
  begin_one-is_started k t v f = elim (Bool-cases (is_started t f.started_informers)) [
    | inl e ↦ rw (e, begin_one) (ground (arith, text_eq_iff k t))
    | inr e ↦ rw (e, begin_one) (is_started-insert k t f.started_informers)
  ]

  pub start_loop-informers :
      (rest : List (Text × ℕ)) (f : Factory Tweak) → (start_loop rest f).informers ≡ f.informers
  unfolding start_loop
  start_loop-informers [] f = refl
  start_loop-informers ((t, v) ∷ rest) f =
      start_loop-informers rest (begin_one t v f) ∙ begin_one-informers t v f

  pub start_loop-IsConsistent :
      (rest : List (Text × ℕ)) (f : Factory Tweak)
      → IsConsistent f
      → ((t : Text) (v : ℕ) → In (t, v) rest → lookup t f.informers ≡ some v)
      → IsConsistent (start_loop rest f)
  unfolding start_loop
  start_loop-IsConsistent [] f h l = h
  start_loop-IsConsistent ((t, v) ∷ rest) f h l =
      start_loop-IsConsistent rest (begin_one t v f)
        (begin_one-IsConsistent t v f h (l t v (inl refl)))
        (λ k u i. ap (lookup k) (begin_one-informers t v f) ∙ l k u (inr i))

  start_loop-is_started :
      (k : Text) (rest : List (Text × ℕ)) (f : Factory Tweak)
      → is_started k f.started_informers ≡ true
      → is_started k (start_loop rest f).started_informers ≡ true
  unfolding start_loop
  start_loop-is_started k [] f h = h
  start_loop-is_started k ((t, v) ∷ rest) f h =
      start_loop-is_started k rest (begin_one t v f) (begin_one-is_started k t v f ∙ ground arith)

  pub start_loop-In :
      (k : Text) (u : ℕ) (rest : List (Text × ℕ)) (f : Factory Tweak)
      → In (k, u) rest
      → is_started k (start_loop rest f).started_informers ≡ true
  unfolding start_loop
  start_loop-In k u [] f i = absurd i
  start_loop-In k u ((t, v) ∷ rest) f (inl p) =
      start_loop-is_started k rest (begin_one t v f)
        (begin_one-is_started k t v f ∙ ground (arith, text_eq_iff k t, ap (λ x. x.0) p))
  start_loop-In k u ((t, v) ∷ rest) f (inr i) = start_loop-In k u rest (begin_one t v f) i
