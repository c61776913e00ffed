-- ===== src/Cli/Words/Laws.antt =====
-- Words in a padded text, and in a trimmed one.
use mathlib.Core.List.{reverse, reverse-cons, reverse-reverse, append_assoc, append-nil}
use k_mesh.Base.{
  ℕ, zero, suc, ◌≡◌, ◌≢◌, refl, sym, ap, ◌∙◌, inl, inr, true, false, List, [], ◌∷◌, ◌++◌, map, All,
  Bool-cases,
}
use k_mesh.Base.Text.{Text, text, repeat}
use k_mesh.Cli.Words.{is_space, flush, fields_from, fields, trim_left, trim_space}

-- A word: not empty, and without white space.
abbrev pub IsWord : Text → Type 0
IsWord w = (w ≢ []) × All (λ c. is_space c ≡ false) w

-- Each word behind that many blanks, and one more blank behind it.
abbrev pub layout : List (ℕ × Text) → Text
layout [] = []
layout ((n, w) ∷ rest) = repeat (text " ") n ++ (w ++ (text " " ++ layout rest))

flush-word : (w : Text) (ws : List Text) → w ≢ [] → flush w ws ≡ w ∷ ws
flush-word [] ws h = absurd (h refl)
flush-word (c ∷ w) ws h = refl

fields_from-word :
    (acc w rest : Text)
    → All (λ c. is_space c ≡ false) w
    → fields_from acc (w ++ rest) ≡ fields_from (acc ++ w) rest
unfolding fields_from
fields_from-word acc [] rest h = rw append-nil
fields_from-word acc (c ∷ w) rest (h, hs) =
    rw (h, fields_from)
      (fields_from-word (acc ++ (c ∷ [])) w rest hs
        ∙ ap (λ a. fields_from a rest) (append_assoc acc (c ∷ []) w))

fields_from-blanks :
    (n : ℕ) (rest : Text) → fields_from [] (repeat (text " ") n ++ rest) ≡ fields_from [] rest
unfolding fields_from is_space
fields_from-blanks zero rest = refl
fields_from-blanks (suc n) rest = fields_from-blanks n rest

layout-append :
    (n : ℕ) (w : Text) (ws : List (ℕ × Text)) (last : Text)
    → layout ((n, w) ∷ ws) ++ last ≡ repeat (text " ") n ++ (w ++ (text " " ++ (layout ws ++ last)))
layout-append n w ws last = simp append_assoc

-- The words of a padded text are those that were laid out.
pub fields-layout :
    (ws : List (ℕ × Text)) → All (λ x. IsWord x.1) ws → fields (layout ws) ≡ map (λ x. x.1) ws
unfolding fields
fields-layout [] h = refl
fields-layout ((n, w) ∷ ws) ((k, h), hs) =
    fields_from-blanks n (w ++ (text " " ++ layout ws))
    ∙ fields_from-word [] w (text " " ++ layout ws) h
    ∙ flush-word w (fields_from [] (layout ws)) k
    ∙ ap (λ r. w ∷ r) (fields-layout ws hs)

fields_from-trim_left : (s : Text) → fields_from [] (trim_left s) ≡ fields_from [] s
unfolding fields_from trim_left
fields_from-trim_left [] = refl
fields_from-trim_left (c ∷ s) = elim (Bool-cases (is_space c)) [
  | inl e ↦ rw (e, trim_left, fields_from) (fields_from-trim_left s)
  | inr e ↦ rw (e, trim_left)
]

pub fields_from-last_space :
    (w s : Text) (c : ℕ) → is_space c ≡ true → fields_from w (s ++ (c ∷ [])) ≡ fields_from w s
unfolding fields_from
fields_from-last_space w [] c h = rw (h, fields_from)
fields_from-last_space w (d ∷ s) c h = elim (Bool-cases (is_space d)) [
  | inl e ↦ rw (e, fields_from) (ap (flush w) (fields_from-last_space [] s c h))
  | inr e ↦ rw (e, fields_from) (fields_from-last_space (w ++ (d ∷ [])) s c h)
]

-- The same with one more word that has nothing behind it.
pub fields-layout_last :
    (ws : List (ℕ × Text)) (last : Text)
    → All (λ x. IsWord x.1) ws
    → IsWord last
    → fields (layout ws ++ last) ≡ map (λ x. x.1) ws ++ (last ∷ [])
unfolding fields is_space
fields-layout_last [] last h k =
    sym (fields_from-last_space [] last 32 refl) ∙ fields-layout ((0, last) ∷ []) (k, tt)
fields-layout_last ((n, w) ∷ ws) last ((k, h), hs) l =
    ap (fields_from []) (layout-append n w ws last)
    ∙ fields_from-blanks n (w ++ (text " " ++ (layout ws ++ last)))
    ∙ fields_from-word [] w (text " " ++ (layout ws ++ last)) h
    ∙ flush-word w (fields_from [] (layout ws ++ last)) k
    ∙ ap (λ r. w ∷ r) (fields-layout_last ws last hs l)

fields_from-trim_right :
    (w r : Text) → fields_from w (reverse (trim_left r)) ≡ fields_from w (reverse r)
unfolding trim_left
fields_from-trim_right w [] = refl
fields_from-trim_right w (c ∷ r) = elim (Bool-cases (is_space c)) [
  | inl e ↦
      rw (e, trim_left)
        (fields_from-trim_right w r
          ∙ sym (ap (fields_from w) (reverse-cons c r) ∙ fields_from-last_space w (reverse r) c e))
  | inr e ↦ rw (e, trim_left)
]

-- `strings.TrimSpace` changes no word.
pub fields-trim_space : (s : Text) → fields (trim_space s) ≡ fields s
unfolding fields trim_space
fields-trim_space s =
    fields_from-trim_right [] (reverse (trim_left s))
    ∙ ap (fields_from []) (reverse-reverse (trim_left s))
    ∙ fields_from-trim_left s

trim_left-head : (r : Text) (c : ℕ) (s : Text) → trim_left r ≡ c ∷ s → is_space c ≡ false
unfolding trim_left
trim_left-head [] c s h = cc
trim_left-head (d ∷ r) c s h = elim (Bool-cases (is_space d)) [
  | inl e ↦ trim_left-head r c s (rw (e, trim_left) at h)
  | inr e ↦ head_eq d c r s (rw (e, trim_left) at h) e
]
  where
    head_eq :
        (d c : ℕ) (r s : Text)
        → ◌≡◌ {A = Text} (d ∷ r) (c ∷ s)
        → is_space d ≡ false
        → is_space c ≡ false
    head_eq d c r s p e = cc

flush-ne : (w : Text) (ws : List Text) → ws ≢ [] → flush w ws ≢ []
flush-ne [] ws h = h
flush-ne (c ∷ w) ws h = λ e. cc

flush-last : (w : Text) (c : ℕ) → flush (w ++ (c ∷ [])) [] ≢ []
flush-last [] c = λ e. cc
flush-last (d ∷ w) c = λ e. cc

fields_from-last_word :
    (w x : Text) (c : ℕ) → is_space c ≡ false → fields_from w (x ++ (c ∷ [])) ≢ []
unfolding fields_from
fields_from-last_word w [] c h = rw (h, fields_from) (flush-last w c)
fields_from-last_word w (d ∷ x) c h = elim (Bool-cases (is_space d)) [
  | inl e ↦
      rw (e, fields_from)
        (flush-ne w (fields_from [] (x ++ (c ∷ []))) (fields_from-last_word [] x c h))
  | inr e ↦ rw (e, fields_from) (fields_from-last_word (w ++ (d ∷ [])) x c h)
]

nil-ne-cons : {c : ℕ} {s : Text} → ◌≡◌ {A = Text} [] (c ∷ s) → ⊥
nil-ne-cons h = cc

trimmed-fields : (r : Text) (c : ℕ) (s : Text) → reverse (trim_left r) ≡ c ∷ s → fields (c ∷ s) ≢ []
unfolding fields
trimmed-fields r c s h = go (trim_left r) refl
  where
    go : (t : Text) → trim_left r ≡ t → fields_from [] (c ∷ s) ≢ []
    go [] e = absurd (nil-ne-cons (sym (ap reverse e) ∙ h))
    go (d ∷ t) e =
        let parts : c ∷ s ≡ reverse t ++ (d ∷ []) = sym h ∙ (ap reverse e ∙ reverse-cons d t) in
        rw parts (fields_from-last_word [] (reverse t) d (trim_left-head r d t e))

-- A text that trimming leaves not empty has a word.
pub trim_space-fields : (s : Text) (c : ℕ) (t : Text) → trim_space s ≡ c ∷ t → fields s ≢ []
unfolding trim_space
trim_space-fields s c t h e =
    trimmed-fields (reverse (trim_left s)) c t h (ap fields (sym h) ∙ (fields-trim_space s ∙ e))
