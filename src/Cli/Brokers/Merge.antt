-- ===== src/Cli/Brokers/Merge.antt =====
-- How the charts on disk and the bindings in the cluster make up the brokers' states.
use mathlib.Core.List.{append-nil, append_assoc}
use k_mesh.Base.{
  ℕ, zero, suc, ◌-◌, ◌≡◌, refl, sym, ap, subst, ◌∙◌, inl, inr, Option, none, some, List, [], ◌∷◌,
  ◌++◌, arith, if◌then◌else◌, length, Bool-cases,
}
use k_mesh.Base.Text.{Text, text, text_eq, text_eq_iff, repeat}
use k_mesh.Base.Dict.{Dict, lookup, lookup-insert}
use k_mesh.Print.{concat}
use k_mesh.Cli.Brokers.{BrokerInfo, Line, merged_info, merge_line, chart_classes}

abbrev pub merge_lines : List Line → Dict BrokerInfo → Dict BrokerInfo
merge_lines [] brokers = brokers
merge_lines (l ∷ ls) brokers = merge_lines ls (merge_line l brokers)

-- The line that names the broker, if there is one.
abbrev pub line_for : Text → List Line → Option Line
line_for n [] = none
line_for n (l ∷ ls) = if text_eq n l.name then some l else line_for n ls

-- No two lines name the same broker.
abbrev pub HasDistinctNames : List Line → Type 0
HasDistinctNames [] = Unit
HasDistinctNames (l ∷ ls) = (line_for l.name ls ≡ none) × HasDistinctNames ls

-- A broker's entry after the lines, from its entry before them.
abbrev pub merged : Option Line → Option BrokerInfo → Option BrokerInfo
merged none old = old
merged (some l) old = some (merged_info l old)

lookup-merge_line :
    (n : Text) (l : Line) (brokers : Dict BrokerInfo)
    → lookup n (merge_line l brokers) ≡ (
        if text_eq n l.name then some (merged_info l (lookup l.name brokers)) else lookup n brokers)
unfolding merge_line
lookup-merge_line n l brokers =
    lookup-insert n l.name (merged_info l (lookup l.name brokers)) brokers

-- Where the lines name each broker once, a broker's entry is that of its chart, changed by its
-- line: a chart without a line stays available, one with a line is managed, and ready or not as
-- the line says; a line without a chart is a broker that is bound and not managed.
pub lookup-merge_lines :
    (n : Text) (ls : List Line) (brokers : Dict BrokerInfo)
    → HasDistinctNames ls
    → lookup n (merge_lines ls brokers) ≡ merged (line_for n ls) (lookup n brokers)
lookup-merge_lines n [] brokers d = refl
lookup-merge_lines n (l ∷ ls) brokers (fresh, d) = elim (Bool-cases (text_eq n l.name)) [
  | inl e ↦
      let same : n ≡ l.name = (text_eq_iff n l.name).0 e in
      let last : line_for n ls ≡ none = subst (λ k. line_for k ls ≡ none) (sym same) fresh in
      lookup-merge_lines n ls (merge_line l brokers) d
      ∙ rw (last, lookup-merge_line n l brokers, e)
          (ap (λ k. some (merged_info l (lookup k brokers))) (sym same))
  | inr e ↦ lookup-merge_lines n ls (merge_line l brokers) d ∙ rw (lookup-merge_line n l brokers, e)
]

repeat_newline :
    (n : ℕ) (t : Text) → repeat (text "\n") n ++ (10 ∷ t) ≡ 10 ∷ (repeat (text "\n") n ++ t)
repeat_newline zero t = refl
repeat_newline (suc n) t = ap (λ r. 10 ∷ r) (repeat_newline n t)

chart_classes_after :
    (acc : Text) (cs : List Text)
    → chart_classes (text "\n") acc cs ≡ repeat (text "\n") (length cs) ++ (acc ++ concat cs)
unfolding chart_classes
chart_classes_after acc [] = rw append-nil
chart_classes_after acc (c ∷ cs) =
    chart_classes_after (10 ∷ (acc ++ c)) cs
    ∙ repeat_newline (length cs) ((acc ++ c) ++ concat cs)
    ∙ ap (λ r. 10 ∷ (repeat (text "\n") (length cs) ++ r)) (append_assoc acc c (concat cs))

-- The classes of a chart come out joined with nothing between them, behind one line feed for
-- each class but the first.
pub chart_classes_lem :
    (cs : List Text) → chart_classes [] [] cs ≡ repeat (text "\n") (length cs - 1) ++ concat cs
unfolding chart_classes
chart_classes_lem [] = refl
chart_classes_lem (c ∷ cs) =
    let n : length (c ∷ cs) - 1 ≡ length cs = omega arith in rw n (chart_classes_after c cs)
