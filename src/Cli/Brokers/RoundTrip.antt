-- ===== src/Cli/Brokers/RoundTrip.antt =====
-- The bindings that kubectl prints, as `getBrokersInfo` reads them.
use mathlib.Core.List.{append_assoc, append-nil}
use k_mesh.Base.{
  ℕ, ◌≡◌, ◌≢◌, refl, sym, ap, ◌∙◌, inl, inr, false, Option, none, some, List, [], ◌∷◌, ◌++◌, ◌==◌,
  All, arith, Bool-cases, map, if◌then◌else◌,
}
use k_mesh.Base.Text.{Text, text, text_eq}
use k_mesh.Base.Dict.{Dict, lookup}
use k_mesh.Base.Result.{ok}
use k_mesh.Cli.Words.{is_space, trim_space, split, split_from}
use k_mesh.Cli.Brokers.{
  BrokerInfo, bound, managed, managed_not_ready, merged_info, DirEntry, Machine, value, merge_line,
  apply_line, apply_lines, read_charts, broker_charts, get_brokers_info,
}
use k_mesh.Cli.Brokers.Merge.{merge_lines, line_for, merged, HasDistinctNames, lookup-merge_lines}
use k_mesh.Cli.Brokers.Printed.{
  Shown, IsPlain, comma_joined, plain_classes-json_list, json_list, shown_line, printed,
  trim_line_feed, answered, IsPrintable, line_for_shown, apply_line-shown_line,
}

-- No line feed.
abbrev IsOneLine : Text → Type 0
IsOneLine w = All (λ c. (c == 10) ≡ false) w

IsOneLine-append : (v w : Text) → IsOneLine v → IsOneLine w → IsOneLine (v ++ w)
IsOneLine-append [] w h k = k
IsOneLine-append (c ∷ v) w (h, hs) k = (h, IsOneLine-append v w hs k)

not_line_feed : (c : ℕ) → is_space c ≡ false → (c == 10) ≡ false
unfolding is_space
not_line_feed c h = elim (Bool-cases (c == 10)) [ inl e ↦ ground arith | inr e ↦ e ]

word-IsOneLine : (w : Text) → All (λ c. is_space c ≡ false) w → IsOneLine w
word-IsOneLine [] h = tt
word-IsOneLine (c ∷ w) (h, hs) = (not_line_feed c h, word-IsOneLine w hs)

shown_line-IsOneLine : (s : Shown) → IsPrintable s → IsOneLine (shown_line s)
shown_line-IsOneLine s ((_, a), ((_, b), ((_, c), ((_, d), e)))) =
    IsOneLine-append s.name _ (word-IsOneLine s.name a) (
      refl,
      IsOneLine-append s.namespace _ (word-IsOneLine s.namespace b) (
        refl,
        IsOneLine-append s.ready _ (word-IsOneLine s.ready c)
            (refl, word-IsOneLine (json_list s.classes) d),
      ),
    )

split_from-line :
    (part w rest : Text)
    → IsOneLine w
    → split_from 10 part (w ++ (10 ∷ rest)) ≡ (part ++ w) ∷ split_from 10 [] rest
unfolding split_from
split_from-line part [] rest h = rw append-nil
split_from-line part (c ∷ w) rest (h, hs) =
    rw (h, split_from)
      (split_from-line (part ++ (c ∷ [])) w rest hs
        ∙ ap (λ p. p ∷ split_from 10 [] rest) (append_assoc part (c ∷ []) w))

-- The lines behind the first, with a line feed in front of each.
abbrev tail_of : List Shown → Text
tail_of [] = []
tail_of (s ∷ ss) = 10 ∷ (shown_line s ++ tail_of ss)

trim_line_feed-append :
    (w : Text) (d : ℕ) (t : Text) → trim_line_feed (w ++ (d ∷ t)) ≡ w ++ trim_line_feed (d ∷ t)
trim_line_feed-append [] d t = refl
trim_line_feed-append (c ∷ []) d t = refl
trim_line_feed-append (c ∷ e ∷ w) d t = ap (λ r. c ∷ r) (trim_line_feed-append (e ∷ w) d t)

trim_line_feed-printed :
    (w : Text) (ss : List Shown) → trim_line_feed (w ++ (10 ∷ printed ss)) ≡ w ++ tail_of ss
trim_line_feed-printed w [] = trim_line_feed-append w 10 []
trim_line_feed-printed w (s ∷ ss) =
    let w' = w ++ (10 ∷ shown_line s) in
    ap trim_line_feed (sym (append_assoc w (10 ∷ shown_line s) (10 ∷ printed ss)))
    ∙ trim_line_feed-printed w' ss
    ∙ append_assoc w (10 ∷ shown_line s) (tail_of ss)

split_from-tail_of :
    (part w : Text) (ss : List Shown)
    → IsOneLine w
    → All IsPrintable ss
    → split_from 10 part (w ++ tail_of ss) ≡ (part ++ w) ∷ map shown_line ss
unfolding split_from
split_from-tail_of part [] [] h hs = ap (λ p. p ∷ []) (sym (append-nil part))
split_from-tail_of part (c ∷ w) [] (h, hs) k =
    rw (h, split_from)
      (split_from-tail_of (part ++ (c ∷ [])) w [] hs k
        ∙ ap (λ p. p ∷ []) (append_assoc part (c ∷ []) w))
split_from-tail_of part w (s ∷ ss) h (k, ks) =
    split_from-line part w (shown_line s ++ tail_of ss) h
    ∙ ap (λ ls. (part ++ w) ∷ ls)
        (split_from-tail_of [] (shown_line s) ss (shown_line-IsOneLine s k) ks)

apply_lines-map :
    (ss : List Shown) (brokers : Dict BrokerInfo)
    → All IsPrintable ss
    → apply_lines (map shown_line ss) brokers ≡ value (merge_lines (map line_for_shown ss) brokers)
unfolding apply_lines
apply_lines-map [] brokers h = refl
apply_lines-map (s ∷ ss) brokers (h, hs) =
    rw (apply_line-shown_line s brokers h, apply_lines)
      (apply_lines-map ss (merge_line (line_for_shown s) brokers) hs)

-- Each binding's line is applied; an empty answer is one empty line, which is skipped.
apply_lines-answered :
    (ss : List Shown) (brokers : Dict BrokerInfo)
    → All IsPrintable ss
    → apply_lines (split 10 (answered ss)) brokers
      ≡ value (merge_lines (map line_for_shown ss) brokers)
unfolding apply_lines apply_line trim_space split split_from
apply_lines-answered [] brokers h = refl
apply_lines-answered (s ∷ ss) brokers (h, hs) =
    ap (λ t. apply_lines (split_from 10 [] t) brokers) (trim_line_feed-printed (shown_line s) ss)
    ∙ ap (λ ls. apply_lines ls brokers)
        (split_from-tail_of [] (shown_line s) ss (shown_line-IsOneLine s h) hs)
    ∙ apply_lines-map (s ∷ ss) brokers (h, hs)

-- How a binding that kubectl shows changes the entry of its broker.
abbrev pub shown_info : Shown → Option BrokerInfo → BrokerInfo
shown_info s none = record {
  name = s.name;
  namespace = s.namespace;
  classes = comma_joined s.classes;
  state = bound;
}
shown_info s (some info) = record info {
  namespace = s.namespace;
  classes = comma_joined s.classes;
  state = if text_eq s.ready (text "True") then managed else managed_not_ready;
}

-- The binding with this name.
abbrev pub shown_for : Text → List Shown → Option Shown
shown_for n [] = none
shown_for n (s ∷ ss) = if text_eq n s.name then some s else shown_for n ss

-- A broker's entry, from that of its chart.
abbrev pub shown_entry : Option Shown → Option BrokerInfo → Option BrokerInfo
shown_entry none old = old
shown_entry (some s) old = some (shown_info s old)

-- A binding has classes, which are printed as they are, and have no marks that the program removes.
abbrev pub HasPlainClasses : Shown → Type 0
HasPlainClasses s = (s.classes ≢ []) × All IsPlain s.classes

merged_info-shown_info :
    (s : Shown) (old : Option BrokerInfo)
    → HasPlainClasses s
    → merged_info (line_for_shown s) old ≡ shown_info s old
merged_info-shown_info s none (_, h) = rw (plain_classes-json_list s.classes h)
merged_info-shown_info s (some info) (_, h) = rw (plain_classes-json_list s.classes h)

merged-shown_entry :
    (n : Text) (ss : List Shown) (old : Option BrokerInfo)
    → All HasPlainClasses ss
    → merged (line_for n (map line_for_shown ss)) old ≡ shown_entry (shown_for n ss) old
merged-shown_entry n [] old h = refl
merged-shown_entry n (s ∷ ss) old (h, hs) = elim (Bool-cases (text_eq n s.name)) [
  | inl e ↦ rw e (ap some (merged_info-shown_info s old h))
  | inr e ↦ rw e (merged-shown_entry n ss old hs)
]

get_brokers_info-apply_lines :
    (mc : Machine) (items : List DirEntry) (charts : Dict BrokerInfo) (out : Text)
    → mc.read_dir broker_charts ≡ ok items
    → read_charts mc items [] ≡ value charts
    → mc.kubectl_get ≡ ok out
    → get_brokers_info mc ≡ apply_lines (split 10 out) charts
unfolding get_brokers_info
get_brokers_info-apply_lines mc items charts out e f g = rw (e, f, g, get_brokers_info)

-- Where the charts can be read and kubectl prints bindings with different names, whose names,
-- namespaces, readiness and classes are words, and whose classes are at least one each, of visible
-- ASCII characters that JSON does not escape and no brackets, all of them are read back: the program does not
-- panic, and a broker's entry is that of its chart, changed by the binding of its name, with that
-- binding's namespace, its readiness, and its classes with commas between them.
pub get_brokers_info-printed :
    (mc : Machine) (items : List DirEntry) (charts : Dict BrokerInfo) (ss : List Shown)
    → mc.read_dir broker_charts ≡ ok items
    → read_charts mc items [] ≡ value charts
    → mc.kubectl_get ≡ ok (answered ss)
    → All IsPrintable ss
    → All HasPlainClasses ss
    → HasDistinctNames (map line_for_shown ss)
    → (brokers : Dict BrokerInfo) × (get_brokers_info mc ≡ value brokers)
      × ((n : Text) → lookup n brokers ≡ shown_entry (shown_for n ss) (lookup n charts))
get_brokers_info-printed mc items charts ss e f g h plain d = (
  merge_lines (map line_for_shown ss) charts,
  get_brokers_info-apply_lines mc items charts (answered ss) e f g
      ∙ apply_lines-answered ss charts h,
  λ n.
      lookup-merge_lines n (map line_for_shown ss) charts d
      ∙ merged-shown_entry n ss (lookup n charts) plain,
)
