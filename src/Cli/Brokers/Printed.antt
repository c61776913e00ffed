-- ===== src/Cli/Brokers/Printed.antt =====
-- What kubectl prints for the bindings, by the template that `getBrokersInfo` gives it, and the
-- lines and words that come back of it.
use mathlib.Core.List.{append_assoc}
use k_mesh.Base.{
  ℕ, ◌<◌, ◌≢◌, if◌then◌else◌, ◌≡◌, refl, sym, ap, ◌∙◌, false, List, [], ◌∷◌, ◌++◌, ◌==◌, All, arith,
}
use k_mesh.Base.Text.{Text, text}
use k_mesh.Base.Dict.{Dict}
use k_mesh.Cli.Words.{is_space, fields, fields_from, remove_all}
use k_mesh.Cli.Words.Laws.{IsWord, layout, fields-layout, fields_from-last_space}
use k_mesh.Cli.Brokers.{BrokerInfo, Line, value, merge_line, apply_line, plain_classes}
use k_mesh.Cli.Brokers.Lines.{apply_line-fields}

-- A binding as kubectl shows it: the status of its condition `Ready`, and its classes.
pub record Shown : Type 0 where
  pub name : Text
  pub namespace : Text
  pub ready : Text
  pub classes : List Text

-- The rest of a list of texts as JSON.
abbrev json_rest : List Text → Text
json_rest [] = text "]"
json_rest (c ∷ cs) = text ",\"" ++ (c ++ (text "\"" ++ json_rest cs))

abbrev pub json_list : List Text → Text
json_list [] = text "[]"
json_list (c ∷ cs) = text "[\"" ++ (c ++ (text "\"" ++ json_rest cs))

-- The words of a line, and the line without its line feed.
abbrev pub words_of : Shown → List Text
words_of s = s.name ∷ s.namespace ∷ s.ready ∷ json_list s.classes ∷ []

abbrev pub shown_line : Shown → Text
shown_line s =
    s.name
    ++ (text " " ++ (s.namespace ++ (text " " ++ (s.ready ++ (text " " ++ json_list s.classes)))))

-- The output: a line for each binding.
abbrev pub printed : List Shown → Text
printed [] = []
printed (s ∷ ss) = shown_line s ++ (text "\n" ++ printed ss)

-- `strings.TrimSuffix(out, "\n")`, with which the package sh of mage hands on the output.
abbrev pub trim_line_feed : Text → Text
trim_line_feed [] = []
trim_line_feed (c ∷ []) = if c == 10 then [] else c ∷ []
trim_line_feed (c ∷ d ∷ s) = c ∷ trim_line_feed (d ∷ s)

-- What `k` answers for these bindings.
abbrev pub answered : List Shown → Text
answered ss = trim_line_feed (printed ss)

-- The names of objects and classes hold no white space, and a condition has a status.
abbrev pub IsPrintable : Shown → Type 0
IsPrintable s = All IsWord (words_of s)

-- The line that the program is to see.
abbrev pub line_for_shown : Shown → Line
line_for_shown s = record {
  name = s.name;
  namespace = s.namespace;
  ready = s.ready;
  classes = json_list s.classes;
}

-- A padded line has its line's words.
fields-shown_line : (s : Shown) → IsPrintable s → fields (shown_line s) ≡ words_of s
unfolding fields is_space
fields-shown_line s (a, (b, (c, (d, e)))) =
    let ws : List (ℕ × Text) =
      (0, s.name) ∷ (0, s.namespace) ∷ (0, s.ready) ∷ (0, json_list s.classes) ∷ [] in
    let padded : shown_line s ++ (32 ∷ []) ≡ layout ws = simp append_assoc in
    sym (fields_from-last_space [] (shown_line s) 32 refl)
    ∙ ap (fields_from []) padded
    ∙ fields-layout ws (a, (b, (c, (d, tt))))

pub apply_line-shown_line :
    (s : Shown) (brokers : Dict BrokerInfo)
    → IsPrintable s
    → apply_line (shown_line s) brokers ≡ value (merge_line (line_for_shown s) brokers)
apply_line-shown_line s brokers h =
    apply_line-fields (shown_line s) brokers ∙ rw (fields-shown_line s h)

-- A visible ASCII character that JSON does not escape, and no bracket.
abbrev pub IsPlain : Text → Type 0
IsPlain w =
    All
      (λ c.
        ((c == 34) ≡ false)
        × ((c == 91) ≡ false)
        × ((c == 93) ≡ false)
        × (c ≢ 92)
        × (c ≢ 60)
        × (c ≢ 62)
        × (c ≢ 38)
        × (32 < c)
        × (c < 127))
      w

abbrev comma_rest : List Text → Text
comma_rest [] = []
comma_rest (c ∷ cs) = text "," ++ (c ++ comma_rest cs)

-- The texts with commas between them.
abbrev pub comma_joined : List Text → Text
comma_joined [] = []
comma_joined (c ∷ cs) = c ++ comma_rest cs

remove_all-append : (x : ℕ) (s t : Text) → remove_all x (s ++ t) ≡ remove_all x s ++ remove_all x t
unfolding remove_all
remove_all-append x [] t = refl
remove_all-append x (c ∷ s) t = ground (arith, remove_all-append x s t)

plain_classes-append : (s t : Text) → plain_classes (s ++ t) ≡ plain_classes s ++ plain_classes t
unfolding plain_classes
plain_classes-append s t = simp remove_all-append

remove_all-other :
    (x c : ℕ) (s : Text) → (c == x) ≡ false → remove_all x (c ∷ s) ≡ c ∷ remove_all x s
unfolding remove_all
remove_all-other x c s h = rw (h, remove_all)

plain_classes-IsPlain : (w : Text) → IsPlain w → plain_classes w ≡ w
unfolding plain_classes
plain_classes-IsPlain [] h = unfold remove_all in refl
plain_classes-IsPlain (c ∷ w) ((q, a, b, _, _, _, _, _, _), hs) =
    ap (λ s. remove_all 93 (remove_all 91 s)) (remove_all-other 34 c w q)
    ∙ ap (remove_all 93) (remove_all-other 91 c (remove_all 34 w) a)
    ∙ remove_all-other 93 c (remove_all 91 (remove_all 34 w)) b
    ∙ ap (λ s. c ∷ s) (plain_classes-IsPlain w hs)

plain_quote : (t : Text) → plain_classes (34 ∷ t) ≡ plain_classes t
unfolding plain_classes remove_all
plain_quote t = refl

plain_open : (t : Text) → plain_classes (91 ∷ t) ≡ plain_classes t
unfolding plain_classes remove_all
plain_open t = refl

plain_comma : (t : Text) → plain_classes (44 ∷ t) ≡ 44 ∷ plain_classes t
unfolding plain_classes remove_all
plain_comma t = refl

-- A plain text in quotation marks.
plain_quoted :
    (c t : Text) → IsPlain c → plain_classes (34 ∷ (c ++ (34 ∷ t))) ≡ c ++ plain_classes t
plain_quoted c t h =
    plain_quote (c ++ (34 ∷ t))
    ∙ plain_classes-append c (34 ∷ t)
    ∙ rw (plain_classes-IsPlain c h, plain_quote t)

plain_classes-json_rest :
    (cs : List Text) → All IsPlain cs → plain_classes (json_rest cs) ≡ comma_rest cs
unfolding plain_classes remove_all
plain_classes-json_rest [] h = refl
plain_classes-json_rest (c ∷ cs) (h, hs) =
    plain_comma (34 ∷ (c ++ (34 ∷ json_rest cs)))
    ∙ ap (λ t. 44 ∷ t)
        (plain_quoted c (json_rest cs) h ∙ ap (λ t. c ++ t) (plain_classes-json_rest cs hs))

-- The classes that the program shows are those of the list, with commas between them.
pub plain_classes-json_list :
    (cs : List Text) → All IsPlain cs → plain_classes (json_list cs) ≡ comma_joined cs
unfolding plain_classes remove_all
plain_classes-json_list [] h = refl
plain_classes-json_list (c ∷ cs) (h, hs) =
    plain_open (34 ∷ (c ++ (34 ∷ json_rest cs)))
    ∙ plain_quoted c (json_rest cs) h
    ∙ ap (λ t. c ++ t) (plain_classes-json_rest cs hs)
