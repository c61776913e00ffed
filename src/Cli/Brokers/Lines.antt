-- ===== src/Cli/Brokers/Lines.antt =====
-- A line of kubectl's output and the entry that it changes.
use k_mesh.Base.{◌≡◌, ◌≢◌, refl, sym, ap, ◌∙◌, List, [], ◌∷◌}
use k_mesh.Base.Text.{Text}
use k_mesh.Base.Dict.{Dict}
use k_mesh.Cli.Words.{fields, trim_space}
use k_mesh.Cli.Words.Laws.{fields-trim_space, trim_space-fields}
use k_mesh.Cli.Brokers.{
  BrokerInfo, Checked, value, index_out_of_range, line_of, merge_line, apply_line, ◌>>=◌,
}

-- What the words of a line do to the brokers: none are skipped, up to three are too few for the
-- four that are read, and from four on the first four are merged.
abbrev pub line_effect : List Text → Dict BrokerInfo → Checked (Dict BrokerInfo)
line_effect [] brokers = value brokers
line_effect (a ∷ b ∷ c ∷ d ∷ _) brokers =
    value (merge_line (record { name = a; namespace = b; ready = c; classes = d }) brokers)
line_effect _ brokers = index_out_of_range

line_of-line_effect :
    (ws : List Text) (brokers : Dict BrokerInfo)
    → ws ≢ []
    → (line_of ws >>= λ line. value (merge_line line brokers)) ≡ line_effect ws brokers
unfolding line_of
line_of-line_effect [] brokers h = absurd (h refl)
line_of-line_effect (a ∷ []) brokers h = refl
line_of-line_effect (a ∷ b ∷ []) brokers h = refl
line_of-line_effect (a ∷ b ∷ c ∷ []) brokers h = refl
line_of-line_effect (a ∷ b ∷ c ∷ d ∷ ws) brokers h = refl

pub apply_line-fields :
    (l : Text) (brokers : Dict BrokerInfo) → apply_line l brokers ≡ line_effect (fields l) brokers
unfolding apply_line fields
apply_line-fields l brokers = go (trim_space l) refl
  where
    go : (t : Text) → trim_space l ≡ t → apply_line l brokers ≡ line_effect (fields l) brokers
    go [] e =
        let none_left : fields l ≡ [] = sym (fields-trim_space l) ∙ ap fields e in
        rw (e, none_left, apply_line)
    go (c ∷ t) e =
        let same : fields l ≡ fields (c ∷ t) = sym (fields-trim_space l) ∙ ap fields e in
        rw (e, apply_line, same)
          (line_of-line_effect (fields (c ∷ t)) brokers
            (λ none. trim_space-fields l c t e (same ∙ none)))
