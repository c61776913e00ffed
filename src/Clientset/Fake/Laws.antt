-- ===== src/Clientset/Fake/Laws.antt =====
-- What the fake client's lists hold.
use mathlib.Core.List.{append_assoc, append-nil}
use k_mesh.Base.{
  ◌≡◌, ◌∙◌, ap, sym, inl, inr, Option, none, some, List, [], ◌∷◌, ◌++◌, if◌then◌else◌, Bool-cases,
  filter_map,
}
use k_mesh.Base.Text.{Text}
use k_mesh.Base.Result.{Err}
use k_mesh.Clientset.{Kind, ObjectList, ListOptions}
use k_mesh.Clientset.Fake.{
  list_action, Fake, fake_resource, fake_kind, append_matching, label_of, filtered_list, fake_list,
}

module _ {K : Kind} (F : Fake K) (label : F.Selector) where
  -- The object, if its labels match.
  abbrev pub matching : K.Object → Option K.Object
  matching o = if F.matches label (K.labels_of o) then some o else none

module _ {K : Kind} (F : Fake K) where
  append_matching-filter_map :
      (ns : Text) (label : F.Selector) (items rest : List K.Object)
      → append_matching F ns label items rest ≡ items ++ filter_map (matching F label) rest
  unfolding append_matching
  append_matching-filter_map ns label items [] = sym (append-nil items)
  append_matching-filter_map ns label items (o ∷ rest) =
      elim (Bool-cases (F.matches label (K.labels_of o))) [
        | inl e ↦
            rw (e, append_matching, filter_map, matching)
              (append_matching-filter_map ns label (items ++ o ∷ []) rest
                ∙ append_assoc items (o ∷ []) (filter_map (matching F label) rest))
        | inr e ↦
            rw (e, append_matching, filter_map, matching)
              (append_matching-filter_map ns label items rest)
      ]

  -- The fake client's list has the items of the reactors' answer whose labels match the selector
  -- of the options, or all that match everything if there is none, in order and with the answer's
  -- metadata; the reactors' error is handed on.
  pub fake_list-filter_map :
      (ns : Text) (opts : ListOptions K) (s t : F.Server) (l : ObjectList K) (e : Option Err)
      → F.invokes_list (list_action (fake_resource F ns) (fake_kind F ns) ns opts) s
        ≡ (t, some l, e)
      → fake_list F ns opts s ≡ (
        t,
        some (record {
          meta = l.meta;
          items = filter_map (matching F (label_of F ns opts)) l.items;
        }),
        e,
      )
  unfolding fake_list filtered_list
  fake_list-filter_map ns opts s t l e h =
      ap (filtered_list F ns opts) h
      ∙ ap (λ items. (t, some (record { meta = l.meta; items = items }), e))
          (append_matching-filter_map ns (label_of F ns opts) [] l.items)
