-- ===== src/Editor/Changes/Actions/Whole.antt =====
-- src/filters/editor.rs: what all header actions of a change make of the value of a name.
use inspect.Common.{
  ◌≡◌, refl, sym, ap, ◌∙◌, inl, inr, true, false, Option, none, some, List, [], ◌∷◌, map, Str,
  is_some, All, Bool-cases, Option-cases,
}
use inspect.Editor.{EditableHttpMessage, EditableHttpHeader, find_header, header_value, value_of}
use inspect.Editor.Changes.{
  diff, missing_headers, changed_headers_of, header_actions, remove_action, change_action,
  add_header_action,
}
use inspect.Editor.Changes.Unchanged.{Consistent}
use inspect.Editor.Changes.Actions.{
  value_behind_all, value_behind_all-append, header_value-same, is_named,
}
use inspect.Editor.Changes.Actions.Removals.{removals, removals-kept, removals-gone}
use inspect.Editor.Changes.Actions.Settings.{
  settings, settings-edited, settings-absent, settings-new,
}
use inspect.Editor.Changes.Actions.Additions.{additions, additions-kept, additions-new}

module _ (m edited : EditableHttpMessage) (n : Str) where
  in_steps :
      (old : Option Str)
      → value_behind_all n (header_actions (diff m edited)) old
        ≡ additions n m.kind m edited.headers
            (settings n m.kind edited m.headers (removals n m.kind edited m.headers old))
  unfolding header_actions diff additions settings removals
  in_steps old =
      value_behind_all-append n (map (remove_action m.kind) (missing_headers edited m.headers)) _
        old
      ∙ value_behind_all-append n (map (change_action m.kind) (changed_headers_of edited m.headers))
          (map (add_header_action m.kind) (missing_headers m edited.headers)) _

  no_such_header :
      (hs : List EditableHttpHeader)
      → value_of (find_header hs n) ≡ none
      → All (λ header. is_named n header ≡ true → none ≡ some header.value) hs
  unfolding find_header
  no_such_header [] h = tt
  no_such_header (header ∷ hs) h = elim (Bool-cases (is_named n header)) [
    | inl named ↦ let clash : some header.value ≡ none = rw named at h in absurd (cc clash)
    | inr other ↦ (
      (λ named. let clash : true ≡ false = sym named ∙ other in absurd (cc clash)),
      no_such_header hs (rw other at h),
    )
  ]

  agreeing :
      (hs : List EditableHttpHeader) (v : Str)
      → header_value edited n ≡ some v
      → All (λ header. header_value edited header.name ≡ some header.value) hs
      → All (λ header. is_named n header ≡ true → some v ≡ some header.value) hs
  agreeing [] v h all = tt
  agreeing (header ∷ hs) v h (here, all) = (
    (λ named. sym h ∙ sym (header_value-same n edited header.name named) ∙ here),
    agreeing hs v h all,
  )

  found :
      (hs : List EditableHttpHeader) (v : Str)
      → value_of (find_header hs n) ≡ some v
      → is_some (find_header hs n) ≡ true
  found hs v h = elim (Option-cases (find_header hs n)) [
    | inl missing ↦ let clash : none ≡ some v = rw missing at h in absurd (cc clash)
    | inr (header, e) ↦ ap is_some e
  ]

  not_found :
      (hs : List EditableHttpHeader)
      → value_of (find_header hs n) ≡ none
      → is_some (find_header hs n) ≡ false
  not_found hs h = elim (Option-cases (find_header hs n)) [
    | inl missing ↦ ap is_some missing
    | inr (header, e) ↦ let clash : some header.value ≡ none = rw e at h in absurd (cc clash)
  ]

  pub absent :
      header_value edited n ≡ none
      → value_behind_all n (header_actions (diff m edited)) (header_value m n) ≡ none
  unfolding header_value
  absent h = elim (Option-cases (header_value m n)) [
    | inl none_before ↦
        in_steps (header_value m n)
        ∙ rw none_before (
            rw
              (
                removals-gone n m.kind edited m.headers none h (inl refl),
                settings-absent n m.kind edited m.headers none h,
              )
              (additions-new n m.kind m edited.headers none none none_before
                (no_such_header edited.headers h) (inl refl)))
    | inr (v, before) ↦
        in_steps (header_value m n)
        ∙ rw
            (
              removals-gone n m.kind edited m.headers (header_value m n) h
                  (inr (found m.headers v before)),
              settings-absent n m.kind edited m.headers none h,
            )
            (additions-kept n m.kind m edited.headers v none before)
  ]

  pub kept_or_set :
      (w : Str)
      → Consistent edited
      → header_value edited n ≡ some w
      → value_behind_all n (header_actions (diff m edited)) (header_value m n) ≡ some w
  unfolding header_value
  kept_or_set w same h = elim (Option-cases (header_value m n)) [
    | inl none_before ↦
        in_steps (header_value m n)
        ∙ rw
            (
              removals-kept n m.kind edited m.headers w (header_value m n) h,
              settings-new n m.kind edited m.headers (header_value m n)
                  (not_found m.headers none_before),
            )
            (additions-new n m.kind m edited.headers (some w) (header_value m n) none_before
              (agreeing edited.headers w h same) (inr (found edited.headers w h)))
    | inr (v, before) ↦
        in_steps (header_value m n)
        ∙ rw
            (
              removals-kept n m.kind edited m.headers w (header_value m n) h,
              settings-edited n m.kind edited m.headers w (header_value m n) h
                  (inr (ap is_some before, refl)),
            )
            (additions-kept n m.kind m edited.headers v (some w) before)
  ]

-- If headers of one name have one value in the edited message, the actions of the change give every name
-- the value that it has there, from the value in the original.
pub header_actions-value :
    (m edited : EditableHttpMessage) (n : Str)
    → Consistent edited
    → value_behind_all n (header_actions (diff m edited)) (header_value m n) ≡ header_value edited n
header_actions-value m edited n same = elim (Option-cases (header_value edited n)) [
  | inl missing ↦ absent m edited n missing ∙ sym missing
  | inr (w, h) ↦ kept_or_set m edited n w same h ∙ sym h
]
