-- ===== src/Editor/Changes/Actions/Removals.antt =====
-- src/filters/editor.rs: what the actions for removed headers make of the value of a name.
use inspect.Common.{
  ◌≡◌, refl, ap, ◌∙◌, ◌⊎◌, inl, inr, true, false, Option, none, some, List, [], ◌∷◌, map, Str,
  is_some, arith, if◌then◌else◌, Bool-cases,
}
use inspect.Editor.{
  EditableHttpMessageKind, EditableHttpMessage, EditableHttpHeader, find_header, header_value,
}
use inspect.Editor.Changes.{missing_headers, remove_action}
use inspect.Editor.Changes.Actions.{
  value_behind_all, value_behind_all-cons, value_behind-remove, header_value-same, is_named,
}

module _ (n : Str) where
  unfoldable pub removals :
      EditableHttpMessageKind
      → EditableHttpMessage
      → List EditableHttpHeader
      → Option Str
      → Option Str
  removals k edited hs old =
      value_behind_all n (map (remove_action k) (missing_headers edited hs)) old

  removals-cons :
      (k : EditableHttpMessageKind) (edited : EditableHttpMessage) (header : EditableHttpHeader)
      (hs : List EditableHttpHeader) (old : Option Str)
      → removals k edited (header ∷ hs) old
        ≡ removals k edited hs (
            if is_some (header_value edited header.name)
            then old
            else (if is_named n header then none else old))
  unfolding removals missing_headers
  removals-cons k edited header hs old =
      elim (Bool-cases (is_some (header_value edited header.name))) [
        | inl found ↦ rw found refl
        | inr missing ↦ rw missing (
            value_behind_all-cons n (remove_action k header) _ old
            ∙ ap (value_behind_all n (map (remove_action k) (missing_headers edited hs)))
                (value_behind-remove n k header old))
      ]

  -- A name that the edited message has is not removed.
  pub removals-kept :
      (k : EditableHttpMessageKind) (edited : EditableHttpMessage) (hs : List EditableHttpHeader)
      (e : Str) (old : Option Str)
      → header_value edited n ≡ some e
      → removals k edited hs old ≡ old
  unfolding removals missing_headers value_behind_all
  removals-kept k edited [] e old h = refl
  removals-kept k edited (header ∷ hs) e old h =
      removals-cons k edited header hs old ∙ elim (Bool-cases (is_named n header)) [
        | inl named ↦
            let found : is_some (header_value edited header.name) ≡ true =
              ap is_some (header_value-same n edited header.name named ∙ h) in
            rw found (removals-kept k edited hs e old h)
        | inr other ↦ elim (Bool-cases (is_some (header_value edited header.name))) [
          | inl found ↦ rw found (removals-kept k edited hs e old h)
          | inr missing ↦ rw (missing, other) (removals-kept k edited hs e old h)
        ]
      ]

  -- A name that it has not is removed, if the original has it.
  pub removals-gone :
      (k : EditableHttpMessageKind) (edited : EditableHttpMessage) (hs : List EditableHttpHeader)
      (old : Option Str)
      → header_value edited n ≡ none
      → (old ≡ none) ⊎ (is_some (find_header hs n) ≡ true)
      → removals k edited hs old ≡ none
  unfolding removals missing_headers value_behind_all find_header
  removals-gone k edited [] old h (inl e) = e
  removals-gone k edited [] old h (inr e) = absurd (cc e)
  removals-gone k edited (header ∷ hs) old h had =
      removals-cons k edited header hs old ∙ elim (Bool-cases (is_named n header)) [
        | inl named ↦
            let missing : is_some (header_value edited header.name) ≡ false =
              ap is_some (header_value-same n edited header.name named ∙ h) in
            rw (missing, named) (removals-gone k edited hs none h (inl refl))
        | inr other ↦
            let kept : (if is_some (header_value edited header.name) then old else old) ≡ old =
              ground arith in
            rw (other, kept) (removals-gone k edited hs old h (rw other at had))
      ]
