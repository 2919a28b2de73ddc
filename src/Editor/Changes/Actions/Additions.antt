-- ===== src/Editor/Changes/Actions/Additions.antt =====
-- src/filters/editor.rs: what the actions for added headers make of the value of a name.
use inspect.Common.{
  ◌≡◌, refl, sym, ap, ◌∙◌, ◌⊎◌, inl, inr, true, false, Option, none, some, List, [], ◌∷◌, map, Str,
  is_some, arith, All, if◌then◌else◌, Bool-cases,
}
use inspect.Editor.{
  EditableHttpMessageKind, EditableHttpMessage, EditableHttpHeader, find_header, header_value,
}
use inspect.Editor.Changes.{missing_headers, add_header_action}
use inspect.Editor.Changes.Actions.{
  value_behind_all, value_behind_all-cons, value_behind-add, header_value-same, is_named,
}

module _ (n : Str) where
  unfoldable pub additions :
      EditableHttpMessageKind
      → EditableHttpMessage
      → List EditableHttpHeader
      → Option Str
      → Option Str
  additions k original hs old =
      value_behind_all n (map (add_header_action k) (missing_headers original hs)) old

  additions-nil :
      (k : EditableHttpMessageKind) (original : EditableHttpMessage) (old : Option Str)
      → additions k original [] old ≡ old
  unfolding additions missing_headers value_behind_all
  additions-nil k original old = refl

  additions-cons :
      (k : EditableHttpMessageKind) (original : EditableHttpMessage) (header : EditableHttpHeader)
      (hs : List EditableHttpHeader) (old : Option Str)
      → additions k original (header ∷ hs) old
        ≡ additions k original hs (
            if is_some (header_value original header.name)
            then old
            else (if is_named n header then some header.value else old))
  unfolding additions missing_headers
  additions-cons k original header hs old =
      elim (Bool-cases (is_some (header_value original header.name))) [
        | inl found ↦ rw found refl
        | inr missing ↦ rw missing (
            value_behind_all-cons n (add_header_action k header) _ old
            ∙ ap (value_behind_all n (map (add_header_action k) (missing_headers original hs)))
                (value_behind-add n k header old))
      ]

  -- A name that the original has is not added.
  pub additions-kept :
      (k : EditableHttpMessageKind) (original : EditableHttpMessage) (hs : List EditableHttpHeader)
      (v : Str) (old : Option Str)
      → header_value original n ≡ some v
      → additions k original hs old ≡ old
  additions-kept k original [] v old h = additions-nil k original old
  additions-kept k original (header ∷ hs) v old h =
      additions-cons k original header hs old ∙ elim (Bool-cases (is_named n header)) [
        | inl named ↦
            let found : is_some (header_value original header.name) ≡ true =
              ap is_some (header_value-same n original header.name named ∙ h) in
            rw found (additions-kept k original hs v old h)
        | inr other ↦
            let kept : (if is_some (header_value original header.name) then old else old) ≡ old =
              ground arith in
            rw (other, kept) (additions-kept k original hs v old h)
      ]

  -- A name that the original has not gets the value that all headers of the name agree on.
  pub additions-new :
      (k : EditableHttpMessageKind) (original : EditableHttpMessage) (hs : List EditableHttpHeader)
      (o old : Option Str)
      → header_value original n ≡ none
      → All (λ header. is_named n header ≡ true → o ≡ some header.value) hs
      → (old ≡ o) ⊎ (is_some (find_header hs n) ≡ true)
      → additions k original hs old ≡ o
  unfolding find_header
  additions-new k original [] o old h agree (inl e) = additions-nil k original old ∙ e
  additions-new k original [] o old h agree (inr e) = absurd (cc e)
  additions-new k original (header ∷ hs) o old h (here, agree) had =
      additions-cons k original header hs old ∙ elim (Bool-cases (is_named n header)) [
        | inl named ↦
            let missing : is_some (header_value original header.name) ≡ false =
              ap is_some (header_value-same n original header.name named ∙ h) in
            rw (missing, named)
              (additions-new k original hs o (some header.value) h agree (inl (sym (here named))))
        | inr other ↦
            let kept : (if is_some (header_value original header.name) then old else old) ≡ old =
              ground arith in
            rw (other, kept) (additions-new k original hs o old h agree (rw other at had))
      ]
