-- ===== src/Editor/Changes/Actions/Settings.antt =====
-- src/filters/editor.rs: what the actions for changed headers make of the value of a name.
use inspect.Common.{
  ◌≡◌, refl, sym, ap, ◌∙◌, ◌⊎◌, inl, inr, true, false, Option, none, some, List, [], ◌∷◌, ◌++◌, map,
  Str, str_eq, str_eq_iff, is_some, arith, if◌then◌else◌, Bool-cases,
}
use inspect.Editor.{
  EditableHttpMessageKind, EditableHttpMessage, EditableHttpHeader, find_header, header_value,
  value_of,
}
use inspect.Editor.Changes.{EditableHeaderChange, changed_headers_of, header_change, change_action}
use inspect.Editor.Changes.Actions.{
  value_behind_all, value_behind_all-append, value_behind-change, header_value-same, is_named,
}

module _ (n : Str) where
  unfoldable pub settings :
      EditableHttpMessageKind
      → EditableHttpMessage
      → List EditableHttpHeader
      → Option Str
      → Option Str
  settings k edited hs old =
      value_behind_all n (map (change_action k) (changed_headers_of edited hs)) old

  -- What one header of the original makes of the value.
  setting : EditableHttpMessageKind → EditableHttpHeader → Option Str → Option Str → Option Str
  setting k header o old = value_behind_all n (map (change_action k) (header_change header o)) old

  map-append :
      (k : EditableHttpMessageKind) (xs ys : List EditableHeaderChange)
      → map (change_action k) (xs ++ ys) ≡ map (change_action k) xs ++ map (change_action k) ys
  map-append k [] ys = refl
  map-append k (x ∷ xs) ys = ap (◌∷◌ (change_action k x)) (map-append k xs ys)

  settings-cons :
      (k : EditableHttpMessageKind) (edited : EditableHttpMessage) (header : EditableHttpHeader)
      (hs : List EditableHttpHeader) (old : Option Str)
      → settings k edited (header ∷ hs) old
        ≡ settings k edited hs (setting k header (header_value edited header.name) old)
  unfolding settings setting changed_headers_of
  settings-cons k edited header hs old =
      ap (λ actions. value_behind_all n actions old)
        (map-append k (header_change header (header_value edited header.name))
          (changed_headers_of edited hs))
      ∙ value_behind_all-append n _ _ old

  setting-none :
      (k : EditableHttpMessageKind) (header : EditableHttpHeader) (old : Option Str)
      → setting k header none old ≡ old
  unfolding setting header_change value_behind_all
  setting-none k header old = refl

  setting-some :
      (k : EditableHttpMessageKind) (header : EditableHttpHeader) (e : Str) (old : Option Str)
      → setting k header (some e) old
        ≡ (if str_eq header.value e then old else (if is_named n header then some e else old))
  unfolding setting header_change value_behind_all
  setting-some k header e old = elim (Bool-cases (str_eq header.value e)) [
    | inl same ↦ rw same refl
    | inr other ↦ rw other (
        value_behind-change n k
          (record { name = header.name; original_value = header.value; edited_value = e }) old)
  ]

  setting-other :
      (k : EditableHttpMessageKind) (header : EditableHttpHeader) (o old : Option Str)
      → is_named n header ≡ false
      → setting k header o old ≡ old
  setting-other k header none old h = setting-none k header old
  setting-other k header (some e) old h = setting-some k header e old ∙ rw h (ground arith)

  settings-nil :
      (k : EditableHttpMessageKind) (edited : EditableHttpMessage) (old : Option Str)
      → settings k edited [] old ≡ old
  unfolding settings changed_headers_of value_behind_all
  settings-nil k edited old = refl

  named_step :
      (header : EditableHttpHeader) (e : Str) (old : Option Str)
      → is_named n header ≡ true
      → (old ≡ some e) ⊎ ((is_some old ≡ true) × (some header.value ≡ old))
      → (if str_eq header.value e then old else (if is_named n header then some e else old))
        ≡ some e
  named_step header e old named (inl done) = rw (named, done) (ground arith)
  named_step header e old named (inr (_, first)) = elim (Bool-cases (str_eq header.value e)) [
    | inl same ↦ rw same (sym first ∙ ap some ((str_eq_iff header.value e).0 same))
    | inr other ↦ rw (other, named) refl
  ]

  -- A name that the edited message has gets its value there.
  pub settings-edited :
      (k : EditableHttpMessageKind) (edited : EditableHttpMessage) (hs : List EditableHttpHeader)
      (e : Str) (old : Option Str)
      → header_value edited n ≡ some e
      → (old ≡ some e) ⊎ ((is_some old ≡ true) × (value_of (find_header hs n) ≡ old))
      → settings k edited hs old ≡ some e
  unfolding find_header
  settings-edited k edited [] e old h (inl done) = settings-nil k edited old ∙ done
  settings-edited k edited [] e old h (inr (some_old, first)) =
      let clash : false ≡ true = ap is_some first ∙ some_old in absurd (cc clash)
  settings-edited k edited (header ∷ hs) e old h had =
      settings-cons k edited header hs old ∙ elim (Bool-cases (is_named n header)) [
        | inl named ↦
            let value : header_value edited header.name ≡ some e =
              header_value-same n edited header.name named ∙ h in
            rw value (
              settings-edited k edited hs e (setting k header (some e) old) h (
                inl
                  (setting-some k header e old ∙ named_step header e old named (rw named at had))))
        | inr other ↦
            rw (setting-other k header (header_value edited header.name) old other)
              (settings-edited k edited hs e old h (rw other at had))
      ]

  -- A name that it has not is left alone.
  pub settings-absent :
      (k : EditableHttpMessageKind) (edited : EditableHttpMessage) (hs : List EditableHttpHeader)
      (old : Option Str)
      → header_value edited n ≡ none
      → settings k edited hs old ≡ old
  settings-absent k edited [] old h = settings-nil k edited old
  settings-absent k edited (header ∷ hs) old h =
      settings-cons k edited header hs old ∙ elim (Bool-cases (is_named n header)) [
        | inl named ↦
            let value : header_value edited header.name ≡ none =
              header_value-same n edited header.name named ∙ h in
            rw (value, setting-none k header old) (settings-absent k edited hs old h)
        | inr other ↦
            rw (setting-other k header (header_value edited header.name) old other)
              (settings-absent k edited hs old h)
      ]

  -- A name that the original has not is left alone, too.
  pub settings-new :
      (k : EditableHttpMessageKind) (edited : EditableHttpMessage) (hs : List EditableHttpHeader)
      (old : Option Str)
      → is_some (find_header hs n) ≡ false
      → settings k edited hs old ≡ old
  unfolding find_header
  settings-new k edited [] old h = settings-nil k edited old
  settings-new k edited (header ∷ hs) old h =
      settings-cons k edited header hs old ∙ elim (Bool-cases (is_named n header)) [
        | inl named ↦ let clash : true ≡ false = rw named at h in absurd (cc clash)
        | inr other ↦
            rw (setting-other k header (header_value edited header.name) old other)
              (settings-new k edited hs old (rw other at h))
      ]
