-- ===== src/Editor/Semantic/Agreement.antt =====
-- src/filters/editor.rs: the two comparisons of headers, the one of `semantic_diff` and the one of `diff`.
use inspect.Common.{
  ◌≡◌, refl, ◌∙◌, ◌&&◌, Option, none, some, List, [], ◌∷◌, ◌++◌, Str, str_eq, str_eq_iff, is_empty,
  is_some, arith, if◌then◌else◌, Bool-cases, inl, inr,
}
use inspect.Diff.{insert, path_of, DiffSource}
use inspect.Editor.{EditableHttpMessage, EditableHttpHeader, find_header, header_value, value_of}
use inspect.Editor.Changes.{diff, missing_headers, changed_headers_of, header_change}
use inspect.Editor.Semantic.{
  header_at, header_node, original_header_event, original_header_events, edited_header_events,
  push_header_diff_events,
}

is_empty-append {ℓ} :
    {A : Type ℓ} → (xs ys : List A) → is_empty (xs ++ ys) ≡ (is_empty xs && is_empty ys)
is_empty-append [] ys = refl
is_empty-append (x ∷ xs) ys = refl

str_eq_sym : (a b : Str) → str_eq a b ≡ str_eq b a
str_eq_sym a b = ground (arith, str_eq_iff a b, str_eq_iff b a)

edited-agree :
    (original : EditableHttpMessage) (hs : List EditableHttpHeader)
    → is_empty (edited_header_events original.headers hs) ≡ is_empty (missing_headers original hs)
unfolding edited_header_events missing_headers header_value
edited-agree original [] = refl
edited-agree original (h ∷ hs) =
    elim (find_header original.headers h.name)
      as (λ o.
        is_empty (
          if is_some o
          then edited_header_events original.headers hs
          else insert (path_of (header_at h)) (header_node h) DiffSource.header
            ∷ edited_header_events original.headers hs)
        ≡ is_empty (
            if is_some (value_of o)
            then missing_headers original hs
            else h ∷ missing_headers original hs)) [
              | none ↦ refl
              | some w ↦ edited-agree original hs
            ]

original-step :
    (edited : EditableHttpMessage) (h : EditableHttpHeader) (hs : List EditableHttpHeader)
    (o : Option EditableHttpHeader)
    → find_header edited.headers h.name ≡ o
    → is_empty (original_header_events hs edited.headers)
      ≡ (is_empty (missing_headers edited hs) && is_empty (changed_headers_of edited hs))
    → is_empty (original_header_events (h ∷ hs) edited.headers) ≡ (
        is_empty (missing_headers edited (h ∷ hs)) && is_empty (changed_headers_of edited (h ∷ hs)))
unfolding original_header_events original_header_event missing_headers changed_headers_of
    header_change header_value
original-step edited h hs none found ih = rw found refl
original-step edited h hs (some w) found ih =
    rw (found, str_eq_sym w.value h.value)
      (elim (Bool-cases (str_eq h.value w.value)) [
        | inl same ↦ rw same ih
        | inr other ↦ rw other ground arith
      ])

original-agree :
    (edited : EditableHttpMessage) (hs : List EditableHttpHeader)
    → is_empty (original_header_events hs edited.headers)
      ≡ (is_empty (missing_headers edited hs) && is_empty (changed_headers_of edited hs))
unfolding original_header_events original_header_event missing_headers changed_headers_of
    header_change header_value
original-agree edited [] = refl
original-agree edited (h ∷ hs) =
    original-step edited h hs (find_header edited.headers h.name) refl (original-agree edited hs)

-- The two comparisons of the headers agree: there are no events about headers exactly when no header is
-- removed, changed or added.
pub push_header_diff_events-diff :
    (original edited : EditableHttpMessage)
    → is_empty (push_header_diff_events original.headers edited.headers) ≡ (
        is_empty (diff original edited).removed_headers
        && is_empty (diff original edited).changed_headers
        && is_empty (diff original edited).added_headers)
unfolding push_header_diff_events diff
push_header_diff_events-diff original edited =
    is_empty-append (original_header_events original.headers edited.headers)
      (edited_header_events original.headers edited.headers)
    ∙ rw (original-agree edited original.headers, edited-agree original edited.headers)
        (ground arith)
