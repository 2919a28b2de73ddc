-- ===== src/Editor/Changes/Unchanged.antt =====
-- src/filters/editor.rs: a message compared with itself.
use inspect.Common.{
  ℕ, ◌≡◌, ◌↔◌, refl, sym, ◌∙◌, true, false, not, ◌||◌, Option, none, some, List, [], ◌∷◌, ◌++◌, Str,
  str_eq_refl, str_eq_iff, option_str_eq, option_str_eq_iff, is_empty, is_some, arith, All,
  append_assoc, Bool-cases, inl, inr,
}
use inspect.Editor.{
  EditableHttpMessage, EditableHttpHeader, find_header, header_value, value_of,
  eq_ignore_ascii_case, body_text,
}
use inspect.Editor.Changes.{
  diff, has_changes, missing_headers, changed_headers_of, header_change, option_ℕ_eq,
}

-- Every header has the value of the first header of its name.
abbrev pub Consistent : EditableHttpMessage → Type 0
Consistent m = All (λ header. header_value m header.name ≡ some header.value) m.headers

eq_ignore_ascii_case_self : (s : Str) → eq_ignore_ascii_case s s ≡ true
unfolding eq_ignore_ascii_case
eq_ignore_ascii_case_self s = str_eq_refl _

find_header_self :
    (before : List EditableHttpHeader) (header : EditableHttpHeader)
    (behind : List EditableHttpHeader)
    → is_some (value_of (find_header (before ++ (header ∷ behind)) header.name)) ≡ true
unfolding find_header
find_header_self [] header behind = rw (eq_ignore_ascii_case_self header.name) refl
find_header_self (h ∷ before) header behind =
    elim (Bool-cases (eq_ignore_ascii_case h.name header.name)) [
      | inl same ↦ rw same refl
      | inr other ↦ rw other (find_header_self before header behind)
    ]

-- A message lacks none of its own headers.
missing_headers_self :
    (m : EditableHttpMessage) (before hs : List EditableHttpHeader)
    → m.headers ≡ before ++ hs
    → missing_headers m hs ≡ []
unfolding missing_headers header_value
missing_headers_self m before [] e = refl
missing_headers_self m before (header ∷ hs) e =
    rw (e, find_header_self before header hs)
      (missing_headers_self m (before ++ (header ∷ [])) hs
        (e ∙ sym (append_assoc before (header ∷ []) hs)))

found_self :
    (m : EditableHttpMessage) (before : List EditableHttpHeader) (header : EditableHttpHeader)
    (hs : List EditableHttpHeader)
    → m.headers ≡ before ++ (header ∷ hs)
    → is_some (header_value m header.name) ≡ true
unfolding header_value
found_self m before header hs e = rw (e, find_header_self before header hs) refl

header_change-empty :
    (header : EditableHttpHeader) (o : Option Str)
    → is_some o ≡ true
    → is_empty (header_change header o) ≡ true
    → o ≡ some header.value
unfolding header_change
header_change-empty header none found h = cc
header_change-empty header (some value) found h = ground (arith, str_eq_iff header.value value)

header_change-same : (header : EditableHttpHeader) → header_change header (some header.value) ≡ []
unfolding header_change
header_change-same header = rw (str_eq_refl header.value) refl

empty-append {ℓ} :
    {A : Type ℓ} (xs ys : List A)
    → is_empty (xs ++ ys) ≡ true
    → (is_empty xs ≡ true) × (is_empty ys ≡ true)
empty-append [] ys h = (refl, h)
empty-append (x ∷ xs) ys h = cc

module _ (m : EditableHttpMessage) where
  abbrev SameAsFirst : EditableHttpHeader → Type 0
  SameAsFirst header = header_value m header.name ≡ some header.value

  changed_headers_of-empty :
      (before hs : List EditableHttpHeader)
      → m.headers ≡ before ++ hs
      → is_empty (changed_headers_of m hs) ≡ true
      → All SameAsFirst hs
  unfolding changed_headers_of
  changed_headers_of-empty before [] e h = tt
  changed_headers_of-empty before (header ∷ hs) e h =
      let (here, rest) = empty-append _ (changed_headers_of m hs) h in
      (
        header_change-empty header _ (found_self m before header hs e) here,
        changed_headers_of-empty (before ++ (header ∷ [])) hs
            (e ∙ sym (append_assoc before (header ∷ []) hs)) rest,
      )

  changed_headers_of-same :
      (hs : List EditableHttpHeader) → All SameAsFirst hs → changed_headers_of m hs ≡ []
  unfolding changed_headers_of
  changed_headers_of-same [] h = refl
  changed_headers_of-same (header ∷ hs) (here, h) =
      rw (here, header_change-same header) (changed_headers_of-same hs h)

option_str_eq_refl : (o : Option Str) → option_str_eq o o ≡ true
option_str_eq_refl o = (option_str_eq_iff o o).1 refl

option_ℕ_eq_refl : (o : Option ℕ) → option_ℕ_eq o o ≡ true
unfolding option_ℕ_eq
option_ℕ_eq_refl none = refl
option_ℕ_eq_refl (some n) = ground arith

-- All that a message compared with itself can change is a header.
has_changes-diff :
    (m : EditableHttpMessage)
    → has_changes (diff m m) ≡ (not (is_empty (changed_headers_of m m.headers)) || false)
unfolding has_changes diff
has_changes-diff m =
    rw
      (
        option_str_eq_refl m.method,
        str_eq_refl m.host,
        str_eq_refl m.path,
        str_eq_refl m.query,
        option_ℕ_eq_refl m.status,
        missing_headers_self m [] m.headers refl,
        option_str_eq_refl (body_text m),
      )
      refl

-- A message has no changes against itself exactly if headers of one name, in ASCII lower case, have the
-- same value.
pub has_changes_self : (m : EditableHttpMessage) → (has_changes (diff m m) ≡ false) ↔ Consistent m
has_changes_self m =
    let sum = has_changes-diff m in
    (
      λ h. changed_headers_of-empty m [] m.headers refl (
          let e : (not (is_empty (changed_headers_of m m.headers)) || false) ≡ false =
            sym sum ∙ h in
          ground arith),
      λ h. sum ∙ rw (changed_headers_of-same m m.headers h) refl,
    )
