-- ===== src/Editor/Changes/Actions.antt =====
-- src/filters/editor.rs: what header actions make of the value of a name.
pub mod Removals
pub mod Settings
pub mod Additions
pub mod Whole
use inspect.Common.{
  ℕ, ◌≡◌, refl, sym, ap, ◌∙◌, ◌⊎◌, inl, inr, Bool, true, false, Option, none, some, List, [], ◌∷◌,
  ◌++◌, map, Str, str_eq, str_eq_iff, str_eq_refl, is_some, arith, All, if◌then◌else◌, Bool-cases,
  Option-cases, to_ascii_lowercase, subst,
}
use inspect.Editor.{
  EditableHttpMessageKind, EditableHttpMessage, EditableHttpHeader, request, response, find_header,
  header_value, value_of, eq_ignore_ascii_case,
}
use inspect.Editor.Changes.{
  EditableHeaderChange, diff, missing_headers, changed_headers_of, header_change, header_actions,
  remove_action, change_action, add_header_action,
}
use inspect.Editor.Changes.Unchanged.{Consistent}
use inspect.Generator.{
  GeneratedFilterAction, set_request_header, remove_request_header, set_response_header,
  remove_response_header,
}

-- The value of the name `n` behind an action, and behind several.
unfoldable pub value_behind : Str → GeneratedFilterAction → Option Str → Option Str
unfolding eq_ignore_ascii_case
value_behind n (set_request_header name value) old =
    if eq_ignore_ascii_case name n then some value else old
value_behind n (set_response_header name value) old =
    if eq_ignore_ascii_case name n then some value else old
value_behind n (remove_request_header name) old = if eq_ignore_ascii_case name n then none else old
value_behind n (remove_response_header name) old = if eq_ignore_ascii_case name n then none else old
value_behind n _ old = old

unfoldable pub value_behind_all : Str → List GeneratedFilterAction → Option Str → Option Str
unfolding value_behind
value_behind_all n [] old = old
value_behind_all n (action ∷ actions) old = value_behind_all n actions (value_behind n action old)

pub value_behind_all-cons :
    (n : Str) (x : GeneratedFilterAction) (xs : List GeneratedFilterAction) (old : Option Str)
    → value_behind_all n (x ∷ xs) old ≡ value_behind_all n xs (value_behind n x old)
unfolding value_behind_all
value_behind_all-cons n x xs old = refl

pub value_behind_all-append :
    (n : Str) (xs ys : List GeneratedFilterAction) (old : Option Str)
    → value_behind_all n (xs ++ ys) old ≡ value_behind_all n ys (value_behind_all n xs old)
unfolding value_behind_all
value_behind_all-append n [] ys old = refl
value_behind_all-append n (x ∷ xs) ys old = value_behind_all-append n xs ys (value_behind n x old)

module _ (n : Str) where
  pub value_behind-remove :
      (k : EditableHttpMessageKind) (header : EditableHttpHeader) (old : Option Str)
      → value_behind n (remove_action k header) old
        ≡ (if eq_ignore_ascii_case header.name n then none else old)
  unfolding value_behind
  value_behind-remove request header old = refl
  value_behind-remove response header old = refl

  pub value_behind-change :
      (k : EditableHttpMessageKind) (change : EditableHeaderChange) (old : Option Str)
      → value_behind n (change_action k change) old
        ≡ (if eq_ignore_ascii_case change.name n then some change.edited_value else old)
  unfolding value_behind
  value_behind-change request change old = refl
  value_behind-change response change old = refl

  pub value_behind-add :
      (k : EditableHttpMessageKind) (header : EditableHttpHeader) (old : Option Str)
      → value_behind n (add_header_action k header) old
        ≡ (if eq_ignore_ascii_case header.name n then some header.value else old)
  unfolding value_behind
  value_behind-add request header old = refl
  value_behind-add response header old = refl

  find_header-same :
      (hs : List EditableHttpHeader) (name : Str)
      → eq_ignore_ascii_case name n ≡ true
      → find_header hs name ≡ find_header hs n
  unfolding find_header eq_ignore_ascii_case
  find_header-same [] name h = refl
  find_header-same (header ∷ hs) name h =
      let lower : to_ascii_lowercase name ≡ to_ascii_lowercase n = (str_eq_iff _ _).0 h in
      rw (find_header-same hs name h) (
        ap
          (λ s. if str_eq (to_ascii_lowercase header.name) s then some header else find_header hs n)
          lower)

  -- Names that are equal in ASCII lower case have the same value.
  pub header_value-same :
      (m : EditableHttpMessage) (name : Str)
      → eq_ignore_ascii_case name n ≡ true
      → header_value m name ≡ header_value m n
  unfolding header_value
  header_value-same m name h = ap value_of (find_header-same m.headers name h)

  abbrev pub is_named : EditableHttpHeader → Bool
  is_named header = eq_ignore_ascii_case header.name n
