-- ===== src/Editor/RoundTrip.antt =====
-- src/filters/editor.rs: the messages whose text is read back as the message, and the lines of that text.
pub mod Fields
pub mod Whole
use inspect.Common.{
  ℕ, ◌<◌, ◌≡◌, refl, sym, ap, ◌∙◌, true, false, Option, none, some, List, [], ◌∷◌, ◌++◌, map, Str,
  codes, is_empty, ◌==◌, unwrap_or, append_assoc, All, IsLine, IsTrimmed, Lacks, render, line_feed,
  starts_with,
}
use inspect.Editor.{
  EditableHttpMessageKind, EditableHttpMessage, EditableHttpHeader, EditableHttpBody, request,
  response,
}
use inspect.Editor.Print.{
  push_field, status_text, kind_lines, header_lines, body_lines, to_edit_text,
}
use inspect.Editor.Parse.{headers_marker, body_marker}

-- A text that stands on one line, with no white space around it.
pub record IsField (s : Str) : Type 0 where
  pub line : IsLine s
  pub trimmed : IsTrimmed s

-- A name that is no comment and has no colon.
pub record IsName (s : Str) : Type 0 where
  pub field : IsField s
  pub lacks : Lacks b':' s
  pub named : is_empty s ≡ false
  pub no_comment : starts_with (codes "#") s ≡ false

abbrev pub IsOption : Option Str → Type 0
IsOption none = Unit {0}
IsOption (some s) = IsField s × (is_empty s ≡ false)

abbrev pub IsStatus : Option ℕ → Type 0
IsStatus none = Unit {0}
IsStatus (some status) = status < 65536

pub record IsHeader (header : EditableHttpHeader) : Type 0 where
  pub name : IsName header.name
  pub value : IsField header.value

pub record IsEditable (m : EditableHttpMessage) : Type 0 where
  pub method : IsOption m.method
  pub scheme : IsOption m.scheme
  pub host : IsField m.host
  pub path : IsField m.path
  pub query : IsField m.query
  pub status : IsStatus m.status
  pub headers : All IsHeader m.headers

abbrev pub field_line : Str → Str → Str
field_line label value = label ++ (58 ∷ 32 ∷ value)

abbrev pub kind_fields : EditableHttpMessageKind → EditableHttpMessage → List Str
kind_fields request m =
    field_line (codes "kind") (codes "request")
    ∷ field_line (codes "method") (unwrap_or m.method [])
    ∷ field_line (codes "scheme") (unwrap_or m.scheme [])
    ∷ []
kind_fields response m =
    field_line (codes "kind") (codes "response")
    ∷ field_line (codes "status") (status_text m.status)
    ∷ []

abbrev pub url_fields : EditableHttpMessage → List Str
url_fields m =
    field_line (codes "host") m.host
    ∷ field_line (codes "path") m.path
    ∷ field_line (codes "query") m.query
    ∷ []

abbrev pub header_field : EditableHttpHeader → Str
header_field header = field_line header.name header.value

push_field-append :
    (label value t : Str) → push_field label value ++ t ≡ field_line label value ++ (line_feed ∷ t)
unfolding push_field
push_field-append label value t = simp append_assoc

pub render-append : (ls : List Str) (ms : List Str) → render (ls ++ ms) ≡ render ls ++ render ms
render-append [] ms = refl
render-append (l ∷ ls) ms = simp (render-append ls ms, append_assoc)

header_lines-render :
    (headers : List EditableHttpHeader) → header_lines headers ≡ render (map header_field headers)
unfolding header_lines
header_lines-render [] = refl
header_lines-render (header ∷ headers) =
    push_field-append header.name header.value (header_lines headers)
    ∙ ap (λ t. header_field header ++ (line_feed ∷ t)) (header_lines-render headers)

kind_lines-render :
    (k : EditableHttpMessageKind) (m : EditableHttpMessage)
    → kind_lines k m ≡ render (kind_fields k m)
unfolding kind_lines push_field
kind_lines-render request m = simp append_assoc
kind_lines-render response m = simp append_assoc

-- The text of a message, as lines with the two markers among them.
pub to_edit_text-render :
    (m : EditableHttpMessage)
    → to_edit_text m
      ≡ render (kind_fields m.kind m ++ url_fields m)
        ++ (headers_marker
            ++ (render (map header_field m.headers) ++ (body_marker ++ body_lines m.body)))
unfolding to_edit_text push_field
to_edit_text-render m =
    simp (kind_lines-render m.kind m, header_lines-render m.headers, render-append, append_assoc)
