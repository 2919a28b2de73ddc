-- ===== src/Editor/RoundTrip/Fields.antt =====
-- src/filters/editor.rs: what the two loops of parse_edit_text read from the lines of a message.
use inspect.Common.{
  ℕ, ◌≡◌, refl, ap, ◌∙◌, false, Option, none, some, List, [], ◌∷◌, ◌++◌, map, Str, codes, is_empty,
  unwrap_or, append_assoc, append-nil, All, IsTrimmed, starts_with, ok, trim_field,
  trim-behind_colon, trim_of_trimmed, split_once-append, behind_colon, str_eq, is_whitespace,
  decimal, parse_u16-decimal, arith, decimal-digit, decimal-IsTrimmed,
}
use inspect.Editor.{
  EditableHttpMessageKind, EditableHttpMessage, EditableHttpHeader, request, response,
}
use inspect.Editor.Print.{status_text}
use inspect.Editor.Parse.{
  field, Meta, read_line, read_trimmed, empty_to_none, read_kind, read_status, set_meta, meta_round,
  read_meta, header_round, read_headers, start_meta,
}
use inspect.Editor.RoundTrip.{
  IsName, IsOption, IsStatus, IsHeader, IsEditable, field_line, kind_fields, url_fields,
  header_field,
}

pub read_line-field :
    (label value : Str)
    → IsName label
    → IsTrimmed value
    → read_line (field_line label value) ≡ field label value
unfolding read_line read_trimmed starts_with
read_line-field [] value h v = absurd (cc h.named)
read_line-field (c ∷ label) value h v =
    ap read_trimmed (trim_field c label value h.field.trimmed.starts v.ends)
    ∙ rw
        (
          h.no_comment,
          split_once-append b':' (c ∷ label) (behind_colon value) h.lacks,
          trim_of_trimmed h.field.trimmed,
          trim-behind_colon value v,
        )
        refl

-- The labels of the text, and the two kinds.
kind-IsName : IsName (codes "kind")
unfolding is_whitespace starts_with
kind-IsName = ground arith

method-IsName : IsName (codes "method")
unfolding is_whitespace starts_with
method-IsName = ground arith

scheme-IsName : IsName (codes "scheme")
unfolding is_whitespace starts_with
scheme-IsName = ground arith

status-IsName : IsName (codes "status")
unfolding is_whitespace starts_with
status-IsName = ground arith

host-IsName : IsName (codes "host")
unfolding is_whitespace starts_with
host-IsName = ground arith

path-IsName : IsName (codes "path")
unfolding is_whitespace starts_with
path-IsName = ground arith

query-IsName : IsName (codes "query")
unfolding is_whitespace starts_with
query-IsName = ground arith

request-IsTrimmed : IsTrimmed (codes "request")
unfolding is_whitespace
request-IsTrimmed = ground arith

response-IsTrimmed : IsTrimmed (codes "response")
unfolding is_whitespace
response-IsTrimmed = ground arith

-- One round of the loop over the meta lines.
read_meta_round :
    (label value : Str) (rest : List Str) (m n : Meta)
    → IsName label
    → IsTrimmed value
    → meta_round (field label value) m ≡ ok n
    → read_meta (field_line label value ∷ rest) m ≡ read_meta rest n
unfolding read_meta
read_meta_round label value rest m n h v e = rw (read_line-field label value h v, e) refl

option-IsTrimmed : (value : Option Str) → IsOption value → IsTrimmed (unwrap_or value [])
option-IsTrimmed none h = record { starts = tt; ends = tt }
option-IsTrimmed (some value) h = h.0.trimmed

empty_to_none-unwrap_or :
    (value : Option Str) → IsOption value → empty_to_none (unwrap_or value []) ≡ value
unfolding empty_to_none
empty_to_none-unwrap_or none h = refl
empty_to_none-unwrap_or (some value) h = rw h.1 refl

status-IsTrimmed : (status : Option ℕ) → IsTrimmed (status_text status)
unfolding status_text
status-IsTrimmed none = record { starts = tt; ends = tt }
status-IsTrimmed (some status) = decimal-IsTrimmed status

read_status-status_text :
    (status : Option ℕ) → IsStatus status → read_status (status_text status) ≡ ok status
unfolding read_status status_text
read_status-status_text none h = refl
read_status-status_text (some status) h =
    let (d, s, e, lt) = decimal-digit status in
    let filled : is_empty (decimal status) ≡ false = rw e refl in
    rw (filled, parse_u16-decimal status h) refl

read_meta_end : (s : Meta) → read_meta [] s ≡ ok s
unfolding read_meta
read_meta_end s = refl

-- The fields of the address leave the variables of the loop as the message has them.
read_meta-url :
    (m : EditableHttpMessage) (s : Meta)
    → IsEditable m
    → read_meta (url_fields m) s ≡ ok (record s { host = m.host; path = m.path; query = m.query })
unfolding meta_round set_meta str_eq
read_meta-url m s h =
    read_meta_round (codes "host") m.host _ s _ host-IsName h.host.trimmed refl
    ∙ read_meta_round (codes "path") m.path _ _ _ path-IsName h.path.trimmed refl
    ∙ read_meta_round (codes "query") m.query _ _ _ query-IsName h.query.trimmed refl
    ∙ read_meta_end _

read_meta-kind :
    (k : EditableHttpMessageKind) (m : EditableHttpMessage)
    → m.kind ≡ k
    → IsEditable m
    → (rest : List Str)
    → read_meta (kind_fields k m ++ rest) (start_meta (some m))
      ≡ read_meta rest (start_meta (some m))
unfolding meta_round set_meta read_kind str_eq start_meta
read_meta-kind request m e h rest =
    read_meta_round (codes "kind") (codes "request") _ _ _ kind-IsName request-IsTrimmed refl
    ∙ read_meta_round (codes "method") (unwrap_or m.method []) _ _ _ method-IsName
        (option-IsTrimmed m.method h.method) refl
    ∙ read_meta_round (codes "scheme") (unwrap_or m.scheme []) _ _ _ scheme-IsName
        (option-IsTrimmed m.scheme h.scheme) refl
    ∙ rw (empty_to_none-unwrap_or m.method h.method, empty_to_none-unwrap_or m.scheme h.scheme, e)
        refl
read_meta-kind response m e h rest =
    read_meta_round (codes "kind") (codes "response") _ _ _ kind-IsName response-IsTrimmed refl
    ∙ read_meta_round (codes "status") (status_text m.status) _ _
        (record (start_meta (some m)) { kind = response }) status-IsName (status-IsTrimmed m.status)
        (rw (read_status-status_text m.status h.status) refl)
    ∙ rw e refl

-- All meta lines together change nothing.
pub read_meta-fields :
    (m : EditableHttpMessage)
    → IsEditable m
    → read_meta (kind_fields m.kind m ++ url_fields m) (start_meta (some m))
      ≡ ok (start_meta (some m))
unfolding start_meta
read_meta-fields m h =
    read_meta-kind m.kind m refl h (url_fields m) ∙ read_meta-url m (start_meta (some m)) h

-- The header lines are read in their order.
read_headers-append :
    (headers done : List EditableHttpHeader)
    → All IsHeader headers
    → read_headers (map header_field headers) done ≡ ok (done ++ headers)
unfolding read_headers header_round
read_headers-append [] done h = rw (append-nil done) refl
read_headers-append (header ∷ headers) done (here, h) =
    rw (read_line-field header.name header.value here.name here.value.trimmed, here.name.named)
      (read_headers-append headers (done ++ (header ∷ [])) h
        ∙ ap ok (append_assoc done (header ∷ []) headers))

pub read_headers-fields :
    (headers : List EditableHttpHeader)
    → All IsHeader headers
    → read_headers (map header_field headers) [] ≡ ok headers
read_headers-fields headers h = read_headers-append headers [] h
