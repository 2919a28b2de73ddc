-- ===== src/Editor/RoundTrip/Whole.antt =====
-- src/filters/editor.rs: the text of a message, read back with the message as the original.
use inspect.Common.{
  ℕ, ◌+◌, ◌≡◌, refl, ap, ◌∙◌, true, false, Option, none, some, List, [], ◌∷◌, ◌++◌, map, Str, codes,
  length, append-nil, All, All-append, IsLine, render, lines, lines-render, cut_at-render, ok,
  str_eq, ends_with_char, or_else, arith, Bool-cases, inl, inr, length-append, line_feed,
  decimal-IsLine, unwrap_or, Lacks, cut_at, starts_with-append,
}
use inspect.Editor.{
  EditableHttpMessageKind, EditableHttpMessage, EditableHttpHeader, EditableHttpBody, request,
  response, text, binary, empty, content_type_of,
}
use inspect.Editor.Print.{to_edit_text, body_lines, status_text}
use inspect.Editor.Parse.{
  EditTextSections, headers_marker, body_marker, split_edit_text_sections, split_after_meta,
  normalized_body_text, parse_body, parse_sections, parse_edit_text, parse_edit_headers, message_of,
  start_meta, Meta, read_meta,
}
use inspect.Editor.RoundTrip.{
  IsOption, IsHeader, IsEditable, field_line, kind_fields, url_fields, header_field,
  to_edit_text-render,
}
use inspect.Editor.RoundTrip.Fields.{read_meta-fields, read_headers-fields}

-- A field of one line is a line, and differs from the line of a marker.
field_line-IsLine :
    (label value : Str) → IsLine label → IsLine value → IsLine (field_line label value)
field_line-IsLine label value h v =
    All-append _ label (58 ∷ 32 ∷ value) h ((refl, refl), ((refl, refl), v))

-- It has a space behind its first colon, where a marker ends.
field_line-no_marker :
    (label value word : Str)
    → Lacks b':' label
    → Lacks b':' word
    → str_eq (field_line label value) (word ++ (58 ∷ [])) ≡ false
unfolding str_eq
field_line-no_marker [] value [] h k = refl
field_line-no_marker [] value (d ∷ word) h (other, k) = ground arith
field_line-no_marker (c ∷ label) value [] (other, h) k = ground arith
field_line-no_marker (c ∷ label) value (d ∷ word) (_, h) (_, k) =
    ground (arith, field_line-no_marker label value word h k)

option-IsLine : (value : Option Str) → IsOption value → IsLine (unwrap_or value [])
option-IsLine none h = tt
option-IsLine (some value) h = h.0.line

status-IsLine : (status : Option ℕ) → IsLine (status_text status)
unfolding status_text
status-IsLine none = tt
status-IsLine (some status) = decimal-IsLine status

abbrev AreLines : List Str → Str → Type 0
AreLines ls word = All IsLine ls × All (λ line. str_eq line word ≡ false) ls

url-AreLines : (m : EditableHttpMessage) → IsEditable m → AreLines (url_fields m) (codes "headers:")
unfolding str_eq
url-AreLines m h =
    let host = field_line-IsLine (codes "host") m.host (ground arith) h.host.line in
    let path = field_line-IsLine (codes "path") m.path (ground arith) h.path.line in
    let query = field_line-IsLine (codes "query") m.query (ground arith) h.query.line in
    ((host, (path, (query, tt))), (refl, (refl, (refl, tt))))

fields-AreLines :
    (k : EditableHttpMessageKind) (m : EditableHttpMessage)
    → IsEditable m
    → AreLines (kind_fields k m ++ url_fields m) (codes "headers:")
unfolding str_eq
fields-AreLines request m h =
    let method =
      field_line-IsLine (codes "method") _ (ground arith) (option-IsLine m.method h.method) in
    let scheme =
      field_line-IsLine (codes "scheme") _ (ground arith) (option-IsLine m.scheme h.scheme) in
    let (url, others) = url-AreLines m h in
    ((ground arith, (method, (scheme, url))), (refl, (refl, (refl, others))))
fields-AreLines response m h =
    let status = field_line-IsLine (codes "status") _ (ground arith) (status-IsLine m.status) in
    let (url, others) = url-AreLines m h in ((ground arith, (status, url)), (refl, (refl, others)))

headers-AreLines :
    (headers : List EditableHttpHeader)
    → All IsHeader headers
    → AreLines (map header_field headers) (codes "body:")
headers-AreLines [] h = (tt, tt)
headers-AreLines (header ∷ headers) (here, h) =
    let (fields, others) = headers-AreLines headers h in
    (
      (field_line-IsLine header.name header.value here.name.field.line here.value.line, fields),
      (
        field_line-no_marker header.name header.value (codes "body") here.name.lacks (ground arith),
        others,
      ),
    )

split_of_cuts :
    (s meta after headers body : Str)
    → cut_at headers_marker s ≡ some (meta, after)
    → cut_at body_marker after ≡ some (headers, body)
    → split_edit_text_sections s ≡ record { meta = meta; headers = headers; body = body }
unfolding split_edit_text_sections split_after_meta
split_of_cuts s meta after headers body h k = ground arith

-- The three sections of the text.
pub split_edit_text_sections-to_edit_text :
    (m : EditableHttpMessage)
    → IsEditable m
    → split_edit_text_sections (to_edit_text m) ≡ record {
      meta = render (kind_fields m.kind m ++ url_fields m);
      headers = render (map header_field m.headers);
      body = body_lines m.body;
    }
split_edit_text_sections-to_edit_text m h =
    let (fields, others) = fields-AreLines m.kind m h in
    let (headers, different) = headers-AreLines m.headers h.headers in
    let after = render (map header_field m.headers) ++ (body_marker ++ body_lines m.body) in
    ap split_edit_text_sections (to_edit_text-render m)
    ∙ split_of_cuts _ _ after _ _
        (cut_at-render (codes "headers:") (ground arith) refl after
          (kind_fields m.kind m ++ url_fields m) fields others)
        (cut_at-render (codes "body:") (ground arith) refl (body_lines m.body)
          (map header_field m.headers) headers different)

ends_with_char-append : (s : Str) → ends_with_char line_feed (s ++ (line_feed ∷ [])) ≡ true
unfolding ends_with_char
ends_with_char-append [] = refl
ends_with_char-append (c ∷ []) = refl
ends_with_char-append (c ∷ d ∷ s) = ends_with_char-append (d ∷ s)

or_else_self : (o : Option Str) → or_else o o ≡ o
or_else_self none = refl
or_else_self (some s) = refl

-- The line feed behind the body is known as not being part of it.
normalized_body_text-body_lines :
    (content : Str) (kind : Option Str)
    → normalized_body_text content (body_lines (text content kind)) ≡ content
unfolding normalized_body_text body_lines
normalized_body_text-body_lines content kind =
    elim (Bool-cases (ends_with_char line_feed content)) [
      | inl ends ↦ rw (ends, append-nil content) refl
      | inr open_end ↦
          let longer : length (content ++ (line_feed ∷ [])) ≡ length content + 1 =
            length-append content (line_feed ∷ []) in
          rw
            (
              open_end,
              longer,
              starts_with-append content (line_feed ∷ []),
              ends_with_char-append content,
            )
            (ground arith)
    ]

parse_body-body_lines :
    (m : EditableHttpMessage)
    → parse_body (some m) (body_lines m.body) (content_type_of m.body) ≡ m.body
unfolding parse_body body_lines
parse_body-body_lines m = of_body m.body
  where
    of_body :
        (b : EditableHttpBody)
        → parse_body (some (record m { body = b })) (body_lines b) (content_type_of b) ≡ b
    of_body (text content kind) =
        rw (normalized_body_text-body_lines content kind, or_else_self kind) refl
    of_body (binary bytes_len kind) = refl
    of_body empty = refl

parse_sections_of :
    (sections : EditTextSections) (original : Option EditableHttpMessage) (m : Meta)
    (headers : List EditableHttpHeader)
    → read_meta (lines sections.meta) (start_meta original) ≡ ok m
    → parse_edit_headers sections.headers ≡ ok headers
    → parse_sections sections original
      ≡ ok (message_of m headers (parse_body original sections.body m.body_content_type))
unfolding parse_sections
parse_sections_of sections original m headers h k = rw (h, k) refl

parse_edit_headers-render :
    (headers : List EditableHttpHeader)
    → All IsHeader headers
    → parse_edit_headers (render (map header_field headers)) ≡ ok headers
unfolding parse_edit_headers
parse_edit_headers-render headers h =
    rw (lines-render (map header_field headers) (headers-AreLines headers h).0)
      (read_headers-fields headers h)

-- A message that can be edited, printed as the text to edit and read back with itself as the original,
-- is the same message.
pub parse_edit_text-to_edit_text :
    (m : EditableHttpMessage) → IsEditable m → parse_edit_text (to_edit_text m) (some m) ≡ ok m
unfolding parse_edit_text start_meta message_of
parse_edit_text-to_edit_text m h =
    let fields = kind_fields m.kind m ++ url_fields m in
    ap (λ s. parse_sections s (some m)) (split_edit_text_sections-to_edit_text m h)
    ∙ parse_sections_of _ (some m) (start_meta (some m)) m.headers
        (rw (lines-render fields (fields-AreLines m.kind m h).0) (read_meta-fields m h))
        (parse_edit_headers-render m.headers h.headers)
    ∙ rw (parse_body-body_lines m) refl
