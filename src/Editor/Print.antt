-- ===== src/Editor/Print.antt =====
-- src/filters/editor.rs, `EditableHttpMessage::to_edit_text`.
use inspect.Common.{
  ℕ, Option, none, some, List, [], ◌∷◌, ◌++◌, Str, codes, decimal, unwrap_or, ends_with_char,
  line_feed, if◌then◌else◌,
}
use inspect.Editor.{
  EditableHttpMessageKind, EditableHttpMessage, EditableHttpHeader, EditableHttpBody, request,
  response, text, binary, empty,
}

-- A line `label: value`.
unfoldable pub push_field : Str → Str → Str
push_field label value = label ++ (codes ": " ++ (value ++ (line_feed ∷ [])))

unfoldable pub status_text : Option ℕ → Str
status_text none = []
status_text (some status) = decimal status

unfoldable pub kind_lines : EditableHttpMessageKind → EditableHttpMessage → Str
unfolding push_field status_text
kind_lines request m =
    push_field (codes "kind") (codes "request")
    ++ (push_field (codes "method") (unwrap_or m.method [])
        ++ push_field (codes "scheme") (unwrap_or m.scheme []))
kind_lines response m =
    push_field (codes "kind") (codes "response")
    ++ push_field (codes "status") (status_text m.status)

unfoldable pub header_lines : List EditableHttpHeader → Str
unfolding push_field
header_lines [] = []
header_lines (header ∷ headers) = push_field header.name header.value ++ header_lines headers

unfoldable pub content_type_line : Option Str → Str
unfolding push_field
content_type_line none = []
content_type_line (some content_type) = push_field (codes "# content_type") content_type

unfoldable pub body_lines : EditableHttpBody → Str
unfolding push_field content_type_line
body_lines (text content content_type) =
    content ++ (if ends_with_char line_feed content then [] else line_feed ∷ [])
body_lines (binary bytes_len content_type) =
    codes "# binary body is not editable\n"
    ++ (push_field (codes "# bytes_len") (decimal bytes_len) ++ content_type_line content_type)
body_lines empty = []

unfoldable pub to_edit_text : EditableHttpMessage → Str
unfolding kind_lines push_field header_lines body_lines
to_edit_text m =
    kind_lines m.kind m
    ++ (push_field (codes "host") m.host
        ++ (push_field (codes "path") m.path
            ++ (push_field (codes "query") m.query
                ++ (codes "\nheaders:\n"
                    ++ (header_lines m.headers ++ (codes "\nbody:\n" ++ body_lines m.body))))))
