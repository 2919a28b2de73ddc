-- ===== src/Diff.antt =====
-- src/filters/engine/diff.rs: the events of a comparison of two messages, their paths and how they are
-- shown. `{:?}` of a text is a parameter, since it reads the tables of Unicode.
use inspect.Common.{
  ℕ, Bool, true, false, Option, none, some, List, [], ◌∷◌, ◌++◌, map, Str, codes, decimal, take,
  length, ltb, ◌==◌, if◌then◌else◌,
}

pub data BodyDiffSource : Type 0 where
  text json xml html java_script css : BodyDiffSource
  ast : (language : Str) → BodyDiffSource
  binary : BodyDiffSource

pub data DiffSource : Type 0 where
  http_meta header cookie url : DiffSource
  body : BodyDiffSource → DiffSource

pub data DiffPathSegment : Type 0 where
  method scheme host path query : DiffPathSegment
  query_param header cookie set_cookie : (name : Str) → DiffPathSegment
  status body : DiffPathSegment
  json_key : (key : Str) → DiffPathSegment
  json_index : (index : ℕ) → DiffPathSegment
  xml_element xml_attribute : (name : Str) → DiffPathSegment
  xml_text : DiffPathSegment
  html_element : (tag : Str) (ordinal : ℕ) → DiffPathSegment
  html_attribute : (name : Str) → DiffPathSegment
  html_text : DiffPathSegment
  ast_node : (kind : Str) (ordinal : ℕ) → DiffPathSegment
  ast_field : (name : Str) → DiffPathSegment
  text_range : (start end : ℕ) → DiffPathSegment

pub record DiffPath : Type 0 where
  pub segments : List DiffPathSegment

pub data DiffNode : Type 0 where
  null : DiffNode
  bool : Bool → DiffNode
  number string text : Str → DiffNode
  bytes_len : ℕ → DiffNode
  header cookie : (name value : Str) → DiffNode
  json : (raw : Str) → DiffNode
  xml : (name : Option Str) (content : Str) → DiffNode
  html : (tag : Option Str) (content : Str) → DiffNode
  ast : (kind content : Str) → DiffNode
  binary : (len : ℕ) (content_type : Option Str) → DiffNode

pub data DiffEvent : Type 0 where
  insert : (at : DiffPath) (node : DiffNode) (source : DiffSource) → DiffEvent
  delete : (at : DiffPath) (old : DiffNode) (source : DiffSource) → DiffEvent
  replace : (at : DiffPath) (old new : DiffNode) (source : DiffSource) → DiffEvent
  move : (from to : DiffPath) (node : DiffNode) (source : DiffSource) → DiffEvent

unfoldable pub event_path : DiffEvent → DiffPath
event_path (insert at node source) = at
event_path (delete at old source) = at
event_path (replace at old new source) = at
event_path (move from to node source) = to

unfoldable pub event_source : DiffEvent → DiffSource
event_source (insert at node source) = source
event_source (delete at old source) = source
event_source (replace at old new source) = source
event_source (move from to node source) = source

-- The constructors of paths: `DiffPath::method` and the like are `path_of` of their one segment.
abbrev pub path_of : DiffPathSegment → DiffPath
path_of segment = record { segments = segment ∷ [] }

unfoldable pub header_path : Str → DiffPath
header_path name = path_of (DiffPathSegment.header name)

unfoldable pub body_path : DiffPath
body_path = path_of DiffPathSegment.body

unfoldable pub body_json : List DiffPathSegment → DiffPath
body_json segments = record { segments = DiffPathSegment.body ∷ segments }

unfoldable pub body_json_key_path : List Str → DiffPath
unfolding body_json
body_json_key_path keys = body_json (map json_key keys)

-- `str::replace` of one character.
unfoldable pub replace_char : ℕ → Str → Str → Str
replace_char c by [] = []
replace_char c by (d ∷ s) = (if d == c then by else d ∷ []) ++ replace_char c by s

unfoldable pub escape_path_segment : Str → Str
unfolding replace_char
escape_path_segment value = replace_char b'/' (codes "~1") (replace_char b'~' (codes "~0") value)

-- `Display`, one segment behind its slash.
unfoldable pub show_segment : DiffPathSegment → Str
unfolding escape_path_segment
show_segment method = codes "method"
show_segment scheme = codes "scheme"
show_segment host = codes "host"
show_segment path = codes "path"
show_segment query = codes "query"
show_segment (query_param name) = codes "query/" ++ escape_path_segment name
show_segment (DiffPathSegment.header name) = codes "headers/" ++ escape_path_segment name
show_segment (DiffPathSegment.cookie name) = codes "cookies/" ++ escape_path_segment name
show_segment (set_cookie name) = codes "set-cookie/" ++ escape_path_segment name
show_segment status = codes "status"
show_segment DiffPathSegment.body = codes "body"
show_segment (json_key key) = escape_path_segment key
show_segment (json_index index) = decimal index
show_segment (xml_element name) = codes "xml/" ++ escape_path_segment name
show_segment (xml_attribute name) = codes "xml/@" ++ escape_path_segment name
show_segment xml_text = codes "xml/text"
show_segment (html_element tag ordinal) =
    codes "html/" ++ (escape_path_segment tag ++ (b'#' ∷ decimal ordinal))
show_segment (html_attribute name) = codes "html/@" ++ escape_path_segment name
show_segment html_text = codes "html/text"
show_segment (ast_node kind ordinal) =
    codes "ast/" ++ (escape_path_segment kind ++ (b'#' ∷ decimal ordinal))
show_segment (ast_field name) = codes "field/" ++ escape_path_segment name
show_segment (text_range start end) = codes "text-range/" ++ (decimal start ++ (b'-' ∷ decimal end))

unfoldable pub show_segments : List DiffPathSegment → Str
unfolding show_segment
show_segments [] = []
show_segments (segment ∷ segments) = b'/' ∷ (show_segment segment ++ show_segments segments)

unfoldable pub show_path : DiffPath → Str
unfolding show_segments
show_path at = elim at.segments [
  | [] ↦ codes "/"
  | segment ∷ segments ↦ show_segments (segment ∷ segments)
]

module _ (debug : Str → Str) where
  -- At most 80 characters, with an ellipsis in place of the others.
  unfoldable pub quoted_short : Str → Str
  quoted_short value =
      debug (if ltb 80 (length value) then take 80 value ++ (8230 ∷ []) else take 80 value)

  unfoldable pub node_summary : DiffNode → Str
  unfolding quoted_short
  node_summary null = codes "null"
  node_summary (bool true) = codes "true"
  node_summary (bool false) = codes "false"
  node_summary (number value) = value
  node_summary (string value) = quoted_short value
  node_summary (DiffNode.text value) = quoted_short value
  node_summary (bytes_len len) = decimal len ++ codes " bytes"
  node_summary (DiffNode.header name value) = name ++ (codes ": " ++ quoted_short value)
  node_summary (DiffNode.cookie name value) = name ++ (codes "=" ++ quoted_short value)
  node_summary (DiffNode.json raw) = codes "json " ++ quoted_short raw
  node_summary (DiffNode.xml (some name) content) =
      codes "xml <" ++ (name ++ (codes "> " ++ quoted_short content))
  node_summary (DiffNode.xml none content) = codes "xml " ++ quoted_short content
  node_summary (DiffNode.html (some tag) content) =
      codes "html <" ++ (tag ++ (codes "> " ++ quoted_short content))
  node_summary (DiffNode.html none content) = codes "html " ++ quoted_short content
  node_summary (DiffNode.ast kind content) =
      codes "ast " ++ (kind ++ (codes " " ++ quoted_short content))
  node_summary (DiffNode.binary len (some content_type)) =
      codes "binary " ++ (decimal len ++ (codes " bytes, " ++ content_type))
  node_summary (DiffNode.binary len none) = codes "binary " ++ (decimal len ++ codes " bytes")

  unfoldable pub event_summary : DiffEvent → Str
  unfolding node_summary
  event_summary (insert at node source) =
      codes "insert " ++ (show_path at ++ (codes " = " ++ node_summary node))
  event_summary (delete at old source) =
      codes "delete " ++ (show_path at ++ (codes " = " ++ node_summary old))
  event_summary (replace at old new source) =
      codes "replace "
      ++ (show_path at ++ (codes ": " ++ (node_summary old ++ (codes " -> " ++ node_summary new))))
  event_summary (move from to node source) =
      codes "move "
      ++ (show_path from ++ (codes " -> " ++ (show_path to ++ (codes " = " ++ node_summary node))))
