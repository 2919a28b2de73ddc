-- ===== src/Semantic.antt =====
-- src/filters/engine/semantic/body_tree_sitter.rs, which operation a change of a body becomes. The anchors
-- that are found in the syntax trees of tree-sitter are the parameter `syntax_anchor`. A body is cut at
-- characters; its length is measured in bytes, as in the program.
pub mod Cut
pub mod Replayed
mod Tests
use inspect.Common.{
  ℕ, zero, suc, ◌+◌, ◌-◌, Bool, true, false, not, ◌&&◌, ◌||◌, Option, none, some, List, [], ◌∷◌,
  ◌++◌, Str, codes, str_eq, is_empty, length, take, drop, lines, trim, trim_start, trim_end,
  to_ascii_lowercase, to_utf8, ltb, leb, ◌==◌, if◌then◌else◌, option_str_eq,
}
use mathlib.Core.List.{reverse}
use inspect.Filter.Encoding.{before_first}
use inspect.Json.Compare.{ends_with}
use inspect.Json.Patch.{GeneratedJsonPatchOperation}

pub data BodyLanguage : Type 0 where
  json html xml java_script css plain_text : BodyLanguage

unfoldable pub from_essence : Str → BodyLanguage
unfolding str_eq ends_with
from_essence s =
    if str_eq s (codes "application/json") || str_eq s (codes "text/json")
    then json
    else if str_eq s (codes "text/html") || str_eq s (codes "application/xhtml+xml")
    then html
    else if str_eq s (codes "application/xml") || str_eq s (codes "text/xml")
    then xml
    else if str_eq s (codes "application/javascript")
        || str_eq s (codes "text/javascript")
        || str_eq s (codes "application/x-javascript")
        || str_eq s (codes "application/ecmascript")
        || str_eq s (codes "text/ecmascript")
    then java_script
    else if str_eq s (codes "text/css")
    then css
    else if ends_with (codes "+json") s
    then json
    else if ends_with (codes "+xml") s
    then xml
    else plain_text

unfoldable pub from_content_type : Option Str → BodyLanguage
unfolding from_essence before_first trim_start trim_end
from_content_type none = plain_text
from_content_type (some content_type) =
    from_essence (to_ascii_lowercase (trim (before_first b';' content_type)))

unfoldable pub is_ast_like : BodyLanguage → Bool
is_ast_like html = true
is_ast_like java_script = true
is_ast_like css = true
is_ast_like _ = false

unfoldable pub as_label : BodyLanguage → Str
as_label json = codes "JSON"
as_label html = codes "HTML"
as_label xml = codes "XML"
as_label java_script = codes "JavaScript"
as_label css = codes "CSS"
as_label plain_text = codes "PlainText"

pub record AstPathSegment : Type 0 where
  pub kind : Str
  pub field_name : Option Str
  pub name : Option Str
  pub ordinal : ℕ
  pub text_fragment : Option Str

pub data RewriteConfidence : Type 0 where
  low medium high : RewriteConfidence

pub data BodyAnchor : Type 0 where
  contains_text : Str → BodyAnchor
  contains_all : List Str → BodyAnchor
  ast_node : (kind text_fragment : Str) → BodyAnchor
  ast_path : List AstPathSegment → BodyAnchor
  text_range : (before after : Str) → BodyAnchor
  js_property : (property : Str) → BodyAnchor
  css_declaration : (property : Str) → BodyAnchor
  html_attribute : (element : Option Str) (attribute : Str) → BodyAnchor

pub data BodyRewriteOperation : Type 0 where
  replace_whole_body : (edited_body content_type : Str) → BodyRewriteOperation
  replace_text replace_text_once replace_text_all : (old new : Str) → BodyRewriteOperation
  replace_regex : (pattern replacement : Str) → BodyRewriteOperation
  replace_text_when_contains : (anchor old new : Str) → BodyRewriteOperation
  replace_js_property replace_css_declaration : (property old new : Str) → BodyRewriteOperation
  replace_html_attribute : (selector attribute old new : Str) → BodyRewriteOperation
  insert_text : (anchor content : Str) → BodyRewriteOperation
  delete_text : (content : Str) → BodyRewriteOperation
  json_patch :
      (operations : List GeneratedJsonPatchOperation) (resulting_body content_type : Str)
      → BodyRewriteOperation

pub record BodyRewriteIntent : Type 0 where
  pub language : BodyLanguage
  pub anchor : BodyAnchor
  pub operation : BodyRewriteOperation
  pub confidence : RewriteConfidence

pub record TextReplacement : Type 0 where
  pub start : ℕ
  pub end : ℕ
  pub old : Str
  pub new : Str

-- In characters.
unfoldable pub common_prefix_len : Str → Str → ℕ
common_prefix_len (c ∷ s) (d ∷ t) =
    let more = suc (common_prefix_len s t) in if c == d then more else 0
common_prefix_len _ _ = 0

unfoldable pub common_suffix_len : Str → Str → ℕ
unfolding common_prefix_len
common_suffix_len s t = common_prefix_len (reverse s) (reverse t)

-- The checks on the two differing texts.
unfoldable pub replacement_of : ℕ → ℕ → Str → Str → Option TextReplacement
replacement_of start end old new =
    if is_empty old && is_empty new
    then none
    else if ltb 4096 (length (to_utf8 old)) || ltb 4096 (length (to_utf8 new))
    then none
    else some (record { start = start; end = end; old = old; new = new })

-- The texts in front of the suffix, `suffix_len` characters long.
abbrev pub without_last : ℕ → Str → Str
without_last n s = take (length s - n) s

unfoldable pub single_text_replacement : Str → Str → Option TextReplacement
unfolding common_prefix_len common_suffix_len replacement_of
single_text_replacement original edited =
    let start = common_prefix_len original edited in
    let left = drop start original in
    let right = drop start edited in
    let suffix_len = common_suffix_len left right in
    replacement_of start (length original - suffix_len) (without_last suffix_len left)
      (without_last suffix_len right)

-- The first line of at least 8 characters, or the whole text, cut to 96.
unfoldable pub stable_line : List Str → Option Str
unfolding trim_start trim_end
stable_line [] = none
stable_line (line ∷ rest) =
    let later = stable_line rest in
    if leb 8 (length (trim line)) then some (take 96 (trim line)) else later

unfoldable pub stable_text_anchor : Str → Option Str
unfolding stable_line lines trim_start trim_end
stable_text_anchor s = elim (stable_line (lines s)) [
  | some anchor ↦ some anchor
  | none ↦ if leb 8 (length (take 96 (trim s))) then some (take 96 (trim s)) else none
]

unfoldable pub extract_text_rewrite_intent : BodyLanguage → Str → Str → Option BodyRewriteIntent
unfolding single_text_replacement stable_text_anchor
extract_text_rewrite_intent language original edited =
    elim (single_text_replacement original edited) [
      | some replacement ↦ some (record {
        language = language;
        anchor = contains_text replacement.old;
        operation = replace_text_once replacement.old replacement.new;
        confidence = medium;
      })
      | none ↦ elim (stable_text_anchor original) [
        | none ↦ none
        | some anchor ↦ some (record {
          language = language;
          anchor = contains_text anchor;
          operation = replace_whole_body edited (codes "text/plain; charset=utf-8");
          confidence = low;
        })
      ]
    ]

module _ (syntax_anchor : BodyLanguage → Str → TextReplacement → Option BodyRewriteIntent) where
  unfoldable pub extract_tree_sitter_anchor : BodyLanguage → Str → Str → Option BodyRewriteIntent
  unfolding single_text_replacement
  extract_tree_sitter_anchor language original edited =
      elim (single_text_replacement original edited) [
        | none ↦ none
        | some replacement ↦
            if is_ast_like language then syntax_anchor language original replacement else none
      ]

  unfoldable pub extract_body_rewrite_intent : Str → Str → Option Str → Option BodyRewriteIntent
  unfolding str_eq from_content_type is_ast_like extract_tree_sitter_anchor
      extract_text_rewrite_intent
  extract_body_rewrite_intent original edited content_type =
      if str_eq original edited
      then none
      else let language = from_content_type content_type in
        let fallback = extract_text_rewrite_intent language original edited in
        if is_ast_like language
        then (elim (extract_tree_sitter_anchor language original edited) [
          | some intent ↦ some intent
          | none ↦ fallback
        ])
        else fallback
