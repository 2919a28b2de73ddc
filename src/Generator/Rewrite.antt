-- ===== src/Generator/Rewrite.antt =====
-- src/filters/generator.rs, the drafts of a rewrite, and what a filter of them tests.
pub mod Anchor
use inspect.Common.{
  ℕ, Bool, not, ◌||◌, Option, none, some, List, [], ◌∷◌, ◌++◌, Str, codes, str_eq, option_str_eq,
  is_empty, ◌==◌, trim, trim_start, trim_end, rsplit_once, ends_with_char, if◌then◌else◌, length,
  take, lines, contains, ltb, leb,
}
use inspect.Filter.Encoding.{before_first}
use inspect.Generator.{GeneratedFilterCondition, response_body_contains}

pub record GeneratedRewriteRequestInput : Type 0 where
  pub host : Str
  pub method : Str
  pub path : Str
  pub query : Str
  pub body_text : Option Str

pub record GeneratedRewriteResponseInput : Type 0 where
  pub status : ℕ
  pub content_type : Option Str
  pub body_text : Option Str

pub record GeneratedRewriteRequest : Type 0 where
  pub host : Str
  pub original_method : Str
  pub edited_method : Str
  pub original_path : Str
  pub edited_path : Str
  pub original_query : Str
  pub edited_query : Str
  pub original_body_text : Option Str
  pub edited_body_text : Option Str

pub record GeneratedRewriteResponse : Type 0 where
  pub host : Str
  pub request_method : Str
  pub request_path : Str
  pub original_status : ℕ
  pub edited_status : ℕ
  pub original_content_type : Option Str
  pub edited_content_type : Option Str
  pub original_body_text : Option Str
  pub edited_body_text : Option Str

pub data GeneratedRewriteDraft : Type 0 where
  of_request : GeneratedRewriteRequest → GeneratedRewriteDraft
  of_response : GeneratedRewriteResponse → GeneratedRewriteDraft

unfoldable pub request_input_changed :
    GeneratedRewriteRequestInput → GeneratedRewriteRequestInput → Bool
unfolding str_eq option_str_eq
request_input_changed a b =
    not (str_eq a.host b.host)
    || not (str_eq a.method b.method)
    || not (str_eq a.path b.path)
    || not (str_eq a.query b.query)
    || not (option_str_eq a.body_text b.body_text)

unfoldable pub response_input_changed :
    GeneratedRewriteResponseInput → GeneratedRewriteResponseInput → Bool
unfolding option_str_eq
response_input_changed a b =
    not (a.status == b.status)
    || not (option_str_eq a.content_type b.content_type)
    || not (option_str_eq a.body_text b.body_text)

unfoldable pub request_draft_changed : GeneratedRewriteRequest → Bool
unfolding str_eq option_str_eq
request_draft_changed d =
    not (str_eq d.original_method d.edited_method)
    || not (str_eq d.original_path d.edited_path)
    || not (str_eq d.original_query d.edited_query)
    || not (option_str_eq d.original_body_text d.edited_body_text)

unfoldable pub response_draft_changed : GeneratedRewriteResponse → Bool
unfolding option_str_eq
response_draft_changed d =
    not (d.original_status == d.edited_status)
    || not (option_str_eq d.original_content_type d.edited_content_type)
    || not (option_str_eq d.original_body_text d.edited_body_text)

unfoldable pub draft_changed : GeneratedRewriteDraft → Bool
unfolding request_draft_changed response_draft_changed
draft_changed (of_request d) = request_draft_changed d
draft_changed (of_response d) = response_draft_changed d

unfoldable pub choose_original_host : Str → Str → Str
unfolding trim_start trim_end
choose_original_host original_host edited_host =
    if is_empty (trim original_host) then edited_host else original_host

unfoldable pub extract_request :
    GeneratedRewriteRequestInput → GeneratedRewriteRequestInput → GeneratedRewriteDraft
unfolding choose_original_host
extract_request original edited = of_request (record {
  host = choose_original_host original.host edited.host;
  original_method = original.method;
  edited_method = edited.method;
  original_path = original.path;
  edited_path = edited.path;
  original_query = original.query;
  edited_query = edited.query;
  original_body_text = original.body_text;
  edited_body_text = edited.body_text;
})

unfoldable pub extract_response :
    GeneratedRewriteRequestInput
    → GeneratedRewriteResponseInput
    → GeneratedRewriteResponseInput
    → GeneratedRewriteDraft
extract_response req original edited = of_response (record {
  host = req.host;
  request_method = req.method;
  request_path = req.path;
  original_status = original.status;
  edited_status = edited.status;
  original_content_type = original.content_type;
  edited_content_type = edited.content_type;
  original_body_text = original.body_text;
  edited_body_text = edited.body_text;
})

-- The directory of the path, as a pattern.
unfoldable pub path_trigger_for_original_path : Str → Str
unfolding str_eq ends_with_char rsplit_once
path_trigger_for_original_path path =
    if str_eq path (codes "/") || is_empty path
    then codes "*"
    else if ends_with_char b'/' path
    then path ++ codes "*"
    else elim (rsplit_once b'/' path) [
      | none ↦ codes "*"
      | some (prefix, last) ↦ if is_empty prefix then codes "/*" else prefix ++ codes "/*"
    ]

unfoldable pub content_type_prefix : Str → Str
unfolding before_first trim_start trim_end
content_type_prefix content_type = trim (before_first b';' content_type)

-- `common_text_anchor`: the first line of at least 8 characters of which the edited text still has the
-- first 96, else the beginning of the original text.
unfoldable pub line_anchor : List Str → Str → Option Str
unfolding trim_start trim_end contains
line_anchor [] edited = none
line_anchor (raw ∷ rest) edited =
    let later = line_anchor rest edited in
    let anchor = take 96 (trim raw) in
    if ltb (length (trim raw)) 8
    then later
    else if contains anchor edited
    then some anchor
    else later

unfoldable pub common_text_anchor : Str → Str → Option Str
unfolding line_anchor lines
common_text_anchor original edited = elim (line_anchor (lines original) edited) [
  | some anchor ↦ some anchor
  | none ↦ if leb 8 (length (take 96 original)) then some (take 96 original) else none
]

unfoldable pub response_body_rewrite_anchor :
    Option Str → Option Str → Option GeneratedFilterCondition
unfolding common_text_anchor trim_start trim_end str_eq
response_body_rewrite_anchor none edited = none
response_body_rewrite_anchor (some original) none = none
response_body_rewrite_anchor (some original) (some edited) =
    if is_empty (trim original) || str_eq (trim original) (trim edited)
    then none
    else elim (common_text_anchor (trim original) (trim edited)) [
      | none ↦ none
      | some anchor ↦ some (response_body_contains anchor)
    ]
