-- ===== src/Generator.antt =====
-- src/filters/generator.rs, the filters that are generated: their types, and the actions that a change of a
-- body replaces.
pub mod Source
pub mod Script
pub mod Builder
pub mod Rewrite
pub mod IntoFilter
pub mod Quoting
pub mod Trigger
mod Tests
use inspect.Common.{
  ℕ, Bool, true, false, not, ◌&&◌, Option, none, some, List, [], ◌∷◌, ◌++◌, Str, codes,
  if◌then◌else◌,
}
use inspect.Json.Patch.{GeneratedJsonPatchOperation}

pub data GeneratedFilterPhase : Type 0 where
  request response : GeneratedFilterPhase

pub data GeneratedFilterSelectionTarget : Type 0 where
  request_host request_path request_query request_method response_status response_content_type
        response_body :
      GeneratedFilterSelectionTarget

pub record GeneratedFilterTrigger : Type 0 where
  pub host : List Str
  pub path : List Str
  pub method : List Str

pub data GeneratedFilterCondition : Type 0 where
  request_host_eq request_host_contains request_path_eq request_path_contains request_method_eq
        request_query_contains :
      (value : Str) → GeneratedFilterCondition
  response_status_eq response_status_at_least : (status : ℕ) → GeneratedFilterCondition
  response_content_type_contains response_body_contains : (value : Str) → GeneratedFilterCondition
  response_body_contains_all : (values : List Str) → GeneratedFilterCondition

pub data GeneratedFilterAction : Type 0 where
  mark : (label : Str) → GeneratedFilterAction
  set_request_header : (name value : Str) → GeneratedFilterAction
  remove_request_header : (name : Str) → GeneratedFilterAction
  set_request_body_text : (body content_type : Str) → GeneratedFilterAction
  replace_request_body_text : (old new : Str) → GeneratedFilterAction
  replace_request_body_text_once : (old new : Str) → GeneratedFilterAction
  replace_request_body_text_all : (old new : Str) → GeneratedFilterAction
  replace_request_body_regex : (pattern replacement : Str) → GeneratedFilterAction
  replace_request_body_text_when_contains : (anchor old new : Str) → GeneratedFilterAction
  replace_request_js_property : (property old new : Str) → GeneratedFilterAction
  replace_request_css_declaration : (property old new : Str) → GeneratedFilterAction
  replace_request_html_attribute : (selector attribute old new : Str) → GeneratedFilterAction
  apply_request_json_patch :
      (operations : List GeneratedJsonPatchOperation) (resulting_body content_type : Str)
      → GeneratedFilterAction
  synthetic_response : (status : ℕ) (body content_type : Str) → GeneratedFilterAction
  set_response_status : (status : ℕ) → GeneratedFilterAction
  set_response_header : (name value : Str) → GeneratedFilterAction
  remove_response_header : (name : Str) → GeneratedFilterAction
  set_response_body_text : (body content_type : Str) → GeneratedFilterAction
  replace_response_body_text : (old new : Str) → GeneratedFilterAction
  replace_response_body_text_once : (old new : Str) → GeneratedFilterAction
  replace_response_body_text_all : (old new : Str) → GeneratedFilterAction
  replace_response_body_regex : (pattern replacement : Str) → GeneratedFilterAction
  replace_response_body_text_when_contains : (anchor old new : Str) → GeneratedFilterAction
  replace_response_js_property : (property old new : Str) → GeneratedFilterAction
  replace_response_css_declaration : (property old new : Str) → GeneratedFilterAction
  replace_response_html_attribute : (selector attribute old new : Str) → GeneratedFilterAction
  apply_response_json_patch :
      (operations : List GeneratedJsonPatchOperation) (resulting_body content_type : Str)
      → GeneratedFilterAction
  stop drop : GeneratedFilterAction

pub record GeneratedFilter : Type 0 where
  pub id : Option Str
  pub name : Str
  pub priority : ℕ
  pub enabled : Bool
  pub phase : GeneratedFilterPhase
  pub trigger : GeneratedFilterTrigger
  pub conditions : List GeneratedFilterCondition
  pub actions : List GeneratedFilterAction
  pub notes : List Str

abbrev pub default_trigger : GeneratedFilterTrigger
default_trigger = record { host = codes "*" ∷ []; path = codes "*" ∷ []; method = [] }

unfoldable pub response_body_contains_filter : Str → Str → Str → GeneratedFilter
response_body_contains_filter name body_fragment label = record {
  id = none;
  name = name;
  priority = 9000;
  enabled = true;
  phase = response;
  trigger = default_trigger;
  conditions = response_body_contains body_fragment ∷ [];
  actions = mark label ∷ [];
  notes = [];
}

unfoldable pub response_status_filter : Str → ℕ → Str → GeneratedFilter
response_status_filter name status label = record {
  id = none;
  name = name;
  priority = 9000;
  enabled = true;
  phase = response;
  trigger = default_trigger;
  conditions = response_status_eq status ∷ [];
  actions = mark label ∷ [];
  notes = [];
}

unfoldable pub request_path_contains_filter : Str → Str → Str → GeneratedFilter
request_path_contains_filter name path_fragment label = record {
  id = none;
  name = name;
  priority = 9000;
  enabled = true;
  phase = request;
  trigger = default_trigger;
  conditions = request_path_contains path_fragment ∷ [];
  actions = mark label ∷ [];
  notes = [];
}

unfoldable pub add_rewrite_note : GeneratedFilter → Str → GeneratedFilter
add_rewrite_note filter note = record filter { notes = filter.notes ++ (note ∷ []) }

unfoldable pub add_action : GeneratedFilter → GeneratedFilterAction → GeneratedFilter
add_action filter action = record filter { actions = filter.actions ++ (action ∷ []) }

unfoldable pub extend_actions : GeneratedFilter → List GeneratedFilterAction → GeneratedFilter
extend_actions filter actions = record filter { actions = filter.actions ++ actions }

-- The actions that rewrite the body of a request.
unfoldable pub rewrites_request_body : GeneratedFilterAction → Bool
rewrites_request_body (set_request_body_text body content_type) = true
rewrites_request_body (replace_request_body_text old new) = true
rewrites_request_body (replace_request_body_text_once old new) = true
rewrites_request_body (replace_request_body_text_all old new) = true
rewrites_request_body (replace_request_body_regex pattern replacement) = true
rewrites_request_body (replace_request_body_text_when_contains anchor old new) = true
rewrites_request_body (replace_request_js_property property old new) = true
rewrites_request_body (replace_request_css_declaration property old new) = true
rewrites_request_body (replace_request_html_attribute selector attribute old new) = true
rewrites_request_body (apply_request_json_patch operations resulting_body content_type) = true
rewrites_request_body _ = false

-- The actions that rewrite the body of a response.
unfoldable pub rewrites_response_body : GeneratedFilterAction → Bool
rewrites_response_body (set_response_body_text body content_type) = true
rewrites_response_body (replace_response_body_text old new) = true
rewrites_response_body (replace_response_body_text_once old new) = true
rewrites_response_body (replace_response_body_text_all old new) = true
rewrites_response_body (replace_response_body_regex pattern replacement) = true
rewrites_response_body (replace_response_body_text_when_contains anchor old new) = true
rewrites_response_body (replace_response_js_property property old new) = true
rewrites_response_body (replace_response_css_declaration property old new) = true
rewrites_response_body (replace_response_html_attribute selector attribute old new) = true
rewrites_response_body (apply_response_json_patch operations resulting_body content_type) = true
rewrites_response_body _ = false

-- `retain(|action| !matches)`.
unfoldable pub retain_other :
    (GeneratedFilterAction → Bool) → List GeneratedFilterAction → List GeneratedFilterAction
retain_other test [] = []
retain_other test (action ∷ actions) =
    let rest = retain_other test actions in if test action then rest else action ∷ rest

unfoldable pub replace_response_body_rewrite_action :
    GeneratedFilter → GeneratedFilterAction → GeneratedFilter
unfolding retain_other rewrites_response_body
replace_response_body_rewrite_action filter action = record filter {
  actions = retain_other rewrites_response_body filter.actions ++ (action ∷ []);
}

unfoldable pub replace_request_body_rewrite_action :
    GeneratedFilter → GeneratedFilterAction → GeneratedFilter
unfolding retain_other rewrites_request_body
replace_request_body_rewrite_action filter action = record filter {
  actions = retain_other rewrites_request_body filter.actions ++ (action ∷ []);
}
