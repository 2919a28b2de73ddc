-- ===== src/Generator/Builder/Methods.antt =====
-- src/filters/generator.rs, the methods of GeneratedFilterBuilder that add a condition or an action.
use inspect.Common.{ℕ, List, [], ◌∷◌, ◌++◌, Str}
use inspect.Generator.{
  GeneratedFilterCondition, GeneratedFilterAction, request_host_eq, request_host_contains,
  request_path_eq, request_path_contains, request_method_eq, request_query_contains,
  response_status_eq, response_status_at_least, response_content_type_contains,
  response_body_contains, response_body_contains_all, mark, stop, drop, synthetic_response,
  set_response_status, set_request_header, remove_request_header, set_request_body_text,
  replace_request_body_text, replace_request_body_text_once, replace_request_body_text_all,
  replace_request_body_regex, replace_request_body_text_when_contains, apply_request_json_patch,
  set_response_header, remove_response_header, set_response_body_text, replace_response_body_text,
  replace_response_body_text_once, replace_response_body_text_all, replace_response_body_regex,
  replace_response_body_text_when_contains, apply_response_json_patch,
}
use inspect.Json.Patch.{GeneratedJsonPatchOperation}
use inspect.Generator.Builder.{GeneratedFilterBuilder}

unfoldable pub condition :
    GeneratedFilterBuilder → GeneratedFilterCondition → GeneratedFilterBuilder
condition b test = record b { conditions = b.conditions ++ (test ∷ []) }

unfoldable pub push_action : GeneratedFilterBuilder → GeneratedFilterAction → GeneratedFilterBuilder
push_action b action = record b { actions = b.actions ++ (action ∷ []) }

unfoldable pub host_eq : GeneratedFilterBuilder → Str → GeneratedFilterBuilder
unfolding condition
host_eq b value = condition b (request_host_eq value)

unfoldable pub host_contains : GeneratedFilterBuilder → Str → GeneratedFilterBuilder
unfolding condition
host_contains b value = condition b (request_host_contains value)

unfoldable pub path_eq : GeneratedFilterBuilder → Str → GeneratedFilterBuilder
unfolding condition
path_eq b value = condition b (request_path_eq value)

unfoldable pub path_contains : GeneratedFilterBuilder → Str → GeneratedFilterBuilder
unfolding condition
path_contains b value = condition b (request_path_contains value)

unfoldable pub method_eq : GeneratedFilterBuilder → Str → GeneratedFilterBuilder
unfolding condition
method_eq b value = condition b (request_method_eq value)

unfoldable pub query_contains : GeneratedFilterBuilder → Str → GeneratedFilterBuilder
unfolding condition
query_contains b value = condition b (request_query_contains value)

unfoldable pub status_eq : GeneratedFilterBuilder → ℕ → GeneratedFilterBuilder
unfolding condition
status_eq b status = condition b (response_status_eq status)

unfoldable pub status_at_least : GeneratedFilterBuilder → ℕ → GeneratedFilterBuilder
unfolding condition
status_at_least b status = condition b (response_status_at_least status)

unfoldable pub content_type_contains : GeneratedFilterBuilder → Str → GeneratedFilterBuilder
unfolding condition
content_type_contains b value = condition b (response_content_type_contains value)

unfoldable pub body_contains : GeneratedFilterBuilder → Str → GeneratedFilterBuilder
unfolding condition
body_contains b value = condition b (response_body_contains value)

unfoldable pub body_contains_all : GeneratedFilterBuilder → List Str → GeneratedFilterBuilder
unfolding condition
body_contains_all b values = condition b (response_body_contains_all values)

unfoldable pub add_set_request_header : GeneratedFilterBuilder → Str → Str → GeneratedFilterBuilder
unfolding push_action
add_set_request_header b name value = push_action b (set_request_header name value)

unfoldable pub add_remove_request_header : GeneratedFilterBuilder → Str → GeneratedFilterBuilder
unfolding push_action
add_remove_request_header b name = push_action b (remove_request_header name)

unfoldable pub add_set_request_body_text :
    GeneratedFilterBuilder → Str → Str → GeneratedFilterBuilder
unfolding push_action
add_set_request_body_text b body content_type =
    push_action b (set_request_body_text body content_type)

unfoldable pub add_replace_request_body_text :
    GeneratedFilterBuilder → Str → Str → GeneratedFilterBuilder
unfolding push_action
add_replace_request_body_text b old new = push_action b (replace_request_body_text old new)

unfoldable pub add_replace_request_body_text_once :
    GeneratedFilterBuilder → Str → Str → GeneratedFilterBuilder
unfolding push_action
add_replace_request_body_text_once b old new =
    push_action b (replace_request_body_text_once old new)

unfoldable pub add_replace_request_body_text_all :
    GeneratedFilterBuilder → Str → Str → GeneratedFilterBuilder
unfolding push_action
add_replace_request_body_text_all b old new = push_action b (replace_request_body_text_all old new)

unfoldable pub add_replace_request_body_regex :
    GeneratedFilterBuilder → Str → Str → GeneratedFilterBuilder
unfolding push_action
add_replace_request_body_regex b pattern replacement =
    push_action b (replace_request_body_regex pattern replacement)

unfoldable pub add_replace_request_body_text_when_contains :
    GeneratedFilterBuilder → Str → Str → Str → GeneratedFilterBuilder
unfolding push_action
add_replace_request_body_text_when_contains b anchor old new =
    push_action b (replace_request_body_text_when_contains anchor old new)

unfoldable pub add_set_response_header : GeneratedFilterBuilder → Str → Str → GeneratedFilterBuilder
unfolding push_action
add_set_response_header b name value = push_action b (set_response_header name value)

unfoldable pub add_remove_response_header : GeneratedFilterBuilder → Str → GeneratedFilterBuilder
unfolding push_action
add_remove_response_header b name = push_action b (remove_response_header name)

unfoldable pub add_set_response_body_text :
    GeneratedFilterBuilder → Str → Str → GeneratedFilterBuilder
unfolding push_action
add_set_response_body_text b body content_type =
    push_action b (set_response_body_text body content_type)

unfoldable pub add_replace_response_body_text :
    GeneratedFilterBuilder → Str → Str → GeneratedFilterBuilder
unfolding push_action
add_replace_response_body_text b old new = push_action b (replace_response_body_text old new)

unfoldable pub add_replace_response_body_text_once :
    GeneratedFilterBuilder → Str → Str → GeneratedFilterBuilder
unfolding push_action
add_replace_response_body_text_once b old new =
    push_action b (replace_response_body_text_once old new)

unfoldable pub add_replace_response_body_text_all :
    GeneratedFilterBuilder → Str → Str → GeneratedFilterBuilder
unfolding push_action
add_replace_response_body_text_all b old new =
    push_action b (replace_response_body_text_all old new)

unfoldable pub add_replace_response_body_regex :
    GeneratedFilterBuilder → Str → Str → GeneratedFilterBuilder
unfolding push_action
add_replace_response_body_regex b pattern replacement =
    push_action b (replace_response_body_regex pattern replacement)

unfoldable pub add_replace_response_body_text_when_contains :
    GeneratedFilterBuilder → Str → Str → Str → GeneratedFilterBuilder
unfolding push_action
add_replace_response_body_text_when_contains b anchor old new =
    push_action b (replace_response_body_text_when_contains anchor old new)

unfoldable pub add_apply_request_json_patch :
    GeneratedFilterBuilder → List GeneratedJsonPatchOperation → Str → Str → GeneratedFilterBuilder
unfolding push_action
add_apply_request_json_patch b operations resulting_body content_type =
    push_action b (apply_request_json_patch operations resulting_body content_type)

unfoldable pub add_apply_response_json_patch :
    GeneratedFilterBuilder → List GeneratedJsonPatchOperation → Str → Str → GeneratedFilterBuilder
unfolding push_action
add_apply_response_json_patch b operations resulting_body content_type =
    push_action b (apply_response_json_patch operations resulting_body content_type)

unfoldable pub add_mark : GeneratedFilterBuilder → Str → GeneratedFilterBuilder
unfolding push_action
add_mark b label = push_action b (mark label)

unfoldable pub add_synthetic_response :
    GeneratedFilterBuilder → ℕ → Str → Str → GeneratedFilterBuilder
unfolding push_action
add_synthetic_response b status body content_type =
    push_action b (synthetic_response status body content_type)

unfoldable pub add_set_response_status : GeneratedFilterBuilder → ℕ → GeneratedFilterBuilder
unfolding push_action
add_set_response_status b status = push_action b (set_response_status status)

unfoldable pub add_stop : GeneratedFilterBuilder → GeneratedFilterBuilder
unfolding push_action
add_stop b = push_action b stop

unfoldable pub add_drop : GeneratedFilterBuilder → GeneratedFilterBuilder
unfolding push_action
add_drop b = push_action b drop
