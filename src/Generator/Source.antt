-- ===== src/Generator/Source.antt =====
-- src/filters/generator.rs, how the conditions and the actions of a generated filter are written.
use inspect.Common.{List, [], ◌∷◌, ◌++◌, Str, codes, decimal, is_empty, if◌then◌else◌}
use inspect.Json.Patch.{JsonLib, json_patch_comments, json_patch_operations_to_rfc6902_json}
use inspect.Generator.{
  GeneratedFilter, GeneratedFilterCondition, request_host_eq, request_host_contains,
  request_path_eq, request_path_contains, request_method_eq, request_query_contains,
  response_status_eq, response_status_at_least, response_content_type_contains,
  response_body_contains, response_body_contains_all, GeneratedFilterAction, mark,
  synthetic_response, set_response_status, stop, drop, set_request_header, remove_request_header,
  set_request_body_text, replace_request_body_text, replace_request_body_text_once,
  replace_request_body_text_all, replace_request_body_regex,
  replace_request_body_text_when_contains, replace_request_js_property,
  replace_request_css_declaration, replace_request_html_attribute, apply_request_json_patch,
  set_response_header, remove_response_header, set_response_body_text, replace_response_body_text,
  replace_response_body_text_once, replace_response_body_text_all, replace_response_body_regex,
  replace_response_body_text_when_contains, replace_response_js_property,
  replace_response_css_declaration, replace_response_html_attribute, apply_response_json_patch,
}
use inspect.Generator.Quoting.{quoted_string, roto_string, roto_arguments, roto_call}

-- The test of one condition.
unfoldable pub contains_calls : List Str → Str
unfolding quoted_string
contains_calls [] = []
contains_calls (value ∷ []) = codes "res.body_text().contains(" ++ (roto_string value ++ codes ")")
contains_calls (value ∷ next ∷ values) =
    codes "res.body_text().contains("
    ++ (roto_string value ++ (codes ")\n        && " ++ contains_calls (next ∷ values)))

unfoldable pub write_roto : GeneratedFilterCondition → Str
unfolding quoted_string contains_calls
write_roto (request_host_eq value) = codes "req.host() == " ++ roto_string value
write_roto (request_host_contains value) =
    codes "req.host().contains(" ++ (roto_string value ++ codes ")")
write_roto (request_path_eq value) = codes "req.path() == " ++ roto_string value
write_roto (request_path_contains value) =
    codes "req.path().contains(" ++ (roto_string value ++ codes ")")
write_roto (request_method_eq value) = codes "req.method() == " ++ roto_string value
write_roto (request_query_contains value) =
    codes "req.query().contains(" ++ (roto_string value ++ codes ")")
write_roto (response_status_eq status) = codes "res.status() == " ++ decimal status
write_roto (response_status_at_least status) = codes "res.status() >= " ++ decimal status
write_roto (response_content_type_contains value) =
    codes "res.content_type().contains(" ++ (roto_string value ++ codes ")")
write_roto (response_body_contains value) =
    codes "res.body_text().contains(" ++ (roto_string value ++ codes ")")
write_roto (response_body_contains_all []) = codes "true"
write_roto (response_body_contains_all (value ∷ values)) = contains_calls (value ∷ values)

unfoldable pub write_conditions : List GeneratedFilterCondition → Str
unfolding write_roto
write_conditions [] = []
write_conditions (condition ∷ []) = write_roto condition
write_conditions (condition ∷ next ∷ conditions) =
    write_roto condition ++ (codes "\n        && " ++ write_conditions (next ∷ conditions))

module _ (lib : JsonLib) where
  unfoldable pub write_request_roto : GeneratedFilterAction → Str
  unfolding roto_call json_patch_comments json_patch_operations_to_rfc6902_json
  write_request_roto (mark label) = roto_call (codes "mark") (label ∷ [])
  write_request_roto (set_request_header name value) =
      roto_call (codes "set_header") (name ∷ value ∷ [])
  write_request_roto (remove_request_header name) = roto_call (codes "remove_header") (name ∷ [])
  write_request_roto (set_request_body_text body content_type) =
      roto_call (codes "set_body_text") (body ∷ content_type ∷ [])
  write_request_roto (replace_request_body_text old new) =
      roto_call (codes "replace_body_text") (old ∷ new ∷ [])
  write_request_roto (replace_request_body_text_once old new) =
      roto_call (codes "replace_body_text_once") (old ∷ new ∷ [])
  write_request_roto (replace_request_body_text_all old new) =
      roto_call (codes "replace_body_text_all") (old ∷ new ∷ [])
  write_request_roto (replace_request_body_regex pattern replacement) =
      roto_call (codes "replace_body_regex") (pattern ∷ replacement ∷ [])
  write_request_roto (replace_request_body_text_when_contains anchor old new) =
      roto_call (codes "replace_body_text_when_contains") (anchor ∷ old ∷ new ∷ [])
  write_request_roto (replace_request_js_property property old new) =
      roto_call (codes "replace_js_property") (property ∷ old ∷ new ∷ [])
  write_request_roto (replace_request_css_declaration property old new) =
      roto_call (codes "replace_css_declaration") (property ∷ old ∷ new ∷ [])
  write_request_roto (replace_request_html_attribute selector attribute old new) =
      roto_call (codes "replace_html_attribute") (selector ∷ attribute ∷ old ∷ new ∷ [])
  write_request_roto (apply_request_json_patch operations resulting_body content_type) =
      json_patch_comments lib operations
      ++ roto_call (codes "apply_json_patch")
          (json_patch_operations_to_rfc6902_json lib operations ∷ content_type ∷ [])
  write_request_roto (synthetic_response status body content_type) =
      codes "\n            .synthetic_response("
      ++ (decimal status
          ++ (codes ", " ++ (roto_arguments (body ∷ content_type ∷ []) ++ codes ")")))
  write_request_roto stop = codes "\n            .stop()"
  write_request_roto drop = codes "\n            .drop()"
  write_request_roto _ = codes "\n            // unsupported response action in request filter"

  unfoldable pub write_response_roto : GeneratedFilterAction → Str
  unfolding roto_call json_patch_comments json_patch_operations_to_rfc6902_json
  write_response_roto (mark label) = roto_call (codes "mark") (label ∷ [])
  write_response_roto (set_response_status status) =
      codes "\n            .set_status(" ++ (decimal status ++ codes ")")
  write_response_roto (set_response_header name value) =
      roto_call (codes "set_header") (name ∷ value ∷ [])
  write_response_roto (remove_response_header name) = roto_call (codes "remove_header") (name ∷ [])
  write_response_roto (set_response_body_text body content_type) =
      roto_call (codes "set_body_text") (body ∷ content_type ∷ [])
  write_response_roto (replace_response_body_text old new) =
      roto_call (codes "replace_body_text") (old ∷ new ∷ [])
  write_response_roto (replace_response_body_text_once old new) =
      roto_call (codes "replace_body_text_once") (old ∷ new ∷ [])
  write_response_roto (replace_response_body_text_all old new) =
      roto_call (codes "replace_body_text_all") (old ∷ new ∷ [])
  write_response_roto (replace_response_body_regex pattern replacement) =
      roto_call (codes "replace_body_regex") (pattern ∷ replacement ∷ [])
  write_response_roto (replace_response_body_text_when_contains anchor old new) =
      roto_call (codes "replace_body_text_when_contains") (anchor ∷ old ∷ new ∷ [])
  write_response_roto (replace_response_js_property property old new) =
      roto_call (codes "replace_js_property") (property ∷ old ∷ new ∷ [])
  write_response_roto (replace_response_css_declaration property old new) =
      roto_call (codes "replace_css_declaration") (property ∷ old ∷ new ∷ [])
  write_response_roto (replace_response_html_attribute selector attribute old new) =
      roto_call (codes "replace_html_attribute") (selector ∷ attribute ∷ old ∷ new ∷ [])
  write_response_roto (apply_response_json_patch operations resulting_body content_type) =
      json_patch_comments lib operations
      ++ roto_call (codes "apply_json_patch")
          (json_patch_operations_to_rfc6902_json lib operations ∷ content_type ∷ [])
  write_response_roto stop = codes "\n            .stop()"
  write_response_roto drop = codes "\n            .drop()"
  write_response_roto _ = codes "\n            // unsupported request action in response filter"

  unfoldable pub write_request_actions : List GeneratedFilterAction → Str
  unfolding write_request_roto
  write_request_actions [] = []
  write_request_actions (action ∷ actions) =
      write_request_roto action ++ write_request_actions actions

  unfoldable pub write_request_action_chain : GeneratedFilter → Str
  unfolding write_request_actions
  write_request_action_chain filter =
      codes "RequestAction.pass()" ++ write_request_actions filter.actions

  unfoldable pub write_request_action : GeneratedFilter → Str
  unfolding write_request_action_chain write_conditions
  write_request_action filter =
      codes "fn request_action(req: Request) -> RequestAction {\n"
      ++ (if is_empty filter.conditions
          then codes "    " ++ (write_request_action_chain filter ++ codes "\n}\n")
          else codes "    if "
            ++ (write_conditions filter.conditions
                ++ (codes " {\n        "
                    ++ (write_request_action_chain filter
                        ++ codes "\n    } else {\n        RequestAction.pass()\n    }\n}\n"))))

  unfoldable pub write_response_actions : List GeneratedFilterAction → Str
  unfolding write_response_roto
  write_response_actions [] = []
  write_response_actions (action ∷ actions) =
      write_response_roto action ++ write_response_actions actions

  unfoldable pub write_response_action_chain : GeneratedFilter → Str
  unfolding write_response_actions
  write_response_action_chain filter =
      codes "ResponseAction.pass()" ++ write_response_actions filter.actions

  unfoldable pub write_response_action : GeneratedFilter → Str
  unfolding write_response_action_chain write_conditions
  write_response_action filter =
      codes "fn response_action(res: Response) -> ResponseAction {\n"
      ++ (if is_empty filter.conditions
          then codes "    " ++ (write_response_action_chain filter ++ codes "\n}\n")
          else codes "    if "
            ++ (write_conditions filter.conditions
                ++ (codes " {\n        "
                    ++ (write_response_action_chain filter
                        ++ codes "\n    } else {\n        ResponseAction.pass()\n    }\n}\n"))))
