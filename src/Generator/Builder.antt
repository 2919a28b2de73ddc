-- ===== src/Generator/Builder.antt =====
-- src/filters/generator.rs, GeneratedFilterBuilder. A method takes the builder and returns the next one.
pub mod Methods
pub mod Build
use inspect.Common.{
  ℕ, Bool, true, false, Option, none, some, List, [], ◌∷◌, ◌++◌, Str, codes, is_empty, take, trim,
  trim_start, trim_end, leb, ◌==◌, ◌||◌, ◌&&◌, parse_u16, if◌then◌else◌, collect,
}
use inspect.Generator.{
  GeneratedFilter, GeneratedFilterPhase, request, response, GeneratedFilterTrigger,
  GeneratedFilterCondition, GeneratedFilterAction, GeneratedFilterSelectionTarget, request_host,
  request_path, request_query, request_method, response_status, response_content_type,
  response_body, request_host_eq, request_host_contains, request_path_eq, request_path_contains,
  request_method_eq, request_query_contains, response_status_eq, response_status_at_least,
  response_content_type_contains, response_body_contains, response_body_contains_all, mark,
  default_trigger, stop, drop, synthetic_response, set_response_status, set_request_header,
  remove_request_header, set_request_body_text, replace_request_body_text,
  replace_request_body_text_once, replace_request_body_text_all, replace_request_body_regex,
  replace_request_body_text_when_contains, apply_request_json_patch, set_response_header,
  remove_response_header, set_response_body_text, replace_response_body_text,
  replace_response_body_text_once, replace_response_body_text_all, replace_response_body_regex,
  replace_response_body_text_when_contains, apply_response_json_patch,
}
use inspect.Json.Patch.{GeneratedJsonPatchOperation}

pub record GeneratedFilterBuilder : Type 0 where
  pub name : Str
  pub priority : ℕ
  pub enabled : Bool
  pub phase : GeneratedFilterPhase
  pub trigger : GeneratedFilterTrigger
  pub conditions : List GeneratedFilterCondition
  pub actions : List GeneratedFilterAction

unfoldable pub new_builder : Str → GeneratedFilterPhase → GeneratedFilterBuilder
new_builder name phase = record {
  name = name;
  priority = 9000;
  enabled = true;
  phase = phase;
  trigger = default_trigger;
  conditions = [];
  actions = [];
}

unfoldable pub set_priority : GeneratedFilterBuilder → ℕ → GeneratedFilterBuilder
set_priority b priority = record b { priority = priority }

unfoldable pub set_enabled : GeneratedFilterBuilder → Bool → GeneratedFilterBuilder
set_enabled b enabled = record b { enabled = enabled }

unfoldable pub request_context : GeneratedFilterBuilder → Str → Str → Str → GeneratedFilterBuilder
request_context b host path method = record b {
  trigger = record { host = host ∷ []; path = path ∷ []; method = method ∷ [] };
}

unfoldable pub host_trigger : GeneratedFilterBuilder → Str → GeneratedFilterBuilder
host_trigger b value = record b { trigger = record (b.trigger) { host = value ∷ [] } }

unfoldable pub host_triggers : GeneratedFilterBuilder → List Str → GeneratedFilterBuilder
host_triggers b values = record b { trigger = record (b.trigger) { host = values } }

unfoldable pub path_trigger : GeneratedFilterBuilder → Str → GeneratedFilterBuilder
path_trigger b value = record b { trigger = record (b.trigger) { path = value ∷ [] } }

unfoldable pub path_triggers : GeneratedFilterBuilder → List Str → GeneratedFilterBuilder
path_triggers b values = record b { trigger = record (b.trigger) { path = values } }

unfoldable pub method_trigger : GeneratedFilterBuilder → Str → GeneratedFilterBuilder
method_trigger b value = record b { trigger = record (b.trigger) { method = value ∷ [] } }

unfoldable pub method_triggers : GeneratedFilterBuilder → List Str → GeneratedFilterBuilder
method_triggers b values = record b { trigger = record (b.trigger) { method = values } }
