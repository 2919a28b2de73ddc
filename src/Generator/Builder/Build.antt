-- ===== src/Generator/Builder/Build.antt =====
-- src/filters/generator.rs, the selection of a text and the end of GeneratedFilterBuilder. The identifier that
-- `build` draws is an argument, and so is `char::to_lowercase`, which reads the tables of Unicode.
use inspect.Common.{
  ℕ, Bool, true, false, Option, none, some, List, [], ◌∷◌, ◌++◌, Str, codes, is_empty, take, trim,
  trim_start, trim_end, leb, ◌==◌, ◌||◌, ◌&&◌, parse_u16, if◌then◌else◌, collect,
}
use inspect.Generator.{
  GeneratedFilter, GeneratedFilterPhase, request, response, GeneratedFilterTrigger,
  GeneratedFilterSelectionTarget, request_host, request_path, request_query, request_method,
  response_status, response_content_type, response_body, request_host_contains,
  request_path_contains, request_method_eq, request_query_contains, response_status_eq,
  response_content_type_contains, response_body_contains, mark,
}
use inspect.Generator.Builder.{GeneratedFilterBuilder, new_builder}
use inspect.Generator.Builder.Methods.{condition}

unfoldable pub default_phase : GeneratedFilterSelectionTarget → GeneratedFilterPhase
default_phase request_host = request
default_phase request_path = request
default_phase request_query = request
default_phase request_method = request
default_phase _ = response

unfoldable pub normalize_selected_text : Str → Option Str
unfolding trim_start trim_end
normalize_selected_text selected =
    let trimmed = trim selected in if is_empty trimmed then none else some (take 4096 trimmed)

-- The match on the target; a status that is no number adds no condition.
unfoldable pub select :
    GeneratedFilterBuilder → GeneratedFilterSelectionTarget → Str → GeneratedFilterBuilder
unfolding condition parse_u16
select b request_host s = condition (record b { phase = request }) (request_host_contains s)
select b request_path s = condition (record b { phase = request }) (request_path_contains s)
select b request_query s = condition (record b { phase = request }) (request_query_contains s)
select b request_method s = condition (record b { phase = request }) (request_method_eq s)
select b response_status s = elim (parse_u16 s) [
  | none ↦ record b { phase = response }
  | some status ↦ condition (record b { phase = response }) (response_status_eq status)
]
select b response_content_type s =
    condition (record b { phase = response }) (response_content_type_contains s)
select b response_body s = condition (record b { phase = response }) (response_body_contains s)

unfoldable pub selected_text :
    GeneratedFilterBuilder → GeneratedFilterSelectionTarget → Str → GeneratedFilterBuilder
unfolding normalize_selected_text select
selected_text b target selected = elim (normalize_selected_text selected) [
  | none ↦ b
  | some s ↦ select b target s
]

unfoldable pub from_selected_text :
    Str → GeneratedFilterSelectionTarget → Str → GeneratedFilterBuilder
unfolding new_builder selected_text default_phase
from_selected_text name target selected =
    selected_text (new_builder name (default_phase target)) target selected

-- `GeneratedFilterTrigger::normalized`.
unfoldable pub or_any : List Str → List Str
or_any values = if is_empty values then codes "*" ∷ [] else values

unfoldable pub normalized : GeneratedFilterTrigger → GeneratedFilterTrigger
unfolding or_any
normalized trigger = record trigger { host = or_any trigger.host; path = or_any trigger.path }

unfoldable pub is_ascii_alphanumeric : ℕ → Bool
is_ascii_alphanumeric c =
    (leb b'0' c && leb c b'9') || (leb b'A' c && leb c b'Z') || (leb b'a' c && leb c b'z')

-- The loop of `slugify_label`, and `trim_matches('-')`.
unfoldable pub slug_from : Bool → Str → Str
unfolding is_ascii_alphanumeric
slug_from last_was_dash [] = []
slug_from last_was_dash (c ∷ s) =
    let letter = c ∷ slug_from false s in
    let dash = slug_from true s in
    if is_ascii_alphanumeric c then letter else if last_was_dash then dash else b'-' ∷ dash

unfoldable pub trim_start_dash : Str → Str
trim_start_dash [] = []
trim_start_dash (c ∷ s) = let rest = trim_start_dash s in if c == b'-' then rest else c ∷ s

unfoldable pub trim_end_dash : Str → Str
trim_end_dash [] = []
trim_end_dash (c ∷ s) =
    let rest = trim_end_dash s in
    if is_empty rest then (if c == b'-' then [] else c ∷ []) else c ∷ rest

module _ (to_lowercase : ℕ → Str) where
  unfoldable pub slugify_label : Str → Str
  unfolding slug_from trim_start_dash trim_end_dash
  slugify_label name = trim_end_dash (trim_start_dash (slug_from false (collect to_lowercase name)))

  unfoldable pub generated_mark_label : Str → Str
  unfolding slugify_label
  generated_mark_label name =
      let slug = slugify_label name in
      if is_empty slug then codes "generated" else codes "generated-" ++ slug

  unfoldable pub build : (uuid : Str) → GeneratedFilterBuilder → GeneratedFilter
  unfolding generated_mark_label normalized
  build uuid b = record {
    id = some (codes "inspect-generated:" ++ uuid);
    name = b.name;
    priority = b.priority;
    enabled = b.enabled;
    phase = b.phase;
    trigger = normalized b.trigger;
    conditions = b.conditions;
    actions = if is_empty b.actions then mark (generated_mark_label b.name) ∷ [] else b.actions;
    notes = [];
  }
