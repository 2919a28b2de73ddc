-- ===== src/Generator/IntoFilter.antt =====
-- src/filters/generator.rs, the filters made of the drafts of a rewrite. `{:?}` of a text and
-- `char::to_lowercase` read the tables of Unicode and are parameters, as is the identifier that a filter
-- draws.
use inspect.Common.{
  ℕ, Bool, not, Option, none, some, ◌++◌, Str, codes, str_eq, option_str_eq, is_empty, decimal,
  or_else, unwrap_or, ◌==◌, trim, trim_start, trim_end, if◌then◌else◌,
}
use inspect.Generator.{
  GeneratedFilter, request, response, GeneratedFilterCondition, add_rewrite_note, request_method_eq,
}
use inspect.Generator.Builder.{
  GeneratedFilterBuilder, new_builder, host_trigger, path_trigger, method_trigger,
}
use inspect.Generator.Builder.Methods.{
  path_eq, add_mark, query_contains, condition, add_set_request_body_text, status_eq,
  content_type_contains, add_set_response_status, add_set_response_body_text,
}
use inspect.Generator.Builder.Build.{build, generated_mark_label}
use inspect.Generator.Rewrite.{
  GeneratedRewriteRequest, GeneratedRewriteResponse, GeneratedRewriteDraft, of_request, of_response,
  path_trigger_for_original_path, content_type_prefix, response_body_rewrite_anchor,
}

abbrev pub with_condition :
    Option GeneratedFilterCondition → GeneratedFilterBuilder → GeneratedFilterBuilder
with_condition none b = b
with_condition (some test) b = condition b test

abbrev pub plain_text : Str
plain_text = codes "text/plain; charset=utf-8"

abbrev pub note_if : Bool → Str → GeneratedFilter → GeneratedFilter
note_if test note filter = if test then add_rewrite_note filter note else filter

module _ (to_lowercase : ℕ → Str) (debug : Str → Str) (uuid : Str) where
  -- The builder of `GeneratedRewriteRequest::into_filter`, step by step.
  abbrev pub request_start : Str → GeneratedRewriteRequest → GeneratedFilterBuilder
  request_start name d =
      let b = host_trigger (new_builder name request) d.host in
      let b' = path_trigger b (path_trigger_for_original_path d.original_path) in
      let b'' = path_eq (method_trigger b' d.original_method) d.original_path in
      add_mark b'' (generated_mark_label to_lowercase name)

  abbrev pub request_query_step :
      GeneratedRewriteRequest → GeneratedFilterBuilder → GeneratedFilterBuilder
  request_query_step d b =
      if is_empty d.original_query then b else query_contains b d.original_query

  abbrev pub request_method_step :
      GeneratedRewriteRequest → GeneratedFilterBuilder → GeneratedFilterBuilder
  request_method_step d b =
      if str_eq d.original_method d.edited_method
      then b
      else condition b (request_method_eq d.original_method)

  abbrev pub request_body_changed : GeneratedRewriteRequest → Bool
  request_body_changed d = not (option_str_eq d.original_body_text d.edited_body_text)

  abbrev pub request_body_step :
      GeneratedRewriteRequest → GeneratedFilterBuilder → GeneratedFilterBuilder
  request_body_step d b =
      if request_body_changed d
      then (elim d.edited_body_text [
        | none ↦ b
        | some body ↦ add_set_request_body_text b body plain_text
      ])
      else b

  unfoldable pub request_draft_note : GeneratedRewriteRequest → Str
  request_draft_note d =
      codes "request rewrite draft: method "
      ++ (debug d.original_method
          ++ (codes " -> "
              ++ (debug d.edited_method
                  ++ (codes ", path "
                      ++ (debug d.original_path
                          ++ (codes " -> "
                              ++ (debug d.edited_path
                                  ++ (codes ", query "
                                      ++ (debug d.original_query
                                          ++ (codes " -> " ++ debug d.edited_query))))))))))

  unfoldable pub request_into_filter : Str → GeneratedRewriteRequest → GeneratedFilter
  unfolding build request_draft_note add_rewrite_note add_set_request_body_text query_contains
      condition path_trigger_for_original_path host_trigger path_trigger method_trigger path_eq
      add_mark new_builder generated_mark_label str_eq option_str_eq
  request_into_filter name d =
      let b = request_method_step d (request_query_step d (request_start name d)) in
      let filter = build to_lowercase uuid (request_body_step d b) in
      let noted = add_rewrite_note filter (request_draft_note d) in
      let path_noted =
        note_if (not (str_eq d.original_path d.edited_path))
          (codes "request path changed, but set_path() is not exposed in the current Roto API")
          noted in
      let query_noted =
        note_if (not (str_eq d.original_query d.edited_query))
          (codes "request query changed, but set_query() is not exposed in the current Roto API")
          path_noted in
      note_if (request_body_changed d)
        (codes
          "request body changed; generated set_body_text() uses path/method/query conditions as the match anchor")
        query_noted

  abbrev pub response_start : Str → GeneratedRewriteResponse → GeneratedFilterBuilder
  response_start name d =
      let b = host_trigger (new_builder name response) d.host in
      let b' = path_trigger b (path_trigger_for_original_path d.request_path) in
      let b'' = status_eq (method_trigger b' d.request_method) d.original_status in
      add_mark b'' (generated_mark_label to_lowercase name)

  abbrev pub response_type_step :
      GeneratedRewriteResponse → GeneratedFilterBuilder → GeneratedFilterBuilder
  response_type_step d b = elim d.original_content_type [
    | none ↦ b
    | some content_type ↦
        if is_empty (trim content_type)
        then b
        else content_type_contains b (content_type_prefix content_type)
  ]

  abbrev pub response_status_step :
      GeneratedRewriteResponse → GeneratedFilterBuilder → GeneratedFilterBuilder
  response_status_step d b =
      if d.original_status == d.edited_status then b else add_set_response_status b d.edited_status

  abbrev pub response_body_step :
      GeneratedRewriteResponse → GeneratedFilterBuilder → GeneratedFilterBuilder
  response_body_step d b =
      if option_str_eq d.original_body_text d.edited_body_text
      then b
      else (elim d.edited_body_text [
        | none ↦ b
        | some body ↦
            add_set_response_body_text b body
              (unwrap_or (or_else d.edited_content_type d.original_content_type) plain_text)
      ])

  abbrev pub debug_option : Option Str → Str
  debug_option none = codes "None"
  debug_option (some s) = codes "Some(" ++ (debug s ++ codes ")")

  unfoldable pub response_draft_note : GeneratedRewriteResponse → Str
  response_draft_note d =
      codes "response rewrite draft: status "
      ++ (decimal d.original_status
          ++ (codes " -> "
              ++ (decimal d.edited_status
                  ++ (codes ", content-type "
                      ++ (debug_option d.original_content_type
                          ++ (codes " -> " ++ debug_option d.edited_content_type))))))

  unfoldable pub response_into_filter : Str → GeneratedRewriteResponse → GeneratedFilter
  unfolding build response_draft_note add_rewrite_note add_set_response_body_text
      add_set_response_status content_type_contains content_type_prefix condition
      path_trigger_for_original_path host_trigger path_trigger method_trigger status_eq add_mark
      new_builder generated_mark_label option_str_eq response_body_rewrite_anchor trim_start
      trim_end
  response_into_filter name d =
      let b = response_type_step d (response_start name d) in
      let anchored =
        with_condition (response_body_rewrite_anchor d.original_body_text d.edited_body_text) b in
      let changed = response_body_step d (response_status_step d anchored) in
      add_rewrite_note (build to_lowercase uuid changed) (response_draft_note d)

  unfoldable pub into_filter : Str → GeneratedRewriteDraft → GeneratedFilter
  unfolding request_into_filter response_into_filter
  into_filter name (of_request d) = request_into_filter name d
  into_filter name (of_response d) = response_into_filter name d
