-- ===== src/Filter/ResponseScript.antt =====
-- src/filters/runtime.rs, `inspect_roto_runtime`: the functions of the type `ResponseAction` that scripts call to
-- build an answer. `decode_base64` is the base64 library, none for an invalid text, and the reading of the
-- decoded bytes as UTF-8.
use inspect.Common.{
  ℕ, true, false, Option, none, some, [], ◌∷◌, ◌++◌, Str, codes, is_empty, if◌then◌else◌,
}
use inspect.Filter.Rewrite.{
  RotoBodyRewriteOp, replace_text_once, replace_text_all, replace_regex, replace_text_when_contains,
  replace_js_property, replace_css_declaration, replace_html_attribute, apply_json_patch_op,
}
use inspect.Filter.Action.{
  RotoResponseActionData, RotoOutboundHttpBodyData, text, request_data, response_data,
  request_json_data, response_json_data, flow_json_data,
}

abbrev pub default : RotoResponseActionData
default = record {
  status = none;
  set_headers = [];
  remove_headers = [];
  marks = [];
  body_text = none;
  body_content_type = none;
  body_rewrite_ops = [];
  outbound_http = [];
  stop = false;
  drop = false;
}

unfoldable pub push_op : RotoBodyRewriteOp → RotoResponseActionData → RotoResponseActionData
push_op op action = record action { body_rewrite_ops = action.body_rewrite_ops ++ (op ∷ []) }

unfoldable pub stop : RotoResponseActionData → RotoResponseActionData
stop action = record action { stop = true }

unfoldable pub drop : RotoResponseActionData → RotoResponseActionData
drop action = record action { stop = true; drop = true }

unfoldable pub mark : Str → RotoResponseActionData → RotoResponseActionData
mark label action = record action { marks = action.marks ++ (label ∷ []) }

unfoldable pub post :
    Str → Str → RotoOutboundHttpBodyData → RotoResponseActionData → RotoResponseActionData
post client path body action = record action {
  outbound_http =
      action.outbound_http
      ++ (record { client = client; method = codes "POST"; path = path; body = body } ∷ []);
}

unfoldable pub post_json : Str → Str → Str → RotoResponseActionData → RotoResponseActionData
post_json client path body action = post client path (text body (codes "application/json")) action

unfoldable pub post_text : Str → Str → Str → RotoResponseActionData → RotoResponseActionData
post_text client path body action =
    post client path (text body (codes "text/plain; charset=utf-8")) action

unfoldable pub post_request_raw : Str → Str → RotoResponseActionData → RotoResponseActionData
post_request_raw client path action = post client path request_data action

unfoldable pub post_response_raw : Str → Str → RotoResponseActionData → RotoResponseActionData
post_response_raw client path action = post client path response_data action

unfoldable pub post_request_json : Str → Str → RotoResponseActionData → RotoResponseActionData
post_request_json client path action = post client path request_json_data action

unfoldable pub post_response_json : Str → Str → RotoResponseActionData → RotoResponseActionData
post_response_json client path action = post client path response_json_data action

unfoldable pub post_flow_json : Str → Str → RotoResponseActionData → RotoResponseActionData
post_flow_json client path action = post client path flow_json_data action

unfoldable pub set_status : ℕ → RotoResponseActionData → RotoResponseActionData
set_status status action = record action { status = some status }

unfoldable pub set_header : Str → Str → RotoResponseActionData → RotoResponseActionData
set_header name value action = record action {
  set_headers = action.set_headers ++ ((name, value) ∷ []);
}

unfoldable pub remove_header : Str → RotoResponseActionData → RotoResponseActionData
remove_header name action = record action { remove_headers = action.remove_headers ++ (name ∷ []) }

-- A content type that is empty leaves the one that is there.
unfoldable pub set_body_text : Str → Str → RotoResponseActionData → RotoResponseActionData
set_body_text body content_type action = record action {
  body_text = some body;
  body_content_type = if is_empty content_type then action.body_content_type else some content_type;
}

unfoldable pub replace_body_text_once : Str → Str → RotoResponseActionData → RotoResponseActionData
replace_body_text_once old new action = push_op (replace_text_once old new) action

unfoldable pub replace_body_text_all : Str → Str → RotoResponseActionData → RotoResponseActionData
replace_body_text_all old new action = push_op (replace_text_all old new) action

unfoldable pub replace_body_regex : Str → Str → RotoResponseActionData → RotoResponseActionData
replace_body_regex pattern_text replacement action =
    push_op (replace_regex pattern_text replacement) action

unfoldable pub replace_body_text_when_contains :
    Str → Str → Str → RotoResponseActionData → RotoResponseActionData
replace_body_text_when_contains anchor old new action =
    push_op (replace_text_when_contains anchor old new) action

unfoldable pub replace_js_property_in_body :
    Str → Str → Str → RotoResponseActionData → RotoResponseActionData
replace_js_property_in_body property old new action =
    push_op (replace_js_property property old new) action

unfoldable pub replace_css_declaration_in_body :
    Str → Str → Str → RotoResponseActionData → RotoResponseActionData
replace_css_declaration_in_body property old new action =
    push_op (replace_css_declaration property old new) action

unfoldable pub replace_html_attribute_in_body :
    Str → Str → Str → Str → RotoResponseActionData → RotoResponseActionData
replace_html_attribute_in_body selector attribute old new action =
    push_op (replace_html_attribute selector attribute old new) action

unfoldable pub apply_json_patch : Str → Str → RotoResponseActionData → RotoResponseActionData
apply_json_patch patch_json content_type action =
    push_op (apply_json_patch_op patch_json content_type) action

module _ (decode_base64 : Str → Option Str) where
  -- An operation on two decoded texts; none of it happens if one of them does not decode.
  unfoldable pub push_decoded :
      (Str → Str → RotoBodyRewriteOp) → Str → Str → RotoResponseActionData → RotoResponseActionData
  push_decoded op old_b64 new_b64 action = elim (decode_base64 old_b64) [
    | none ↦ action
    | some old ↦ elim (decode_base64 new_b64) [
      | none ↦ action
      | some new ↦ push_op (op old new) action
    ]
  ]

  unfoldable pub replace_body_text_once_b64 :
      Str → Str → RotoResponseActionData → RotoResponseActionData
  replace_body_text_once_b64 old_b64 new_b64 action =
      push_decoded replace_text_once old_b64 new_b64 action

  unfoldable pub replace_body_text_all_b64 :
      Str → Str → RotoResponseActionData → RotoResponseActionData
  replace_body_text_all_b64 old_b64 new_b64 action =
      push_decoded replace_text_all old_b64 new_b64 action
