-- ===== src/Filter/RequestScript.antt =====
-- src/filters/runtime.rs, `inspect_roto_runtime`: the functions of the type `RequestAction` that scripts call to
-- build an answer. `decode_base64` is the base64 library, none for an invalid text, and the reading of the
-- decoded bytes as UTF-8.
use inspect.Common.{ℕ, true, false, Option, none, some, [], ◌∷◌, ◌++◌, Str, is_empty, if◌then◌else◌}
use inspect.Filter.Rewrite.{
  RotoBodyRewriteOp, replace_text_once, replace_text_all, replace_regex, replace_text_when_contains,
  replace_js_property, replace_css_declaration, replace_html_attribute, apply_json_patch_op,
}
use inspect.Filter.Action.{RotoRequestActionData}

abbrev pub default : RotoRequestActionData
default = record {
  set_headers = [];
  remove_headers = [];
  marks = [];
  body_text = none;
  body_content_type = none;
  body_rewrite_ops = [];
  synthetic_status = none;
  synthetic_body = none;
  synthetic_content_type = none;
  stop = false;
  drop = false;
}

unfoldable pub push_op : RotoBodyRewriteOp → RotoRequestActionData → RotoRequestActionData
push_op op action = record action { body_rewrite_ops = action.body_rewrite_ops ++ (op ∷ []) }

unfoldable pub stop : RotoRequestActionData → RotoRequestActionData
stop action = record action { stop = true }

unfoldable pub drop : RotoRequestActionData → RotoRequestActionData
drop action = record action { stop = true; drop = true }

unfoldable pub mark : Str → RotoRequestActionData → RotoRequestActionData
mark label action = record action { marks = action.marks ++ (label ∷ []) }

unfoldable pub set_header : Str → Str → RotoRequestActionData → RotoRequestActionData
set_header name value action = record action {
  set_headers = action.set_headers ++ ((name, value) ∷ []);
}

unfoldable pub remove_header : Str → RotoRequestActionData → RotoRequestActionData
remove_header name action = record action { remove_headers = action.remove_headers ++ (name ∷ []) }

-- A content type that is empty leaves the one that is there.
unfoldable pub set_body_text : Str → Str → RotoRequestActionData → RotoRequestActionData
set_body_text body content_type action = record action {
  body_text = some body;
  body_content_type = if is_empty content_type then action.body_content_type else some content_type;
}

unfoldable pub replace_body_text : Str → Str → RotoRequestActionData → RotoRequestActionData
replace_body_text old new action = push_op (replace_text_all old new) action

unfoldable pub replace_body_text_once : Str → Str → RotoRequestActionData → RotoRequestActionData
replace_body_text_once old new action = push_op (replace_text_once old new) action

unfoldable pub replace_body_text_all : Str → Str → RotoRequestActionData → RotoRequestActionData
replace_body_text_all old new action = push_op (replace_text_all old new) action

unfoldable pub replace_body_regex : Str → Str → RotoRequestActionData → RotoRequestActionData
replace_body_regex pattern_text replacement action =
    push_op (replace_regex pattern_text replacement) action

unfoldable pub replace_body_text_when_contains :
    Str → Str → Str → RotoRequestActionData → RotoRequestActionData
replace_body_text_when_contains anchor old new action =
    push_op (replace_text_when_contains anchor old new) action

unfoldable pub replace_js_property_in_body :
    Str → Str → Str → RotoRequestActionData → RotoRequestActionData
replace_js_property_in_body property old new action =
    push_op (replace_js_property property old new) action

unfoldable pub replace_css_declaration_in_body :
    Str → Str → Str → RotoRequestActionData → RotoRequestActionData
replace_css_declaration_in_body property old new action =
    push_op (replace_css_declaration property old new) action

unfoldable pub replace_html_attribute_in_body :
    Str → Str → Str → Str → RotoRequestActionData → RotoRequestActionData
replace_html_attribute_in_body selector attribute old new action =
    push_op (replace_html_attribute selector attribute old new) action

unfoldable pub apply_json_patch : Str → Str → RotoRequestActionData → RotoRequestActionData
apply_json_patch patch_json content_type action =
    push_op (apply_json_patch_op patch_json content_type) action

unfoldable pub synthetic_response : ℕ → Str → Str → RotoRequestActionData → RotoRequestActionData
synthetic_response status body content_type action = record action {
  synthetic_status = some status;
  synthetic_body = some body;
  synthetic_content_type =
      if is_empty content_type then action.synthetic_content_type else some content_type;
  stop = true;
}

module _ (decode_base64 : Str → Option Str) where
  -- An operation on two decoded texts; none of it happens if one of them does not decode.
  unfoldable pub push_decoded :
      (Str → Str → RotoBodyRewriteOp) → Str → Str → RotoRequestActionData → RotoRequestActionData
  push_decoded op old_b64 new_b64 action = elim (decode_base64 old_b64) [
    | none ↦ action
    | some old ↦ elim (decode_base64 new_b64) [
      | none ↦ action
      | some new ↦ push_op (op old new) action
    ]
  ]

  unfoldable pub replace_body_text_once_b64 :
      Str → Str → RotoRequestActionData → RotoRequestActionData
  replace_body_text_once_b64 old_b64 new_b64 action =
      push_decoded replace_text_once old_b64 new_b64 action

  unfoldable pub replace_body_text_all_b64 :
      Str → Str → RotoRequestActionData → RotoRequestActionData
  replace_body_text_all_b64 old_b64 new_b64 action =
      push_decoded replace_text_all old_b64 new_b64 action
