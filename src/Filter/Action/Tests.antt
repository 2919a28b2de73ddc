-- ===== src/Filter/Action/Tests.antt =====
-- Answers of scripts, for the modules of Filter.Action.
use inspect.Common.{
  ◌≡◌, refl, true, false, Option, none, some, [], ◌∷◌, Str, codes, to_utf8, contains, starts_with,
  is_blank, is_whitespace,
}
use inspect.Filter.Rewrite.{
  replace_text_once, apply_ops, apply_op, replace_if, present, rewritten, apply_body_rewrite_ops,
}
use inspect.Filter.Action.{
  RotoRequestActionData, RotoResponseActionData, into_request_action, into_connect_action,
  synthetic_of, request_patch,
}
use inspect.Filter.Action.Laws.{bytes_after, request_body, into_request_action-rewrite}

abbrev no_regex : Str → Option (Str → Str → Str)
no_regex pattern = none

abbrev no_patch : Str → Str → Option Str
no_patch body patch_json = none

abbrev rewriting : RotoRequestActionData
rewriting = record {
  set_headers = [];
  remove_headers = [];
  marks = codes "m" ∷ [];
  body_text = none;
  body_content_type = none;
  body_rewrite_ops = replace_text_once (codes "a") (codes "b") ∷ [];
  synthetic_status = some 404;
  synthetic_body = none;
  synthetic_content_type = some (codes " ");
  stop = false;
  drop = true;
}

abbrev rewriting_response : RotoResponseActionData
rewriting_response = record {
  status = none;
  set_headers = [];
  remove_headers = [];
  marks = [];
  body_text = none;
  body_content_type = none;
  body_rewrite_ops = replace_text_once (codes "a") (codes "b") ∷ [];
  outbound_http = [];
  stop = true;
  drop = false;
}

runs :
    ((into_request_action no_regex no_patch rewriting (some (codes "x"))).request ≡ none)
    × ((into_request_action no_regex no_patch rewriting (some (codes "x"))).synthetic_response
        ≡ some (record { status = 404; headers = []; body = [] }))
    × ((into_request_action no_regex no_patch rewriting (some (codes "x"))).continue_filters
        ≡ false)
    × ((into_connect_action
          (record { stop = false; drop = false; reject_status = some 403; marks = [] })).drop_tunnel
        ≡ true)
unfolding into_request_action into_connect_action request_patch synthetic_of apply_body_rewrite_ops
    apply_ops apply_op replace_if present rewritten contains starts_with is_blank is_whitespace
runs = (refl, refl, refl, refl)

into_request_action-rewrite_example :
    bytes_after
      (request_body (into_request_action no_regex no_patch rewriting (some (codes "a"))).request)
      (to_utf8 (codes "a"))
    ≡ to_utf8
        (apply_ops no_regex no_patch rewriting.body_rewrite_ops
          (record { body = codes "a"; content_type = none; changed = false })).body
into_request_action-rewrite_example =
    into_request_action-rewrite no_regex no_patch rewriting (codes "a") refl
