-- ===== src/Filter/ResponseBuilder.antt =====
-- src/filters/roto_api.rs, `RotoResponseAction`. A builder is the action that it holds.
use inspect.Common.{ℕ, false, Option, none, some, [], ◌∷◌, ◌++◌, Str, to_utf8, unwrap_or}
use inspect.Filter.Types.{FilterResponsePatch, ResponseAction, default_response_patch}

-- `get_or_insert_with`, and a change of what is there.
unfoldable pub patch_response :
    (FilterResponsePatch → FilterResponsePatch) → ResponseAction → ResponseAction
patch_response change action = record action {
  response = some (change (unwrap_or action.response default_response_patch));
}

unfoldable pub stop : ResponseAction → ResponseAction
stop action = record action { continue_filters = false }

unfoldable pub set_status : ℕ → ResponseAction → ResponseAction
set_status status = patch_response (λ patch. record patch { status = some status })

unfoldable pub set_header : Str → Str → ResponseAction → ResponseAction
set_header name value = patch_response (λ patch. record patch {
  set_headers = patch.set_headers ++ (record { name = name; value = value } ∷ []);
})

unfoldable pub remove_header : Str → ResponseAction → ResponseAction
remove_header name =
    patch_response (λ patch. record patch { remove_headers = patch.remove_headers ++ (name ∷ []) })

unfoldable pub set_body_text : Str → Option Str → ResponseAction → ResponseAction
set_body_text text content_type = patch_response (λ patch. record patch {
  body = some (record { bytes = to_utf8 text; content_type = content_type });
})

unfoldable pub mark : Str → ResponseAction → ResponseAction
mark label action = record action {
  marks = action.marks ++ (record { label = label; color = none } ∷ []);
}

unfoldable pub mark_color : Str → Str → ResponseAction → ResponseAction
mark_color label color action = record action {
  marks = action.marks ++ (record { label = label; color = some color } ∷ []);
}
