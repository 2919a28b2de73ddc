-- ===== src/Filter/RequestBuilder.antt =====
-- src/filters/roto_api.rs, `RotoRequestAction`. A builder is the action that it holds.
use inspect.Common.{true, false, Option, none, some, [], ◌∷◌, ◌++◌, Str, to_utf8, unwrap_or}
use inspect.Filter.Types.{FilterRequestPatch, RequestAction, default_request_patch}

-- `get_or_insert_with`, and a change of what is there.
unfoldable pub patch_request :
    (FilterRequestPatch → FilterRequestPatch) → RequestAction → RequestAction
patch_request change action = record action {
  request = some (change (unwrap_or action.request default_request_patch));
}

unfoldable pub stop : RequestAction → RequestAction
stop action = record action { continue_filters = false }

unfoldable pub bypass_proxy : RequestAction → RequestAction
bypass_proxy action = record action { bypass_upstream_proxy = true }

unfoldable pub set_header : Str → Str → RequestAction → RequestAction
set_header name value = patch_request (λ patch. record patch {
  set_headers = patch.set_headers ++ (record { name = name; value = value } ∷ []);
})

unfoldable pub remove_header : Str → RequestAction → RequestAction
remove_header name =
    patch_request (λ patch. record patch { remove_headers = patch.remove_headers ++ (name ∷ []) })

unfoldable pub set_path : Str → RequestAction → RequestAction
set_path path = patch_request (λ patch. record patch { path = some path })

unfoldable pub set_query : Str → RequestAction → RequestAction
set_query query = patch_request (λ patch. record patch { query = some query })

unfoldable pub set_body_text : Str → Option Str → RequestAction → RequestAction
set_body_text text content_type = patch_request (λ patch. record patch {
  body = some (record { bytes = to_utf8 text; content_type = content_type });
})

unfoldable pub mark : Str → RequestAction → RequestAction
mark label action = record action {
  marks = action.marks ++ (record { label = label; color = none } ∷ []);
}

unfoldable pub mark_color : Str → Str → RequestAction → RequestAction
mark_color label color action = record action {
  marks = action.marks ++ (record { label = label; color = some color } ∷ []);
}
