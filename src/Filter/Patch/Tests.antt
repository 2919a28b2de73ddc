-- ===== src/Filter/Patch/Tests.antt =====
-- Patches of a concrete request, for the modules of Filter.Patch.
use inspect.Common.{
  ◌≡◌, refl, Option, none, some, [], ◌∷◌, Str, codes, str_eq, to_ascii_lowercase, any, or_else,
  contains, starts_with, is_empty, if◌then◌else◌,
}
use inspect.Filter.Types.{
  FilterBodyPatch, FilterRequestPatch, FilterResponsePatch, default_request_patch,
  default_response_patch,
}
use inspect.Filter.Patch.{
  get_header, insert_header, remove_header, remove_body_integrity_headers, HttpParsers,
  RequestParts, ResponseParts, apply_request_patch, apply_response_patch, apply_header_patch,
  apply_body_patch, remove_headers, set_header, set_headers, next_uri,
}
use inspect.Filter.Patch.Headers.{value_set, is_name, get_header-apply_header_patch}

-- Parsers that refuse the empty text, and a space in a name.
abbrev if_any : Str → Option Str
if_any text = if is_empty text then none else some text

abbrev http : HttpParsers
http = record {
  header_name =
      λ text. if contains (codes " ") text then none else if_any (to_ascii_lowercase text);
  header_value = if_any;
  method = if_any;
  status = λ status. some status;
  path_and_query = λ text. some (text, none);
  uri_from_parts = λ uri. some uri;
}

abbrev parts : RequestParts
parts = record {
  method = codes "POST";
  uri = record { scheme = none; authority = none; path = codes "/"; query = some (codes "a") };
  headers =
      (codes "etag", codes "x") ∷ (codes "content-length", codes "3") ∷ (codes "x", codes "1") ∷ [];
}

abbrev answer : ResponseParts
answer = record { status = 200; headers = parts.headers }

abbrev new_body : FilterBodyPatch
new_body = record { bytes = codes "hello"; content_type = some (codes "text/plain") }

abbrev patch : FilterRequestPatch
patch = record default_request_patch {
  path = some (codes "/new");
  set_headers =
      record { name = codes "ETag"; value = codes "y" }
      ∷ record { name = codes "X"; value = codes "2" }
      ∷ record { name = codes "a b"; value = codes "3" }
      ∷ [];
  remove_headers = codes "Content-Type" ∷ [];
  body = some new_body;
}

runs :
    ((apply_request_patch http parts (codes "old") patch).0.headers
      ≡ (codes "x", codes "2") ∷ (codes "content-type", codes "text/plain") ∷ [])
    × ((apply_request_patch http parts (codes "old") patch).0.uri.path ≡ codes "/new?a")
    × ((apply_response_patch http answer (codes "old") default_response_patch).0.headers
        ≡ answer.headers)
unfolding apply_request_patch apply_response_patch apply_header_patch apply_body_patch
    remove_headers set_header set_headers next_uri insert_header remove_header
    remove_body_integrity_headers str_eq contains starts_with
runs = (refl, refl, refl)

get_header-apply_header_patch_example :
    get_header
      (codes "x")
      (apply_header_patch http patch.set_headers patch.remove_headers parts.headers)
    ≡ or_else (value_set http (codes "x") patch.set_headers) (
        if any (is_name http (codes "x")) patch.remove_headers
        then none
        else get_header (codes "x") parts.headers)
get_header-apply_header_patch_example =
    get_header-apply_header_patch http (codes "x") patch.set_headers patch.remove_headers
      parts.headers

abbrev answer_patch : FilterResponsePatch
answer_patch = record default_response_patch { body = some new_body }
