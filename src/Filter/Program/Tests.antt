-- ===== src/Filter/Program/Tests.antt =====
-- Filters at concrete requests, for the modules of Filter.Program.
use inspect.Common.{
  ◌≡◌, refl, true, false, Option, none, some, [], ◌∷◌, Str, codes, str_eq, is_whitespace,
  trim_start, trim_end,
}
use inspect.Filter.Types.{FilterRequest, request_pass}
use inspect.Filter.Trigger.{default_metadata, persistent}
use inspect.Filter.RequestBuilder
use inspect.Filter.Program.{
  CompiledFilter, CompiledRotoFilter, compiled, filter_name, file_stem, last_dot, run_request,
  on_request, non_empty_roto_string, marked_request,
}

abbrev no_regex : Str → Option (Str → Str → Str)
no_regex pattern = none

abbrev no_patch : Str → Str → Option Str
no_patch body patch_json = none

abbrev empty : CompiledRotoFilter
empty = record {
  connect_action = none;
  request_action = none;
  response_action = none;
  on_request = none;
  on_response = none;
  request_mark = none;
  request_header_name = none;
  request_header_value = none;
  request_body = none;
  request_body_content_type = none;
  response_mark = none;
  response_header_name = none;
  response_header_value = none;
  response_body = none;
  response_body_content_type = none;
}

abbrev marker : CompiledRotoFilter
marker = record empty {
  on_request = some (λ data_. true);
  request_mark = some (λ data_. codes " seen ");
}

abbrev filter : CompiledFilter
filter = record {
  definition = record {
    id = codes "f";
    source_kind = persistent;
    file_name = codes "auth.v2.roto";
    script_hash = [];
    path = codes "filters" ∷ codes "auth.v2.roto" ∷ [];
    source = [];
    metadata = default_metadata;
    script = [];
  };
  priority = 100;
  program = compiled 0 marker;
}

abbrev req : FilterRequest
req = record {
  id = codes "1";
  seq = 1;
  flow_key = codes "k";
  method = codes "GET";
  scheme = codes "https";
  host = codes "example.com";
  path = codes "/";
  query = [];
  version = codes "HTTP/1.1";
  headers = [];
  body = record {
    bytes = [];
    text = none;
    content_type = none;
    encoding = none;
    truncated = false;
  };
  tls_sni = none;
}

runs :
    (filter_name filter ≡ codes "auth.v2")
    × ((on_request no_regex no_patch filter req).marks
        ≡ record { label = codes "seen"; color = some (codes "green") } ∷ [])
    × (on_request no_regex no_patch (record filter { program = compiled 0 empty }) req
        ≡ request_pass)
unfolding filter_name file_stem last_dot on_request run_request marked_request non_empty_roto_string
    trim_start trim_end is_whitespace str_eq RequestBuilder.set_header RequestBuilder.mark_color
    RequestBuilder.patch_request
runs = (refl, refl, refl)
