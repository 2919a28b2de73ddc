-- ===== src/Filter/Program/Laws.antt =====
-- CompiledFilter::on_request of src/filters/runtime.rs, for a filter without a request action.
use inspect.Common.{◌≡◌, arith, true, false, Option, none, [], Str}
use inspect.Filter.Types.{FilterRequest, RequestAction}
use inspect.Filter.Program.{
  CompiledRotoFilter, RotoRequestData, run_request, marked_request, from_filter_request,
}
use inspect.Filter.RequestBuilder.{set_header, mark_color, set_body_text, patch_request}

-- Nothing but a patch and marks.
abbrev pub Plain : RequestAction → Type 0
Plain a =
    (a.continue_filters ≡ true)
    × (a.synthetic_response ≡ none)
    × (a.drop_client_response ≡ false)
    × (a.outbound_http ≡ [])

marked_request-Plain :
    (name : Str) (roto : CompiledRotoFilter) (data_ : RotoRequestData)
    → Plain (marked_request name roto data_)
unfolding marked_request set_header mark_color set_body_text patch_request
marked_request-Plain name roto data_ = ground arith

-- A compiled filter without a request action neither stops the chain, nor answers the client itself, nor
-- drops its response, nor sends requests: whatever its other functions give, it only patches and marks.
run_request-Plain :
    (regex_replace_all : Str → Option (Str → Str → Str)) (apply_json_patch : Str → Str → Option Str)
    (name : Str) (roto : CompiledRotoFilter) (req : FilterRequest)
    → roto.request_action ≡ none
    → Plain (run_request regex_replace_all apply_json_patch name roto req)
unfolding run_request
run_request-Plain regex_replace_all apply_json_patch name roto req no_action =
    let marked = marked_request-Plain name roto (from_filter_request req) in ground arith
