-- ===== src/Filter/Action.antt =====
-- src/filters/runtime.rs, what a filter's script answers with, and how it becomes an action.
pub mod Laws
mod Tests
use inspect.Common.{
  ℕ, Bool, true, false, not, ◌&&◌, ◌||◌, Option, none, some, List, [], ◌∷◌, map, Str, Bytes, codes,
  is_empty, is_blank, is_some, or_else, to_utf8, if◌then◌else◌,
}
use inspect.Filter.Types.{
  FilterHeader, FilterMark, FilterBodyPatch, FilterRequestPatch, FilterResponsePatch,
  FilterSyntheticResponse, OutboundHttpBodySource, bytes_source, captured_request,
  captured_response, captured_request_json, captured_response_json, captured_flow_json,
  OutboundHttpJob, ConnectAction, RequestAction, ResponseAction, default_request_patch,
  default_response_patch, request_pass, response_pass,
}
use inspect.Filter.Rewrite.{RotoBodyRewriteOp, AppliedBodyRewrite, apply_body_rewrite_ops}

pub record RotoConnectActionData : Type 0 where
  pub stop : Bool
  pub drop : Bool
  pub reject_status : Option ℕ
  pub marks : List Str

pub record RotoRequestActionData : Type 0 where
  pub set_headers : List (Str × Str)
  pub remove_headers : List Str
  pub marks : List Str
  pub body_text : Option Str
  pub body_content_type : Option Str
  pub body_rewrite_ops : List RotoBodyRewriteOp
  pub synthetic_status : Option ℕ
  pub synthetic_body : Option Str
  pub synthetic_content_type : Option Str
  pub stop : Bool
  pub drop : Bool

pub data RotoOutboundHttpBodyData : Type 0 where
  text : (body content_type : Str) → RotoOutboundHttpBodyData
  request_data response_data request_json_data response_json_data flow_json_data :
      RotoOutboundHttpBodyData

pub record RotoOutboundHttpData : Type 0 where
  pub client : Str
  pub method : Str
  pub path : Str
  pub body : RotoOutboundHttpBodyData

pub record RotoResponseActionData : Type 0 where
  pub status : Option ℕ
  pub set_headers : List (Str × Str)
  pub remove_headers : List Str
  pub marks : List Str
  pub body_text : Option Str
  pub body_content_type : Option Str
  pub body_rewrite_ops : List RotoBodyRewriteOp
  pub outbound_http : List RotoOutboundHttpData
  pub stop : Bool
  pub drop : Bool

abbrev green : Option Str
green = some (codes "green")

unfoldable pub into_connect_action : RotoConnectActionData → ConnectAction
into_connect_action action = record {
  marks = map (λ label. record { label = label; color = none }) action.marks;
  continue_filters = not action.stop;
  drop_tunnel = action.drop || is_some action.reject_status;
  reject_status = action.reject_status;
}

abbrev pub to_headers : List (Str × Str) → List FilterHeader
to_headers = map (λ header. record { name = header.0; value = header.1 })

abbrev pub to_marks : List Str → List FilterMark
to_marks = map (λ label. record { label = label; color = green })

abbrev pub content_type_header : Str → FilterHeader
content_type_header content_type = record { name = codes "content-type"; value = content_type }

-- The headers of a synthetic response.
abbrev pub synthetic_headers : Option Str → List FilterHeader
synthetic_headers none = []
synthetic_headers (some content_type) =
    if is_blank content_type then [] else content_type_header content_type ∷ []

abbrev pub bytes_or_empty : Option Str → Bytes
bytes_or_empty none = []
bytes_or_empty (some body) = to_utf8 body

unfoldable pub synthetic_of : RotoRequestActionData → Option FilterSyntheticResponse
synthetic_of data_ = elim data_.synthetic_status [
  | none ↦ none
  | some status ↦ some (record {
    status = status;
    headers = synthetic_headers data_.synthetic_content_type;
    body = bytes_or_empty data_.synthetic_body;
  })
]

-- The body of a patch: a text that the script sets goes before a rewritten one.
unfoldable pub body_patch :
    Option Str → Option Str → Option AppliedBodyRewrite → Option FilterBodyPatch
body_patch (some body_text) body_content_type rewrite =
    some (record { bytes = to_utf8 body_text; content_type = body_content_type })
body_patch none body_content_type none = none
body_patch none body_content_type (some rewrite) = some (record {
  bytes = to_utf8 rewrite.body;
  content_type = or_else rewrite.content_type body_content_type;
})

unfoldable pub outbound_job : RotoOutboundHttpData → OutboundHttpJob
outbound_job job = record {
  client = job.client;
  method = job.method;
  path = job.path;
  headers = content_type_header (kind job.body) ∷ [];
  body = source job.body;
}
  where
    kind : RotoOutboundHttpBodyData → Str
    kind (text body content_type) = content_type
    kind request_data = codes "application/octet-stream"
    kind response_data = codes "application/octet-stream"
    kind request_json_data = codes "application/json"
    kind response_json_data = codes "application/json"
    kind flow_json_data = codes "application/json"

    source : RotoOutboundHttpBodyData → OutboundHttpBodySource
    source (text body content_type) = bytes_source (to_utf8 body)
    source request_data = captured_request
    source response_data = captured_response
    source request_json_data = captured_request_json
    source response_json_data = captured_response_json
    source flow_json_data = captured_flow_json

-- The patch of a request, if the script asked for any change of it.
unfoldable pub request_patch :
    RotoRequestActionData → Option AppliedBodyRewrite → Option FilterRequestPatch
request_patch data_ rewrite =
    if not (is_empty data_.set_headers)
      || not (is_empty data_.remove_headers)
      || is_some data_.body_text
      || is_some rewrite
    then some (record default_request_patch {
      set_headers = to_headers data_.set_headers;
      remove_headers = data_.remove_headers;
      body = body_patch data_.body_text data_.body_content_type rewrite;
    })
    else none

unfoldable pub response_patch :
    RotoResponseActionData → Option AppliedBodyRewrite → Option FilterResponsePatch
response_patch data_ rewrite =
    if is_some data_.status
      || not (is_empty data_.set_headers)
      || not (is_empty data_.remove_headers)
      || is_some data_.body_text
      || is_some rewrite
    then some (record default_response_patch {
      status = data_.status;
      set_headers = to_headers data_.set_headers;
      remove_headers = data_.remove_headers;
      body = body_patch data_.body_text data_.body_content_type rewrite;
    })
    else none

module _ (regex_replace_all : Str → Option (Str → Str → Str))
    (apply_json_patch : Str → Str → Option Str) where
  unfoldable pub into_request_action : RotoRequestActionData → Option Str → RequestAction
  into_request_action data_ original_body_text = record request_pass {
    continue_filters = not data_.stop && not (is_some data_.synthetic_status);
    drop_client_response = data_.drop;
    synthetic_response = synthetic_of data_;
    request = request_patch data_ (
        apply_body_rewrite_ops regex_replace_all apply_json_patch original_body_text
          data_.body_rewrite_ops);
    marks = to_marks data_.marks;
  }

  unfoldable pub into_response_action : RotoResponseActionData → Option Str → ResponseAction
  into_response_action data_ original_body_text = record response_pass {
    continue_filters = not data_.stop;
    drop_client_response = data_.drop;
    response = response_patch data_ (
        apply_body_rewrite_ops regex_replace_all apply_json_patch original_body_text
          data_.body_rewrite_ops);
    marks = to_marks data_.marks;
    outbound_http = map outbound_job data_.outbound_http;
  }
