-- ===== src/Filter/Types.antt =====
-- src/filters/types.rs, what filters read and what they answer with: the types and their constructors.
use inspect.Common.{ℕ, Bool, true, false, Option, none, some, List, [], Str, Bytes}

pub record FilterHeader : Type 0 where
  pub name : Str
  pub value : Str

pub record FilterMark : Type 0 where
  pub label : Str
  pub color : Option Str

pub record FilterBody : Type 0 where
  pub bytes : Bytes
  pub text : Option Str
  pub content_type : Option Str
  pub encoding : Option Str
  pub truncated : Bool

pub record FilterRequest : Type 0 where
  pub id : Str
  pub seq : ℕ
  pub flow_key : Str
  pub method : Str
  pub scheme : Str
  pub host : Str
  pub path : Str
  pub query : Str
  pub version : Str
  pub headers : List FilterHeader
  pub body : FilterBody
  pub tls_sni : Option Str

pub record FilterResponse : Type 0 where
  pub status : ℕ
  pub version : Str
  pub headers : List FilterHeader
  pub body : FilterBody
  pub upstream_status : Option ℕ
  pub elapsed_ms : Option ℕ

pub record FilterConnect : Type 0 where
  pub id : Str
  pub host : Str
  pub port : ℕ

pub record FilterBodyPatch : Type 0 where
  pub bytes : Bytes
  pub content_type : Option Str

pub record FilterRequestPatch : Type 0 where
  pub method : Option Str
  pub path : Option Str
  pub query : Option Str
  pub set_headers : List FilterHeader
  pub remove_headers : List Str
  pub body : Option FilterBodyPatch

pub record FilterResponsePatch : Type 0 where
  pub status : Option ℕ
  pub set_headers : List FilterHeader
  pub remove_headers : List Str
  pub body : Option FilterBodyPatch

pub record FilterSyntheticResponse : Type 0 where
  pub status : ℕ
  pub headers : List FilterHeader
  pub body : Bytes

pub data OutboundHttpBodySource : Type 0 where
  bytes_source : Bytes → OutboundHttpBodySource
  captured_request captured_response captured_request_json captured_response_json
        captured_flow_json :
      OutboundHttpBodySource

pub record OutboundHttpJob : Type 0 where
  pub client : Str
  pub method : Str
  pub path : Str
  pub headers : List FilterHeader
  pub body : OutboundHttpBodySource

pub record ConnectAction : Type 0 where
  pub marks : List FilterMark
  pub continue_filters : Bool
  pub drop_tunnel : Bool
  pub reject_status : Option ℕ

pub record RequestAction : Type 0 where
  pub request : Option FilterRequestPatch
  pub synthetic_response : Option FilterSyntheticResponse
  pub marks : List FilterMark
  pub tags : List Str
  pub notes : List Str
  pub outbound_http : List OutboundHttpJob
  pub continue_filters : Bool
  pub drop_client_response : Bool
  pub bypass_upstream_proxy : Bool

pub record ResponseAction : Type 0 where
  pub response : Option FilterResponsePatch
  pub marks : List FilterMark
  pub tags : List Str
  pub notes : List Str
  pub outbound_http : List OutboundHttpJob
  pub continue_filters : Bool
  pub drop_client_response : Bool

pub record CompletedAction : Type 0 where
  pub marks : List FilterMark
  pub tags : List Str
  pub notes : List Str
  pub outbound_http : List OutboundHttpJob
  pub continue_filters : Bool

abbrev pub default_request_patch : FilterRequestPatch
default_request_patch = record {
  method = none;
  path = none;
  query = none;
  set_headers = [];
  remove_headers = [];
  body = none;
}

abbrev pub default_response_patch : FilterResponsePatch
default_response_patch = record {
  status = none;
  set_headers = [];
  remove_headers = [];
  body = none;
}

abbrev pub connect_pass : ConnectAction
connect_pass = record {
  marks = [];
  continue_filters = true;
  drop_tunnel = false;
  reject_status = none;
}

unfoldable pub connect_drop : ConnectAction → ConnectAction
connect_drop action = record action { drop_tunnel = true; continue_filters = false }

unfoldable pub connect_reject : ConnectAction → ℕ → ConnectAction
connect_reject action status = record action {
  drop_tunnel = true;
  reject_status = some status;
  continue_filters = false;
}

unfoldable pub connect_stop : ConnectAction → ConnectAction
connect_stop action = record action { continue_filters = false }

abbrev pub request_pass : RequestAction
request_pass = record {
  request = none;
  synthetic_response = none;
  marks = [];
  tags = [];
  notes = [];
  outbound_http = [];
  continue_filters = true;
  drop_client_response = false;
  bypass_upstream_proxy = false;
}

unfoldable pub request_stop : RequestAction → RequestAction
request_stop action = record action { continue_filters = false }

abbrev pub response_pass : ResponseAction
response_pass = record {
  response = none;
  marks = [];
  tags = [];
  notes = [];
  outbound_http = [];
  continue_filters = true;
  drop_client_response = false;
}

unfoldable pub response_stop : ResponseAction → ResponseAction
response_stop action = record action { continue_filters = false }

abbrev pub completed_pass : CompletedAction
completed_pass = record {
  marks = [];
  tags = [];
  notes = [];
  outbound_http = [];
  continue_filters = true;
}

unfoldable pub completed_stop : CompletedAction → CompletedAction
completed_stop action = record action { continue_filters = false }
