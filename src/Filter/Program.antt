-- ===== src/Filter/Program.antt =====
-- src/filters/runtime.rs, compiled filters and what they answer for a request, a response or a connect.
-- A function of the compiled script is a function of the data that it gets, or is missing.
mod Laws
mod Tests
use inspect.Common.{
  ℕ, zero, suc, Bool, true, false, not, Option, none, some, List, [], ◌∷◌, ◌++◌, Str, codes, str_eq,
  take, unwrap_or, is_empty, is_whitespace, length, ◌==◌, if◌then◌else◌, trim_start, trim_end,
}
use inspect.Filter.Types.{
  FilterRequest, FilterResponse, FilterConnect, ConnectAction, RequestAction, ResponseAction,
  CompletedAction, request_pass, response_pass, completed_pass,
}
use inspect.Filter.Trigger.{FilterDefinition, PathBuf}
use inspect.Filter.Action.{
  RotoConnectActionData, RotoRequestActionData, RotoResponseActionData, into_connect_action,
  into_request_action, into_response_action,
}
use inspect.Filter.RequestBuilder
use inspect.Filter.ResponseBuilder

pub record RotoRequestData : Type 0 where
  pub method : Str
  pub scheme : Str
  pub host : Str
  pub path : Str
  pub query : Str
  pub content_type : Str
  pub body_text : Str

pub record RotoResponseData : Type 0 where
  pub status : ℕ
  pub version : Str
  pub content_type : Str
  pub body_text : Str

unfoldable pub from_filter_request : FilterRequest → RotoRequestData
from_filter_request req = record {
  method = req.method;
  scheme = req.scheme;
  host = req.host;
  path = req.path;
  query = req.query;
  content_type = unwrap_or req.body.content_type [];
  body_text = unwrap_or req.body.text [];
}

unfoldable pub from_filter_response : FilterResponse → RotoResponseData
from_filter_response res = record {
  status = res.status;
  version = res.version;
  content_type = unwrap_or res.body.content_type [];
  body_text = unwrap_or res.body.text [];
}

pub record CompiledRotoFilter : Type 0 where
  pub connect_action : Option (FilterConnect → RotoConnectActionData)
  pub request_action : Option (RotoRequestData → RotoRequestActionData)
  pub response_action : Option (RotoResponseData → RotoResponseActionData)
  pub on_request : Option (RotoRequestData → Bool)
  pub on_response : Option (RotoResponseData → Bool)
  pub request_mark : Option (RotoRequestData → Str)
  pub request_header_name : Option (RotoRequestData → Str)
  pub request_header_value : Option (RotoRequestData → Str)
  pub request_body : Option (RotoRequestData → Str)
  pub request_body_content_type : Option (RotoRequestData → Str)
  pub response_mark : Option (RotoResponseData → Str)
  pub response_header_name : Option (RotoResponseData → Str)
  pub response_header_value : Option (RotoResponseData → Str)
  pub response_body : Option (RotoResponseData → Str)
  pub response_body_content_type : Option (RotoResponseData → Str)

pub data RotoProgram : Type 0 where
  metadata_only : RotoProgram
  compiled : (script_len : ℕ) (filter : CompiledRotoFilter) → RotoProgram

pub record CompiledFilter : Type 0 where
  pub definition : FilterDefinition
  pub priority : ℕ
  pub program : RotoProgram

unfoldable pub non_empty_roto_string : Str → Option Str
non_empty_roto_string value =
    let trimmed = trim_end (trim_start value) in if is_empty trimmed then none else some trimmed

-- `Path::file_stem`: the last component, up to its last dot, unless that is its first character.
abbrev pub dot_later : Option ℕ → Bool → Option ℕ
dot_later (some i) here = some (suc i)
dot_later none here = if here then some 0 else none

unfoldable pub last_dot : Str → Option ℕ
last_dot [] = none
last_dot (c ∷ s) = dot_later (last_dot s) (c == b'.')

abbrev pub stem_at : Option ℕ → Str → Str
stem_at none name = name
stem_at (some zero) name = name
stem_at (some (suc i)) name = take (suc i) name

unfoldable pub file_stem : PathBuf → Option Str
file_stem [] = none
file_stem (name ∷ []) =
    if str_eq name (codes "..") then none else some (stem_at (last_dot name) name)
file_stem (first ∷ next ∷ path) = file_stem (next ∷ path)

unfoldable pub filter_name : CompiledFilter → Str
filter_name filter =
    unwrap_or filter.definition.metadata.name
      (unwrap_or (file_stem filter.definition.path) (codes "unnamed"))

-- What an optional function of the script answers; none without the function.
abbrev pub ask : {D A : Type 0} → Option (D → A) → D → Option A
ask none data_ = none
ask (some function) data_ = some (function data_)

abbrev pub ask_non_empty : {D : Type 0} → Option (D → Str) → D → Option Str
ask_non_empty none data_ = none
ask_non_empty (some function) data_ = non_empty_roto_string (function data_)

-- The header that a script names, if it has both functions and the name is not empty.
abbrev pub named_header : Option Str → Option Str → Option (Str × Str)
named_header (some name) (some value) = some (name, value)
named_header _ _ = none

unfoldable pub marked_request : Str → CompiledRotoFilter → RotoRequestData → RequestAction
marked_request name filter data_ =
    let label = unwrap_or (ask_non_empty filter.request_mark data_) (codes "roto:" ++ name) in
    let marked =
      RequestBuilder.mark_color label (codes "green")
        (RequestBuilder.set_header (codes "x-inspect-roto-request-filter") name request_pass) in
    let with_header : RequestAction =
      elim (named_header (ask_non_empty filter.request_header_name data_)
        (ask filter.request_header_value data_)) [
          | none ↦ marked
          | some (header, value) ↦ RequestBuilder.set_header header value marked
        ] in
    elim (ask filter.request_body data_) [
      | none ↦ with_header
      | some body ↦
          RequestBuilder.set_body_text body (ask_non_empty filter.request_body_content_type data_)
            with_header
    ]

unfoldable pub marked_response : Str → CompiledRotoFilter → RotoResponseData → ResponseAction
marked_response name filter data_ =
    let label = unwrap_or (ask_non_empty filter.response_mark data_) (codes "roto-res:" ++ name) in
    let marked =
      ResponseBuilder.mark_color label (codes "green")
        (ResponseBuilder.set_header (codes "x-inspect-roto-response-filter") name response_pass) in
    let with_header : ResponseAction =
      elim (named_header (ask_non_empty filter.response_header_name data_)
        (ask filter.response_header_value data_)) [
          | none ↦ marked
          | some (header, value) ↦ ResponseBuilder.set_header header value marked
        ] in
    elim (ask filter.response_body data_) [
      | none ↦ with_header
      | some body ↦
          ResponseBuilder.set_body_text body (ask_non_empty filter.response_body_content_type data_)
            with_header
    ]

unfoldable pub run_connect_action : CompiledFilter → FilterConnect → Option ConnectAction
run_connect_action filter conn = elim filter.program [
  | metadata_only ↦ none
  | compiled script_len roto ↦ elim (ask roto.connect_action conn) [
    | none ↦ none
    | some action ↦ some (into_connect_action action)
  ]
]

unfoldable pub on_completed : CompiledFilter → CompletedAction
on_completed filter = completed_pass

module _ (regex_replace_all : Str → Option (Str → Str → Str))
    (apply_json_patch : Str → Str → Option Str) where
  unfoldable pub run_request : Str → CompiledRotoFilter → FilterRequest → RequestAction
  run_request name roto req =
      let data_ = from_filter_request req in
      elim (ask roto.request_action data_) [
        | some action ↦ into_request_action regex_replace_all apply_json_patch action req.body.text
        | none ↦ elim (ask roto.on_request data_) [
          | none ↦ request_pass
          | some wanted ↦ if wanted then marked_request name roto data_ else request_pass
        ]
      ]

  unfoldable pub on_request : CompiledFilter → FilterRequest → RequestAction
  on_request filter req = elim filter.program [
    | metadata_only ↦ RequestBuilder.mark_color (filter_name filter) (codes "green") (
        RequestBuilder.set_header (codes "x-inspect-request-filter") (filter_name filter)
          request_pass)
    | compiled script_len roto ↦ run_request (filter_name filter) roto req
  ]

  unfoldable pub run_response : Str → CompiledRotoFilter → FilterResponse → ResponseAction
  run_response name roto res =
      let data_ = from_filter_response res in
      elim (ask roto.response_action data_) [
        | some action ↦ into_response_action regex_replace_all apply_json_patch action res.body.text
        | none ↦ elim (ask roto.on_response data_) [
          | none ↦ response_pass
          | some wanted ↦ if wanted then marked_response name roto data_ else response_pass
        ]
      ]

  unfoldable pub on_response : CompiledFilter → FilterResponse → ResponseAction
  on_response filter res = elim filter.program [
    | metadata_only ↦
        ResponseBuilder.mark_color (codes "filtered:" ++ filter_name filter) (codes "green")
          (ResponseBuilder.set_header (codes "x-inspect-filter") (filter_name filter) response_pass)
    | compiled script_len roto ↦ run_response (filter_name filter) roto res
  ]
