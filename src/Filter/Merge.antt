-- ===== src/Filter/Merge.antt =====
-- src/mitm/flow/filter_bridge.rs, how the actions of several filters become one, and the marks of a flow.
mod Laws
mod Tests
use inspect.Common.{
  ℕ, Bool, true, false, ◌||◌, Option, none, some, List, [], ◌∷◌, ◌++◌, map, Str, codes, is_some,
  or_else, if◌then◌else◌,
}
use inspect.Filter.Types.{FilterMark, ConnectAction, RequestAction, ResponseAction}

-- src/mitm/flow/flow_event.rs.
pub record FlowMark : Type 0 where
  pub label : Str
  pub color : Option Str

abbrev pub own_mark : FilterMark → FlowMark
own_mark mark = record { label = mark.label; color = mark.color }

abbrev pub colored : Str → Str → FlowMark
colored color label = record { label = label; color = some color }

unfoldable pub flow_marks_from_request_action : RequestAction → List FlowMark
flow_marks_from_request_action action =
    map own_mark action.marks
    ++ (map (colored (codes "green")) action.tags ++ map (colored (codes "blue")) action.notes)

unfoldable pub flow_marks_from_response_action : ResponseAction → List FlowMark
flow_marks_from_response_action action =
    map own_mark action.marks
    ++ (map (colored (codes "green")) action.tags ++ map (colored (codes "blue")) action.notes)

unfoldable pub flow_marks_from_connect_action : ConnectAction → List FlowMark
flow_marks_from_connect_action action = map own_mark action.marks

unfoldable pub merge_request_action : RequestAction → RequestAction → RequestAction
merge_request_action dst src = record dst {
  request = or_else src.request dst.request;
  synthetic_response = or_else src.synthetic_response dst.synthetic_response;
  continue_filters = if is_some src.synthetic_response then false else src.continue_filters;
  drop_client_response = dst.drop_client_response || src.drop_client_response;
  marks = dst.marks ++ src.marks;
  tags = dst.tags ++ src.tags;
  notes = dst.notes ++ src.notes;
  outbound_http = dst.outbound_http ++ src.outbound_http;
}

unfoldable pub merge_response_action : ResponseAction → ResponseAction → ResponseAction
merge_response_action dst src = record dst {
  response = or_else src.response dst.response;
  marks = dst.marks ++ src.marks;
  tags = dst.tags ++ src.tags;
  notes = dst.notes ++ src.notes;
  outbound_http = dst.outbound_http ++ src.outbound_http;
  continue_filters = src.continue_filters;
  drop_client_response = dst.drop_client_response || src.drop_client_response;
}

unfoldable pub merge_connect_action : ConnectAction → ConnectAction → ConnectAction
merge_connect_action dst src = record dst {
  marks = dst.marks ++ src.marks;
  drop_tunnel = if src.drop_tunnel then true else dst.drop_tunnel;
  reject_status = or_else src.reject_status dst.reject_status;
  continue_filters = src.continue_filters;
}
