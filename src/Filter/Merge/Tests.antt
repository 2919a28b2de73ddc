-- ===== src/Filter/Merge/Tests.antt =====
-- Actions merged, and the marks of a flow, for the modules of Filter.Merge.
use inspect.Common.{◌≡◌, refl, true, false, none, some, List, [], ◌∷◌, codes, foldl}
use inspect.Filter.Types.{
  RequestAction, ResponseAction, connect_pass, request_pass, response_pass, connect_reject,
}
use inspect.Filter.Merge.{
  merge_request_action, merge_connect_action, flow_marks_from_request_action,
}
use inspect.Filter.Merge.Laws.{merge_request_action_bypass}

abbrev tagged : RequestAction
tagged = record request_pass {
  marks = record { label = codes "m"; color = none } ∷ [];
  tags = codes "t" ∷ [];
  notes = codes "n" ∷ [];
  bypass_upstream_proxy = true;
}

runs :
    (flow_marks_from_request_action tagged
      ≡ record { label = codes "m"; color = none }
        ∷ record { label = codes "t"; color = some (codes "green") }
        ∷ record { label = codes "n"; color = some (codes "blue") }
        ∷ [])
    × ((merge_connect_action (connect_reject connect_pass 403) connect_pass).reject_status
        ≡ some 403)
unfolding flow_marks_from_request_action merge_connect_action connect_reject
runs = (refl, refl)

abbrev requests : List RequestAction
requests = tagged ∷ record request_pass { drop_client_response = true } ∷ []

abbrev responses : List ResponseAction
responses = record response_pass { tags = codes "t" ∷ [] } ∷ response_pass ∷ []

merge_request_action_bypass_example :
    (foldl merge_request_action request_pass requests).bypass_upstream_proxy ≡ false
merge_request_action_bypass_example = merge_request_action_bypass request_pass requests
