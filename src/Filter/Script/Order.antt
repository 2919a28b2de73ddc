-- ===== src/Filter/Script/Order.antt =====
-- The script functions of src/filters/runtime.rs, and the order of the calls.
use inspect.Common.{
  ℕ, ◌≡◌, refl, ap, ◌∙◌, false, Option, none, some, List, [], ◌∷◌, ◌++◌, Str, to_utf8,
}
use inspect.Filter.Types.{RequestAction, FilterSyntheticResponse}
use inspect.Filter.Rewrite.{RotoBodyRewriteOp, Rewriting, apply_op, apply_ops}
use inspect.Filter.Action.{RotoRequestActionData, into_request_action, synthetic_of}
use inspect.Filter.Action.Laws.{bytes_after, request_body, into_request_action-rewrite}
use inspect.Filter.Merge.{merge_request_action}
use inspect.Filter.RequestScript

module _ (regex_replace_all : Str → Option (Str → Str → Str))
    (apply_json_patch : Str → Str → Option Str) where
  apply_ops-append :
      (ops : List RotoBodyRewriteOp) (op : RotoBodyRewriteOp) (s : Rewriting)
      → apply_ops regex_replace_all apply_json_patch (ops ++ (op ∷ [])) s
        ≡ apply_op regex_replace_all apply_json_patch op
            (apply_ops regex_replace_all apply_json_patch ops s)
  unfolding apply_ops
  apply_ops-append [] op s = refl
  apply_ops-append (first ∷ ops) op s =
      apply_ops-append ops op (apply_op regex_replace_all apply_json_patch first s)

  abbrev start : Str → Rewriting
  start text = record { body = text; content_type = none; changed = false }

  -- A rewriting operation that a request script adds works on what the operations before it made of the
  -- body: for an answer without a body of its own, the body of the request becomes the UTF-8 text of that.
  push_op-request :
      (op : RotoBodyRewriteOp) (data_ : RotoRequestActionData) (text : Str)
      → data_.body_text ≡ none
      → bytes_after
          (request_body
            (into_request_action regex_replace_all apply_json_patch
              (RequestScript.push_op op data_)
              (some text)).request)
          (to_utf8 text)
        ≡ to_utf8
            (apply_op regex_replace_all apply_json_patch op (
              apply_ops regex_replace_all apply_json_patch data_.body_rewrite_ops
                (record { body = text; content_type = none; changed = false }))).body
  unfolding RequestScript.push_op
  push_op-request op data_ text no_body =
      into_request_action-rewrite regex_replace_all apply_json_patch
        (RequestScript.push_op op data_) text no_body
      ∙ ap (λ s. to_utf8 s.body) (apply_ops-append data_.body_rewrite_ops op (start text))

  -- The answer of a script that gave a synthetic response, merged into any action, has this response and
  -- does not continue, whatever the script asked for before and whatever the body of the request is.
  synthetic_response-ends :
      (dst : RequestAction) (data_ : RotoRequestActionData) (original : Option Str) (status : ℕ)
      (body content_type : Str)
      → let action =
          into_request_action regex_replace_all apply_json_patch
            (RequestScript.synthetic_response status body content_type data_)
            original in
        ((merge_request_action dst action).continue_filters ≡ false)
        × ((response : FilterSyntheticResponse) × ((merge_request_action dst
                action).synthetic_response
              ≡ some response)
            × (response.status ≡ status)
            × (response.body ≡ to_utf8 body))
  unfolding RequestScript.synthetic_response into_request_action synthetic_of merge_request_action
  synthetic_response-ends dst data_ original status body content_type =
      (refl, (_, refl, refl, refl))
