-- ===== src/Filter/Action/Laws.antt =====
-- into_request_action and into_response_action of src/filters/runtime.rs: the body that is sent
-- on.
use inspect.Common.{◌≡◌, refl, ap, ◌∙◌, arith, false, Option, none, some, Str, Bytes, to_utf8}
use inspect.Filter.Types.{FilterRequestPatch, FilterResponsePatch, FilterBodyPatch}
use inspect.Filter.Rewrite.{AppliedBodyRewrite, apply_ops, apply_body_rewrite_ops}
use inspect.Filter.Rewrite.Laws.{text_after, apply_body_rewrite_ops_lem}
use inspect.Filter.Action.{
  RotoRequestActionData, RotoResponseActionData, into_request_action, into_response_action,
  request_patch, response_patch, body_patch,
}

-- The body that is sent on, for a patch of it.
abbrev pub bytes_after : Option FilterBodyPatch → Bytes → Bytes
bytes_after none bytes = bytes
bytes_after (some patch) bytes = patch.bytes

abbrev pub request_body : Option FilterRequestPatch → Option FilterBodyPatch
request_body none = none
request_body (some patch) = patch.body

abbrev pub response_body : Option FilterResponsePatch → Option FilterBodyPatch
response_body none = none
response_body (some patch) = patch.body

body_patch-none :
    (content_type : Option Str) (rewrite : Option AppliedBodyRewrite) (text : Str)
    → bytes_after (body_patch none content_type rewrite) (to_utf8 text)
      ≡ to_utf8 (text_after rewrite text)
unfolding body_patch
body_patch-none content_type none text = refl
body_patch-none content_type (some rewrite) text = refl

-- The patch has the body of `body_patch`, and is left out only if that is none.
request_patch-body :
    (data_ : RotoRequestActionData) (rewrite : Option AppliedBodyRewrite)
    → request_body (request_patch data_ rewrite)
      ≡ body_patch data_.body_text data_.body_content_type rewrite
unfolding request_patch body_patch
request_patch-body data_ rewrite = ground arith

response_patch-body :
    (data_ : RotoResponseActionData) (rewrite : Option AppliedBodyRewrite)
    → response_body (response_patch data_ rewrite)
      ≡ body_patch data_.body_text data_.body_content_type rewrite
unfolding response_patch body_patch
response_patch-body data_ rewrite = ground arith

module _ (regex_replace_all : Str → Option (Str → Str → Str))
    (apply_json_patch : Str → Str → Option Str) where
  -- A script's answer for a request that sets no body gives an action after which the body is the UTF-8
  -- text that all its rewriting operations, in their order, make of the original text; with a patch of the
  -- body or, where no operation changed anything, without one.
  pub into_request_action-rewrite :
      (data_ : RotoRequestActionData) (text : Str)
      → data_.body_text ≡ none
      → bytes_after
          (request_body
            (into_request_action regex_replace_all apply_json_patch data_ (some text)).request)
          (to_utf8 text)
        ≡ to_utf8
            (apply_ops regex_replace_all apply_json_patch data_.body_rewrite_ops
              (record { body = text; content_type = none; changed = false })).body
  unfolding into_request_action
  into_request_action-rewrite data_ text no_body =
      let rewrite =
        apply_body_rewrite_ops regex_replace_all apply_json_patch (some text)
          data_.body_rewrite_ops in
      ap (λ p. bytes_after p (to_utf8 text))
        (request_patch-body data_ rewrite
          ∙ ap (λ b. body_patch b data_.body_content_type rewrite) no_body)
      ∙ body_patch-none data_.body_content_type rewrite text
      ∙ ap to_utf8 (
          apply_body_rewrite_ops_lem regex_replace_all apply_json_patch text data_.body_rewrite_ops)

  -- A script's answer for a response that sets no body gives an action after which the body is the UTF-8
  -- text that all its rewriting operations, in their order, make of the original text; with a patch of the
  -- body or, where no operation changed anything, without one.
  into_response_action-rewrite :
      (data_ : RotoResponseActionData) (text : Str)
      → data_.body_text ≡ none
      → bytes_after
          (response_body
            (into_response_action regex_replace_all apply_json_patch data_ (some text)).response)
          (to_utf8 text)
        ≡ to_utf8
            (apply_ops regex_replace_all apply_json_patch data_.body_rewrite_ops
              (record { body = text; content_type = none; changed = false })).body
  unfolding into_response_action
  into_response_action-rewrite data_ text no_body =
      let rewrite =
        apply_body_rewrite_ops regex_replace_all apply_json_patch (some text)
          data_.body_rewrite_ops in
      ap (λ p. bytes_after p (to_utf8 text))
        (response_patch-body data_ rewrite
          ∙ ap (λ b. body_patch b data_.body_content_type rewrite) no_body)
      ∙ body_patch-none data_.body_content_type rewrite text
      ∙ ap to_utf8 (
          apply_body_rewrite_ops_lem regex_replace_all apply_json_patch text data_.body_rewrite_ops)
