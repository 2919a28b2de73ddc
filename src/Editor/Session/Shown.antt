-- ===== src/Editor/Session/Shown.antt =====
-- src/filters/editor.rs: the preview of a session and the filter it generates; what a session that is reset
-- generates.
use inspect.Common.{
  ℕ, ◌≡◌, ◌↔◌, refl, sym, Bool, true, false, Option, none, some, Str, Result, ok, err,
}
use inspect.Json.Patch.{JsonLib}
use inspect.Semantic.{BodyLanguage, BodyRewriteIntent, TextReplacement}
use inspect.Generator.{GeneratedFilter}
use inspect.Generator.Script.{to_roto_source}
use inspect.Editor.{EditableHttpMessage, EditableHttpMessageKind, request, response}
use inspect.Editor.RoundTrip.{IsEditable}
use inspect.Editor.Changes.{diff, has_changes}
use inspect.Editor.Changes.Unchanged.{Consistent, has_changes_self}
use inspect.Editor.Generate.Extract.{
  extract_request_filter_from_edit, extract_response_filter_from_edit,
}
use inspect.Editor.Session.{
  EditableFilterSession, of_request, of_response, EditableFilterSessionError, no_changes,
  original_of, edited_message, edited_text_of, ok_or_no_changes, reset,
}
use inspect.Editor.Session.Preview.{
  request_session_filter, response_session_filter, generate_filter, preview, preview_of,
  generated_preview,
}
use inspect.Editor.Session.Lifecycle.{edited_message-reset}
use inspect.Editor.Session.Outcomes.{IsSession, generate_filter-Verdict}

iff_trans : {A B C : Type 0} → (A ↔ B) → (B ↔ C) → (A ↔ C)
iff_trans h k = (λ a. k.0 (h.0 a), λ c. h.1 (k.1 c))

abbrev pub script_of : JsonLib → Result EditableFilterSessionError GeneratedFilter → Option Str
script_of lib (ok filter) = some (to_roto_source lib filter)
script_of lib (err e) = none

module _ (lib : JsonLib)
    (syntax_anchor : BodyLanguage → Str → TextReplacement → Option BodyRewriteIntent)
    (to_lowercase : ℕ → Str) (debug : Str → Str) (uuid : Str) where
  request-unchanged :
      (name : Str) (original edited : EditableHttpMessage) (k k' : EditableHttpMessageKind)
      → original.kind ≡ k
      → edited.kind ≡ k'
      → has_changes (diff original edited) ≡ false
      → script_of lib
          (request_session_filter lib syntax_anchor to_lowercase debug uuid name original edited)
        ≡ none
  unfolding request_session_filter extract_request_filter_from_edit ok_or_no_changes
  request-unchanged name original edited k response p q e = rw q refl
  request-unchanged name original edited request request p q e = rw (p, q, e) refl
  request-unchanged name original edited response request p q e = rw (q, p) refl

  response-unchanged :
      (name : Str) (request_context original edited : EditableHttpMessage)
      (k k' : EditableHttpMessageKind) (status : Option ℕ)
      → original.kind ≡ k
      → edited.kind ≡ k'
      → edited.status ≡ status
      → has_changes (diff original edited) ≡ false
      → script_of lib (
          response_session_filter lib syntax_anchor to_lowercase debug uuid name request_context
            original edited)
        ≡ none
  unfolding response_session_filter extract_response_filter_from_edit ok_or_no_changes
  response-unchanged name context original edited k request status p q s e = rw q refl
  response-unchanged name context original edited k response none p q s e = rw (q, s) refl
  response-unchanged name context original edited response response (some n) p q s e =
      rw (q, s, p, q, e) refl
  response-unchanged name context original edited request response (some n) p q s e =
      rw (q, s, p) refl

  unchanged-none :
      (s : EditableFilterSession) (edited : EditableHttpMessage)
      → edited_message s ≡ ok edited
      → has_changes (diff (original_of s) edited) ≡ false
      → script_of lib (generate_filter lib syntax_anchor to_lowercase debug uuid s) ≡ none
  unfolding generate_filter edited_message original_of edited_text_of
  unchanged-none (of_request name original edited_text) edited h e =
      rw h (request-unchanged name original edited _ _ refl refl e)
  unchanged-none (of_response name context original edited_text) edited h e =
      rw h (response-unchanged name context original edited _ _ _ refl refl refl e)

  failed-none :
      (s : EditableFilterSession) (e : EditableFilterSessionError)
      → edited_message s ≡ err e
      → script_of lib (generate_filter lib syntax_anchor to_lowercase debug uuid s) ≡ none
  unfolding generate_filter edited_message original_of edited_text_of
  failed-none (of_request name original edited_text) e h = rw h refl
  failed-none (of_response name context original edited_text) e h = rw h refl

  generated_preview-script :
      (t : Str) (r : Result EditableFilterSessionError GeneratedFilter)
      → (generated_preview lib syntax_anchor to_lowercase debug uuid t r).generated_roto
        ≡ script_of lib r
  unfolding generated_preview
  generated_preview-script t (ok filter) = refl
  generated_preview-script t (err e) = refl

  preview_of-script :
      (s : EditableFilterSession) (edited : EditableHttpMessage) (changed : Bool)
      → edited_message s ≡ ok edited
      → has_changes (diff (original_of s) edited) ≡ changed
      → (preview_of lib syntax_anchor to_lowercase debug uuid s edited).generated_roto
        ≡ script_of lib (generate_filter lib syntax_anchor to_lowercase debug uuid s)
  unfolding preview_of
  preview_of-script s edited true h e = rw e (generated_preview-script _ _)
  preview_of-script s edited false h e = rw e (sym (unchanged-none s edited h e))

  preview-script :
      (s : EditableFilterSession) (r : Result EditableFilterSessionError EditableHttpMessage)
      → edited_message s ≡ r
      → (preview lib syntax_anchor to_lowercase debug uuid s).generated_roto
        ≡ script_of lib (generate_filter lib syntax_anchor to_lowercase debug uuid s)
  unfolding preview
  preview-script s (err e) h = rw (preview, h) (sym (failed-none s e h))
  preview-script s (ok edited) h = rw (preview, h) (preview_of-script s edited _ h refl)

  -- The preview shows a script exactly when the session generates a filter, and it is the script of that
  -- filter.
  pub preview-generate_filter :
      (s : EditableFilterSession)
      → (preview lib syntax_anchor to_lowercase debug uuid s).generated_roto
        ≡ script_of lib (generate_filter lib syntax_anchor to_lowercase debug uuid s)
  preview-generate_filter s = preview-script s _ refl

  -- A session that is reset generates no filter, for it has no changes, exactly when every header of its
  -- original message has the value of the first header of its name. The fields of the message are such
  -- that they can be edited.
  pub generate_filter-reset :
      (s : EditableFilterSession)
      → IsSession s
      → IsEditable (original_of s)
      → (generate_filter lib syntax_anchor to_lowercase debug uuid (reset s) ≡ err no_changes)
        ↔ Consistent (original_of s)
  unfolding original_of reset
  generate_filter-reset (of_request name original edited_text) h k =
      let s = of_request name original edited_text in
      let e = edited_message-reset s k in
      iff_trans
        (generate_filter-Verdict lib syntax_anchor to_lowercase debug uuid (reset s) original h e
          h).1
        (has_changes_self original)
  generate_filter-reset (of_response name context original edited_text) h k =
      let s = of_response name context original edited_text in
      let e = edited_message-reset s k in
      iff_trans
        (generate_filter-Verdict lib syntax_anchor to_lowercase debug uuid (reset s) original h e
          h).1
        (has_changes_self original)
