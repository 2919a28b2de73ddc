-- ===== src/Editor/Session/Outcomes.antt =====
-- src/filters/editor.rs: when a session generates a filter, which error it returns otherwise, and what its
-- preview shows.
use inspect.Common.{
  ℕ, ◌≡◌, ◌↔◌, refl, Bool, true, false, Option, none, some, Str, Result, ok, err, is_some,
}
use inspect.Json.Patch.{JsonLib}
use inspect.Semantic.{BodyLanguage, BodyRewriteIntent, TextReplacement}
use inspect.Generator.{GeneratedFilter}
use inspect.Editor.{EditableHttpMessage, request, response}
use inspect.Editor.Changes.{diff, has_changes, to_response_input}
use inspect.Editor.Generate.Extract.{
  extract_request_filter_from_edit, extract_response_filter_from_edit,
}
use inspect.Editor.Session.{
  EditableFilterSession, of_request, of_response, EditableFilterSessionError, no_changes,
  original_of, edited_message, edited_text_of,
}
use inspect.Editor.Session.Preview.{
  request_session_filter, response_session_filter, generate_filter,
}

-- The original message of a session is a request, or a response with a status.
abbrev pub IsSession : EditableFilterSession → Type 0
IsSession (of_request name original edited_text) = original.kind ≡ request
IsSession (of_response name request_context original edited_text) =
    (original.kind ≡ response) × (is_some original.status ≡ true)

-- The edited message is of the kind of the session, and has a status if it is a response.
abbrev pub Fits : EditableFilterSession → EditableHttpMessage → Type 0
Fits (of_request name original edited_text) edited = edited.kind ≡ request
Fits (of_response name request_context original edited_text) edited =
    (edited.kind ≡ response) × (is_some edited.status ≡ true)

abbrev pub IsOk : Result EditableFilterSessionError GeneratedFilter → Type 0
IsOk (ok filter) = Unit {0}
IsOk (err e) = ⊥

-- A filter if there are changes, and otherwise the error that says so.
abbrev pub Verdict : Bool → Result EditableFilterSessionError GeneratedFilter → Type 0
Verdict changed r = (IsOk r ↔ (changed ≡ true)) × ((r ≡ err no_changes) ↔ (changed ≡ false))

Verdict-true : (filter : GeneratedFilter) → Verdict true (ok filter)
Verdict-true filter = ((λ _. refl, λ _. tt), (λ e. absurd (cc e), λ e. absurd (cc e)))

Verdict-false : Verdict false (err no_changes)
Verdict-false = ((λ e. absurd e, λ e. absurd (cc e)), (λ _. refl, λ _. refl))

is_some-some : (o : Option ℕ) → is_some o ≡ true → (n : ℕ) × (o ≡ some n)
is_some-some none h = absurd (cc h)
is_some-some (some n) h = (n, refl)

module _ (lib : JsonLib)
    (syntax_anchor : BodyLanguage → Str → TextReplacement → Option BodyRewriteIntent)
    (to_lowercase : ℕ → Str) (debug : Str → Str) (uuid : Str) where
  request-outcome :
      (name : Str) (original edited : EditableHttpMessage) (changed : Bool)
      → original.kind ≡ request
      → edited.kind ≡ request
      → has_changes (diff original edited) ≡ changed
      → Verdict changed
          (request_session_filter lib syntax_anchor to_lowercase debug uuid name original edited)
  unfolding request_session_filter extract_request_filter_from_edit
  request-outcome name original edited true h k e = rw (h, k, e) (Verdict-true _)
  request-outcome name original edited false h k e = rw (h, k, e) Verdict-false

  response-outcome :
      (name : Str) (request_context original edited : EditableHttpMessage) (status status' : ℕ)
      (changed : Bool)
      → original.kind ≡ response
      → original.status ≡ some status
      → edited.kind ≡ response
      → edited.status ≡ some status'
      → has_changes (diff original edited) ≡ changed
      → Verdict changed (
          response_session_filter lib syntax_anchor to_lowercase debug uuid name request_context
            original edited)
  unfolding response_session_filter extract_response_filter_from_edit to_response_input
  response-outcome name request_context original edited status status' true h i k l e =
      rw (k, l, h, k, e, i, l) (Verdict-true _)
  response-outcome name request_context original edited status status' false h i k l e =
      rw (k, l, h, k, e) Verdict-false

  -- What a session answers: a filter exactly when the edited message has changes, and the error that there
  -- are none exactly when it has none, if the edited text is read as a message of the kind of the session
  -- (with a status in a response).
  pub generate_filter-Verdict :
      (s : EditableFilterSession) (edited : EditableHttpMessage)
      → IsSession s
      → edited_message s ≡ ok edited
      → Fits s edited
      → Verdict
          (has_changes (diff (original_of s) edited))
          (generate_filter lib syntax_anchor to_lowercase debug uuid s)
  unfolding generate_filter edited_message original_of edited_text_of
  generate_filter-Verdict (of_request name original edited_text) edited h e fits =
      rw e (request-outcome name original edited _ h fits refl)
  generate_filter-Verdict (of_response name request_context original edited_text) edited h e fits =
      let (status, i) = is_some-some original.status h.1 in
      let (status', l) = is_some-some edited.status fits.1 in
      rw e
        (response-outcome name request_context original edited status status' _ h.0 i fits.0 l refl)
