-- ===== src/Editor/Session/Lifecycle.antt =====
-- src/filters/editor.rs: sessions that are fresh or reset, and what a session generates.
use inspect.Common.{arith, ◌≡◌, ◌↔◌, refl, ap, false, ok}
use inspect.Editor.RoundTrip.{IsEditable}
use inspect.Editor.RoundTrip.Whole.{parse_edit_text-to_edit_text}
use inspect.Editor.Changes.Unchanged.{Consistent, has_changes_self}
use inspect.Editor.Session.{
  EditableFilterSession, of_request, of_response, reset, original_of, or_session_error,
  edited_message, session_diff, session_has_changes, edited_text_of,
}

-- The text of a session that is reset is read as the original message.
pub edited_message-reset :
    (s : EditableFilterSession)
    → IsEditable (original_of s)
    → edited_message (reset s) ≡ ok (original_of s)
unfolding edited_message reset original_of edited_text_of or_session_error
edited_message-reset (of_request name original edited_text) h =
    rw (parse_edit_text-to_edit_text original h) refl
edited_message-reset (of_response name request_context original edited_text) h =
    rw (parse_edit_text-to_edit_text original h) refl

pub original_of-reset : (s : EditableFilterSession) → original_of (reset s) ≡ original_of s
unfolding original_of reset
original_of-reset (of_request name original edited_text) = refl
original_of-reset (of_response name request_context original edited_text) = refl

-- A session that is reset has no changes exactly when every header of the original message has the value of
-- the first header of its name; the fields of the message are such that they can be edited.
pub session_has_changes-reset :
    (s : EditableFilterSession)
    → IsEditable (original_of s)
    → (session_has_changes (reset s) ≡ ok false) ↔ Consistent (original_of s)
unfolding session_has_changes session_diff
session_has_changes-reset s h =
    let (forth, back) = has_changes_self (original_of s) in
    rw (edited_message-reset s h, original_of-reset s)
      (λ e. forth (ground arith), λ c. ap ok (back c))
