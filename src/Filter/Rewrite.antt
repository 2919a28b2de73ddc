-- ===== src/Filter/Rewrite.antt =====
-- src/filters/runtime.rs, the operations by which a filter rewrites a body, and `apply_body_rewrite_ops`.
-- The engine for regular expressions and the JSON patches are parameters: `regex_replace_all` is none
-- for a pattern that does not compile, `apply_json_patch` is none for a patch that fails.
pub mod Laws
mod Rounds
mod Tests
use inspect.Common.{
  ℕ, zero, suc, ◌-◌, Bool, true, false, not, ◌&&◌, ◌||◌, Option, none, some, List, [], ◌∷◌, ◌++◌,
  Str, str_eq, starts_with, contains, is_empty, is_blank, length, drop, if◌then◌else◌,
}

pub data RotoBodyRewriteOp : Type 0 where
  replace_text_once : (old new : Str) → RotoBodyRewriteOp
  replace_text_all : (old new : Str) → RotoBodyRewriteOp
  replace_regex : (pattern replacement : Str) → RotoBodyRewriteOp
  replace_text_when_contains : (anchor old new : Str) → RotoBodyRewriteOp
  replace_js_property : (property old new : Str) → RotoBodyRewriteOp
  replace_css_declaration : (property old new : Str) → RotoBodyRewriteOp
  replace_html_attribute : (selector attribute old new : Str) → RotoBodyRewriteOp
  apply_json_patch_op : (patch_json content_type : Str) → RotoBodyRewriteOp

pub record AppliedBodyRewrite : Type 0 where
  pub body : Str
  pub content_type : Option Str

-- The variables of the loop: the result so far, and whether an operation changed it.
pub record Rewriting : Type 0 where
  pub body : Str
  pub content_type : Option Str
  pub changed : Bool

-- `replacen(old, new, 1)`, for a text `old` that is not empty.
unfoldable pub replace_once : Str → Str → Str → Str
replace_once old new [] = []
replace_once old new (c ∷ s) =
    let later = replace_once old new s in
    if starts_with old (c ∷ s) then new ++ drop (length old) (c ∷ s) else c ∷ later

-- `replace(old, new)`, for a text `old` that is not empty; `skip` characters belong to an occurrence
-- that is replaced already.
unfoldable pub replace_from : ℕ → Str → Str → Str → Str
replace_from skip old new [] = []
replace_from (suc skip) old new (c ∷ s) = replace_from skip old new s
replace_from zero old new (c ∷ s) =
    let behind = replace_from (length old - 1) old new s in
    let later = replace_from zero old new s in
    if starts_with old (c ∷ s) then new ++ behind else c ∷ later

unfoldable pub replace_all : Str → Str → Str → Str
replace_all old new body = replace_from 0 old new body

-- The branches that replace the first occurrence, if the texts in `anchors` and `old` are not empty and
-- stand in the body.
unfoldable pub present : Str → Str → Bool
present body part = not (is_empty part) && contains part body

unfoldable pub replace_if : Bool → Str → Str → Rewriting → Rewriting
replace_if guard old new s =
    if guard then record s { body = replace_once old new s.body; changed = true } else s

-- `changed.then_some(..)`.
unfoldable pub rewritten : Rewriting → Option AppliedBodyRewrite
rewritten s =
    if s.changed then some (record { body = s.body; content_type = s.content_type }) else none

module _ (regex_replace_all : Str → Option (Str → Str → Str))
    (apply_json_patch : Str → Str → Option Str) where
  -- One round of the loop.
  unfoldable pub apply_op : RotoBodyRewriteOp → Rewriting → Rewriting
  apply_op (replace_text_once old new) s = replace_if (present s.body old) old new s
  apply_op (replace_text_all old new) s =
      if present s.body old
      then record s { body = replace_all old new s.body; changed = true }
      else s
  apply_op (replace_regex pattern replacement) s = elim (regex_replace_all pattern) [
    | none ↦ s
    | some replace ↦
        let next = replace s.body replacement in
        if str_eq next s.body then s else record s { body = next; changed = true }
  ]
  apply_op (replace_text_when_contains anchor old new) s =
      replace_if (present s.body anchor && present s.body old) old new s
  apply_op (replace_js_property property old new) s =
      replace_if (present s.body property && present s.body old) old new s
  apply_op (replace_css_declaration property old new) s =
      replace_if (present s.body property && present s.body old) old new s
  apply_op (replace_html_attribute selector attribute old new) s =
      replace_if (present s.body selector && present s.body attribute && present s.body old) old new
        s
  apply_op (apply_json_patch_op patch_json content_type) s =
      elim (apply_json_patch s.body patch_json) [
        | none ↦ s
        | some next ↦ if str_eq next s.body then s else record s {
          body = next;
          changed = true;
          content_type = if is_blank content_type then s.content_type else some content_type;
        }
      ]

  unfoldable pub apply_ops : List RotoBodyRewriteOp → Rewriting → Rewriting
  apply_ops [] s = s
  apply_ops (op ∷ ops) s = apply_ops ops (apply_op op s)

  unfoldable pub apply_body_rewrite_ops :
      Option Str → List RotoBodyRewriteOp → Option AppliedBodyRewrite
  apply_body_rewrite_ops original [] = none
  apply_body_rewrite_ops none (op ∷ ops) = none
  apply_body_rewrite_ops (some text) (op ∷ ops) =
      rewritten
        (apply_ops (op ∷ ops) (record { body = text; content_type = none; changed = false }))
