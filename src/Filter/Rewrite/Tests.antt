-- ===== src/Filter/Rewrite/Tests.antt =====
-- Rewrites of concrete bodies, for the modules of Filter.Rewrite.
use inspect.Common.{
  ◌≡◌, refl, Option, none, some, List, [], ◌∷◌, Str, codes, str_eq, map, starts_with, contains,
  is_blank, is_whitespace, if◌then◌else◌,
}
use inspect.Filter.Rewrite.{
  replace_text_once, replace_text_all, replace_regex, replace_js_property, apply_json_patch_op,
  replace_once, replace_from, replace_all, present, replace_if, apply_op, apply_ops, rewritten,
  apply_body_rewrite_ops,
}
use inspect.Filter.Rewrite.Laws.{text_after}
use inspect.Filter.Rewrite.Rounds.{Rounds, all_op, apply_body_rewrite_ops-Rounds}

-- An engine that knows the one pattern `.`, which it replaces in every body by the replacement.
abbrev any_character : Str → Option (Str → Str → Str)
any_character pattern =
    if str_eq pattern (codes ".") then some (λ body replacement. replacement) else none

abbrev patched : Str → Str → Option Str
patched body patch_json = some patch_json

runs :
    (apply_body_rewrite_ops any_character patched
        (some (codes "a-b-c"))
        (replace_text_once (codes "-") (codes "+") ∷ [])
      ≡ some (record { body = codes "a+b-c"; content_type = none }))
    × (apply_body_rewrite_ops any_character patched
          (some (codes "aaa"))
          (replace_text_all (codes "aa") (codes "b") ∷ [])
        ≡ some (record { body = codes "ba"; content_type = none }))
    × (apply_body_rewrite_ops any_character patched
          (some (codes "x"))
          (replace_regex (codes "(") (codes "y") ∷ [])
        ≡ none)
    × (apply_body_rewrite_ops any_character patched (some (codes "{}")) (
          apply_json_patch_op (codes "[]") (codes "application/json")
          ∷ replace_js_property (codes "k") (codes "[") (codes "<")
          ∷ [])
        ≡ some (record { body = codes "[]"; content_type = some (codes "application/json") }))
unfolding apply_body_rewrite_ops apply_ops apply_op rewritten replace_if present replace_once
    replace_all replace_from starts_with contains str_eq is_blank is_whitespace
runs = (refl, refl, refl, refl)

abbrev pairs : List (Str × Str)
pairs = (codes "aa", codes "b") ∷ ([], codes "x") ∷ (codes "ba", codes "c") ∷ []

apply_body_rewrite_ops-Rounds_example : Rounds pairs (codes "aaa") (
    text_after
      (apply_body_rewrite_ops any_character patched (some (codes "aaa")) (map all_op pairs))
      (codes "aaa"))
apply_body_rewrite_ops-Rounds_example =
    apply_body_rewrite_ops-Rounds any_character patched pairs (codes "aaa")
