-- ===== src/Semantic/Tests.antt =====
-- src/filters/engine/semantic/body_tree_sitter.rs on concrete bodies.
use inspect.Common.{
  ◌≡◌, refl, Bool, true, false, Option, none, some, [], Str, codes, find, to_utf8, utf8_char,
  starts_with, contains,
}
use inspect.Filter.Rewrite.{
  Rewriting, apply_op, replace_text_once, replace_if, present, replace_once,
}
use inspect.Semantic.{
  TextReplacement, single_text_replacement, common_prefix_len, common_suffix_len, replacement_of,
}
use inspect.Semantic.Replayed.{apply_op-single_text_replacement}

abbrev no_regex : Str → Option (Str → Str → Str)
no_regex pattern = none

abbrev no_patch : Str → Str → Option Str
no_patch body patch = none

abbrev swapped : TextReplacement
swapped = record { start = 6; end = 9; old = codes "red"; new = codes "blue" }

abbrev rewriting : Str → Bool → Rewriting
rewriting body changed = record { body = body; content_type = none; changed = changed }

apply_op-single_text_replacement_example :
    apply_op no_regex no_patch
      (replace_text_once swapped.old swapped.new)
      (rewriting (codes "color=red;") false)
    ≡ rewriting (codes "color=blue;") true
unfolding single_text_replacement common_prefix_len common_suffix_len replacement_of find to_utf8
    utf8_char starts_with
apply_op-single_text_replacement_example =
    apply_op-single_text_replacement no_regex no_patch (codes "color=red;") (codes "color=blue;")
      none false swapped refl refl refl

-- A text that is only inserted replaces the empty text, which a filter never replaces.
insertion_replaces_nothing :
    single_text_replacement (codes "a=1") (codes "a=12")
    ≡ some (record { start = 3; end = 3; old = []; new = codes "2" })
unfolding single_text_replacement common_prefix_len common_suffix_len replacement_of to_utf8
    utf8_char
insertion_replaces_nothing = refl

insertion_is_not_done :
    apply_op no_regex no_patch (replace_text_once [] (codes "2")) (rewriting (codes "a=1") false)
    ≡ rewriting (codes "a=1") false
unfolding apply_op replace_if present
insertion_is_not_done = refl

-- A text that stands in the body before the place of the change is replaced there instead.
earlier_place :
    single_text_replacement (codes "x=1,y=1") (codes "x=1,y=2")
    ≡ some (record { start = 6; end = 7; old = codes "1"; new = codes "2" })
unfolding single_text_replacement common_prefix_len common_suffix_len replacement_of to_utf8
    utf8_char
earlier_place = refl

earlier_place_is_replaced :
    apply_op no_regex no_patch
      (replace_text_once (codes "1") (codes "2"))
      (rewriting (codes "x=1,y=1") false)
    ≡ rewriting (codes "x=2,y=1") true
unfolding apply_op replace_if present contains starts_with replace_once
earlier_place_is_replaced = refl
