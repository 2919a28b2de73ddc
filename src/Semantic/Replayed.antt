-- ===== src/Semantic/Replayed.antt =====
-- A change of a body that src/filters/engine/semantic/body_tree_sitter.rs turns into one replacement, as
-- apply_body_rewrite_ops of src/filters/runtime.rs does it to the original body.
use inspect.Common.{
  ℕ, suc, ◌≡◌, refl, sym, ap, ◌∙◌, Bool, true, false, Option, none, some, [], ◌∷◌, ◌++◌, Str, arith,
  length, is_empty, starts_with, contains-append, find, Bool-cases, inl, inr, one_later,
  starts_with-append, drop-length,
}
use inspect.Filter.Rewrite.{replace_text_once, replace_once, replace_if, present, apply_op}
use inspect.Semantic.{TextReplacement, single_text_replacement}
use inspect.Semantic.Cut.{single_text_replacement-cut}

one_later-some : (x : Option ℕ) (n : ℕ) → one_later x ≡ some (suc n) → x ≡ some n
one_later-some none n h = absurd (cc h)
one_later-some (some m) n h = ground arith

replace_once-found :
    (old new before behind : Str)
    → is_empty old ≡ false
    → find old (before ++ (old ++ behind)) ≡ some (length before)
    → replace_once old new (before ++ (old ++ behind)) ≡ before ++ (new ++ behind)
unfolding replace_once find
replace_once-found [] new before behind h k = absurd (cc h)
replace_once-found (o ∷ old) new [] behind h k =
    rw (starts_with-append (o ∷ old) behind) (ap (λ s. new ++ s) (drop-length (o ∷ old) behind))
replace_once-found (o ∷ old) new (c ∷ before) behind h k =
    let rest = before ++ ((o ∷ old) ++ behind) in
    elim (Bool-cases (starts_with (o ∷ old) (c ∷ rest))) [
      | inl here ↦
          let wrong : some 0 ≡ some (suc (length before)) = rw here at k in absurd (cc wrong)
      | inr later ↦
          let found : one_later (find (o ∷ old) rest) ≡ some (suc (length before)) =
            rw later at k in
          let first = one_later-some (find (o ∷ old) rest) (length before) found in
          rw later (ap (◌∷◌ c) (replace_once-found (o ∷ old) new before behind h first))
    ]

-- A change that became one replacement, done to the original body by the operation of the generated
-- filter, gives the edited body: the replaced text is not empty and has no earlier occurrence in the body.
pub apply_op-single_text_replacement :
    (regex_replace_all : Str → Option (Str → Str → Str)) (apply_json_patch : Str → Str → Option Str)
    (original edited : Str) (content_type : Option Str) (changed : Bool) (r : TextReplacement)
    → single_text_replacement original edited ≡ some r
    → is_empty r.old ≡ false
    → find r.old original ≡ some r.start
    → apply_op regex_replace_all apply_json_patch
        (replace_text_once r.old r.new)
        (record { body = original; content_type = content_type; changed = changed })
      ≡ record { body = edited; content_type = content_type; changed = true }
unfolding apply_op replace_if present
apply_op-single_text_replacement regex patch original edited content_type changed r h filled first =
    let (before, behind, o, e, size) = single_text_replacement-cut original edited r h in
    let at : find r.old (before ++ (r.old ++ behind)) ≡ some (length before) =
      ap (find r.old) (sym o) ∙ first ∙ ap some (sym size) in
    let there = contains-append r.old before behind in
    let done = replace_once-found r.old r.new before behind filled at in
    rw (o, filled, there, done, e) refl
