-- ===== src/Filter/Rewrite/Laws.antt =====
-- apply_body_rewrite_ops of src/filters/runtime.rs: the replacements of text, and the report of
-- a change.
use inspect.Common.{
  ℕ, zero, suc, ◌-◌, ◌≤◌, ◌≡◌, ◌≢◌, refl, ap, sym, ◌∙◌, arith, Bool, true, false, ◌||◌, Option,
  none, some, List, [], ◌∷◌, ◌++◌, Str, starts_with, contains, length, length-drop, drop, inl, inr,
  Bool-cases,
}
use inspect.Filter.Rewrite.{
  RotoBodyRewriteOp, replace_text_once, replace_text_all, replace_regex, replace_text_when_contains,
  replace_js_property, replace_css_declaration, replace_html_attribute, apply_json_patch_op,
  Rewriting, AppliedBodyRewrite, replace_once, replace_from, replace_all, replace_if, apply_op,
  apply_ops, rewritten, apply_body_rewrite_ops,
}

starts_with-split : (part s : Str) → starts_with part s ≡ true → s ≡ part ++ drop (length part) s
unfolding starts_with
starts_with-split [] s h = refl
starts_with-split (p ∷ part) [] h = cc
starts_with-split (p ∷ part) (c ∷ s) h = ground (arith, starts_with-split part s)

starts_with_shorter :
    (part x y : Str) → starts_with part (x ++ y) ≡ false → starts_with part x ≡ false
unfolding starts_with
starts_with_shorter [] x y h = h
starts_with_shorter (p ∷ part) [] y h = refl
starts_with_shorter (p ∷ part) (c ∷ x) y h = ground (arith, starts_with_shorter part x y)

or_false : {a : Bool} → a ≡ false → (a || false) ≡ false
or_false h = rw h refl

-- A body that holds a text is cut in three by it, and replacing the first occurrence puts the new text
-- in the middle; in front of it the text does not occur.
replace_once_lem :
    (old new body : Str)
    → old ≢ []
    → contains old body ≡ true
    → (before after : Str) × (body ≡ before ++ (old ++ after))
      × (replace_once old new body ≡ before ++ (new ++ after))
      × (contains old before ≡ false)
unfolding replace_once contains starts_with
replace_once_lem [] new body ne h = absurd (ne refl)
replace_once_lem (o ∷ old) new [] ne h = cc
replace_once_lem (o ∷ old) new (c ∷ s) ne h = elim (Bool-cases (starts_with (o ∷ old) (c ∷ s))) [
  | inl here ↦ (
    [],
    drop (length (o ∷ old)) (c ∷ s),
    starts_with-split (o ∷ old) (c ∷ s) here,
    rw here refl,
    refl,
  )
  | inr later ↦
      let more : contains (o ∷ old) s ≡ true = ground (arith, h, later) in
      let (before, after, cut, put, free) = replace_once_lem (o ∷ old) new s ne more in
      let whole : c ∷ s ≡ c ∷ (before ++ ((o ∷ old) ++ after)) = ap (◌∷◌ c) cut in
      (
        c ∷ before,
        after,
        whole,
        rw later (ap (◌∷◌ c) put),
        rw free (
            or_false (
              starts_with_shorter (o ∷ old) (c ∷ before) ((o ∷ old) ++ after)
                (ap (starts_with (o ∷ old)) (sym whole) ∙ later))),
      )
]

-- The outcome of replacing every occurrence from the left, none overlapping another.
pub data Replaced (old new : Str) : Str → Str → Type 0 where
  done : Replaced old new [] []
  keep :
      (c : ℕ) {s t : Str}
      → starts_with old (c ∷ s) ≡ false
      → Replaced old new s t
      → Replaced old new (c ∷ s) (c ∷ t)
  hit : {s t : Str} → Replaced old new s t → Replaced old new (old ++ s) (new ++ t)

replace_from-skip :
    (old new part s : Str)
    → replace_from (length part) old new (part ++ s) ≡ replace_from 0 old new s
unfolding replace_from
replace_from-skip old new [] s = refl
replace_from-skip old new (p ∷ part) s = replace_from-skip old new part s

Replaced-along :
    {old new : Str} (s t s' t' : Str)
    → s ≡ s'
    → t ≡ t'
    → Replaced old new s t
    → Replaced old new s' t'
Replaced-along s t s' t' e f r = rw (← e, ← f) r

abbrev tail_of : Str → Str
tail_of [] = []
tail_of (c ∷ s) = s

replace_from-Replaced :
    (o : ℕ) (old new : Str) (n : ℕ) (s : Str)
    → length s ≤ n
    → Replaced (o ∷ old) new s (replace_from 0 (o ∷ old) new s)
unfolding replace_from
replace_from-Replaced o old new n [] le = done
replace_from-Replaced o old new zero (c ∷ s) le = absurd (omega arith)
replace_from-Replaced o old new (suc n) (c ∷ s) le =
    elim (Bool-cases (starts_with (o ∷ old) (c ∷ s))) [
      | inl here ↦
          let rest = drop (length old) s in
          let cut = starts_with-split (o ∷ old) (c ∷ s) here in
          let behind : replace_from (length old) (o ∷ old) new s
              ≡ replace_from 0 (o ∷ old) new rest =
            ap (replace_from (length old) (o ∷ old) new) (ap tail_of cut)
            ∙ replace_from-skip (o ∷ old) new old rest in
          let skip : suc (length old) - 1 ≡ length old = omega arith in
          Replaced-along ((o ∷ old) ++ rest) (new ++ replace_from 0 (o ∷ old) new rest) (c ∷ s)
            (replace_from 0 (o ∷ old) new (c ∷ s)) (sym cut)
            (rw (here, skip) (ap (λ t. new ++ t) (sym behind)))
            (hit
              (replace_from-Replaced o old new n rest (omega (arith, length-drop (length old) s))))
      | inr other ↦
          Replaced-along (c ∷ s) (c ∷ replace_from 0 (o ∷ old) new s) (c ∷ s)
            (replace_from 0 (o ∷ old) new (c ∷ s)) refl (rw other refl)
            (keep c other (replace_from-Replaced o old new n s (omega arith)))
    ]

pub replace_all-Replaced :
    (old new body : Str) → old ≢ [] → Replaced old new body (replace_all old new body)
unfolding replace_all
replace_all-Replaced [] new body ne = absurd (ne refl)
replace_all-Replaced (o ∷ old) new body ne =
    replace_from-Replaced o old new (length body) body (omega arith)

abbrev pub text_after : Option AppliedBodyRewrite → Str → Str
text_after none text = text
text_after (some rewrite) text = rewrite.body

module _ (regex_replace_all : Str → Option (Str → Str → Str))
    (apply_json_patch : Str → Str → Option Str) where
  replace_if_changed :
      (guard : Bool) (old new : Str) (s : Rewriting)
      → (replace_if guard old new s).changed ≡ false
      → replace_if guard old new s ≡ s
  unfolding replace_if
  replace_if_changed guard old new s h = ground arith

  apply_op_changed :
      (op : RotoBodyRewriteOp) (s : Rewriting)
      → (apply_op regex_replace_all apply_json_patch op s).changed ≡ false
      → apply_op regex_replace_all apply_json_patch op s ≡ s
  unfolding apply_op
  apply_op_changed (replace_text_once old new) s h = replace_if_changed _ old new s h
  apply_op_changed (replace_text_all old new) s h = ground arith
  apply_op_changed (replace_regex pattern replacement) s h = ground arith
  apply_op_changed (replace_text_when_contains anchor old new) s h =
      replace_if_changed _ old new s h
  apply_op_changed (replace_js_property property old new) s h = replace_if_changed _ old new s h
  apply_op_changed (replace_css_declaration property old new) s h = replace_if_changed _ old new s h
  apply_op_changed (replace_html_attribute selector attribute old new) s h =
      replace_if_changed _ old new s h
  apply_op_changed (apply_json_patch_op patch_json content_type) s h = ground arith

  apply_ops_changed :
      (ops : List RotoBodyRewriteOp) (s : Rewriting)
      → (apply_ops regex_replace_all apply_json_patch ops s).changed ≡ false
      → apply_ops regex_replace_all apply_json_patch ops s ≡ s
  unfolding apply_ops
  apply_ops_changed [] s h = refl
  apply_ops_changed (op ∷ ops) s h =
      let next = apply_op regex_replace_all apply_json_patch op s in
      let rest = apply_ops_changed ops next h in
      rest ∙ apply_op_changed op s (sym (ap (λ t. t.changed) rest) ∙ h)

  -- The body that a rewrite reports, or the original one when it reports no change, is the outcome of
  -- all operations, applied to the original text in their order.
  pub apply_body_rewrite_ops_lem :
      (text : Str) (ops : List RotoBodyRewriteOp)
      → text_after (apply_body_rewrite_ops regex_replace_all apply_json_patch (some text) ops) text
        ≡ (apply_ops regex_replace_all apply_json_patch ops
            (record { body = text; content_type = none; changed = false })).body
  unfolding apply_body_rewrite_ops rewritten
  apply_body_rewrite_ops_lem text [] = unfold apply_ops in refl
  apply_body_rewrite_ops_lem text (op ∷ ops) =
      let start : Rewriting = record { body = text; content_type = none; changed = false } in
      let end = apply_ops regex_replace_all apply_json_patch (op ∷ ops) start in
      elim (Bool-cases end.changed) [
        | inl did ↦ rw did refl
        | inr same ↦ rw same (sym (ap (λ t. t.body) (apply_ops_changed (op ∷ ops) start same)))
      ]
